-- ===== src/Gate/Posting.antt =====
-- What ReportEvent of gate/GateServerHandler.cpp posts to a zone server for messages of a client,
-- written out.
use playground.Prelude.{
  Bool, ltb, true, inl, inr, Bool-cases, Option-cases, ◌+◌, ℕ, ◌≡◌, ◌∙◌, false, List, [], ◌∷◌, ◌++◌,
  Option, none, some, refl, arith, ap, leb, if◌then◌else◌, length,
}
use mathlib.Core.List.{append-nil}
use playground.Bytes.{be16}
use playground.GateMsg.{event_data}
use playground.Channel.{Channels, get_channel, send_to_agent, total_length, join}
use playground.Gate.Connection.{Connection}
use playground.Gate.Server.{ss_msg, posted, Env, Effect}
use playground.Gate.Reports.{data_effects}

-- What a zone server is sent for several messages, in order.
abbrev pub all_effects : Env → Channels → Connection → ℕ → List (List ℕ) → List Effect
all_effects env channels c i [] = []
all_effects env channels c i (m ∷ ms) =
    data_effects env channels c i m ++ all_effects env channels c i ms

-- What the zone server is to get for one message: its head's size, the head and the message, where
-- the channel is there and head and message are short enough.
abbrev pub report : Env → Channels → Connection → ℕ → List ℕ → List Effect
report env channels c i m =
    let head = env.codec.encode (ss_msg env c event_data 0 i) in
    elim (get_channel channels c.dst_channel) [
      | none ↦ []
      | some _ ↦
          if ltb (length head + length m) 65534
          then posted c.dst_channel (be16 (length head) ++ (head ++ m)) ∷ []
          else []
    ]

abbrev pub reports : Env → Channels → Connection → ℕ → List (List ℕ) → List Effect
reports env channels c i [] = []
reports env channels c i (m ∷ ms) = report env channels c i m ++ reports env channels c i ms

-- SendToAgent for a head and a message.
send_to_agent-two :
    (channels : Channels) (dst : ℕ) (head m : List ℕ)
    → send_to_agent channels dst (head ∷ m ∷ []) (length head) ≡ elim (get_channel channels dst) [
      | none ↦ none
      | some _ ↦
          if ltb (length head + length m) 65534
          then some (be16 (length head) ++ (head ++ m))
          else none
    ]
unfolding send_to_agent total_length join
send_to_agent-two channels dst head m =
    let sum : length head + (length m + 0) + 2 ≡ length head + length m + 2 = omega arith in
    elim (Bool-cases (ltb (length head + length m) 65534)) [
      | inl t ↦
          let short : leb 65536 (length head + (length m + 0) + 2) ≡ false = ground (arith, t) in
          elim (Option-cases (get_channel channels dst)) [
            | inl n ↦ simp (n, short, send_to_agent) refl
            | inr (name, s) ↦ simp (s, t, short, send_to_agent, append-nil m) refl
          ]
      | inr f ↦
          let long : leb 65536 (length head + (length m + 0) + 2) ≡ true = ground (arith, f) in
          elim (Option-cases (get_channel channels dst)) [
            | inl n ↦ simp (n, long, send_to_agent) refl
            | inr (name, s) ↦ simp (s, f, long, send_to_agent) refl
          ]
    ]

post_if :
    (x : Option (List ℕ)) (b : Bool) (dst : ℕ) (bytes : List ℕ)
    → (elim (elim x as (λ _. Option (List ℕ)) [
      | none ↦ none
      | some _ ↦ if b then some bytes else none
    ])
        as (λ _. List Effect) [ none ↦ [] | some p ↦ posted dst p ∷ [] ])
      ≡ (elim x as (λ _. List Effect) [
        | none ↦ []
        | some _ ↦ if b then posted dst bytes ∷ [] else []
      ])
post_if none b dst bytes = refl
post_if (some _) true dst bytes = refl
post_if (some _) false dst bytes = refl

data_effects-report :
    (env : Env) (channels : Channels) (c : Connection) (i : ℕ) (m : List ℕ)
    → data_effects env channels c i m ≡ report env channels c i m
data_effects-report env channels c i m =
    let head = env.codec.encode (ss_msg env c event_data 0 i) in
    ap (λ x. elim x as (λ _. List Effect) [ none ↦ [] | some b ↦ posted c.dst_channel b ∷ [] ])
      (send_to_agent-two channels c.dst_channel head m)
    ∙ post_if (get_channel channels c.dst_channel) (ltb (length head + length m) 65534)
        c.dst_channel (be16 (length head) ++ (head ++ m))

pub all_effects-reports :
    (env : Env) (channels : Channels) (c : Connection) (i : ℕ) (ms : List (List ℕ))
    → all_effects env channels c i ms ≡ reports env channels c i ms
all_effects-reports env channels c i [] = refl
all_effects-reports env channels c i (m ∷ ms) =
    ap (λ e. e ++ all_effects env channels c i ms) (data_effects-report env channels c i m)
    ∙ ap (◌++◌ (report env channels c i m)) (all_effects-reports env channels c i ms)
