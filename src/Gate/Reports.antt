-- ===== src/Gate/Reports.antt =====
-- What an authorised client's message does (OnClientMessage, ForwardData and ReportEvent of
-- gate/GateServerHandler.cpp).
use playground.Prelude.{
  ℕ, ◌+◌, ◌<◌, ◌≡◌, sym, ◌∙◌, Bool, true, false, List, [], ◌∷◌, ◌++◌, Option, none, some, refl, ap,
  if◌then◌else◌, length, set,
}
use mathlib.Core.List.{append-nil}
use playground.Prelude.Map.{lookup}
use playground.Prelude.Words.{pos}
use playground.Channel.{Channels, send_to_agent}
use playground.GateMsg.{event_data}
use playground.Gate.Connection.{Connection, authorized, update_stat}
use playground.Gate.Server.{
  ss_msg, emit, Env, Gate, Effect, posted, at, conn_at-set, report_event, index_of_fd,
}
use playground.Gate.Client.{send_frame_to_client, on_client_message, on_message_in, forward_data}

-- What a zone server is sent for one message of the authorised client of connection `c`.
abbrev pub data_effects : Env → Channels → Connection → ℕ → List ℕ → List Effect
data_effects env channels c i m =
    let head = env.codec.encode (ss_msg env c event_data 0 i) in
    elim (send_to_agent channels c.dst_channel (head ∷ m ∷ []) (length head)) [
      | none ↦ []
      | some bytes ↦ posted c.dst_channel bytes ∷ []
    ]

-- What ReportEvent does with what SendToAgent posts.
pub posted_lem :
    (g : Gate) (dst : ℕ) (x : Option (List ℕ))
    → (elim x as (λ _. Gate) [ none ↦ g | some b ↦ emit g (posted dst b) ]) ≡ record g {
      out = g.out ++ (elim x as (λ _. List Effect) [ none ↦ [] | some b ↦ posted dst b ∷ [] ]);
    }
posted_lem g dst none = ap (λ o. record g { out = o }) (sym (append-nil g.out))
posted_lem g dst (some b) = refl

index_lem : (g : Gate) (fd i : ℕ) → lookup fd g.fds ≡ some i → index_of_fd g fd ≡ (i, g)
unfolding index_of_fd
index_lem g fd i e = rw (e, index_of_fd) refl

pub report_lem :
    (env : Env) (g : Gate) (i : ℕ) (m : List ℕ)
    → lookup (at g i).fd g.fds ≡ some i
    → report_event env g i event_data 0 (m ∷ [])
      ≡ record g { out = g.out ++ data_effects env g.channels (at g i) i m }
unfolding report_event
report_lem env g i m known =
    let c = at g i in
    ap
      (λ (ixs : ℕ × Gate).
        elim (send_to_agent g.channels c.dst_channel
            (env.codec.encode (ss_msg env c event_data 0 ixs.0) ∷ m ∷ [])
            (length (env.codec.encode (ss_msg env c event_data 0 ixs.0))))
          as (λ _. Gate) [ none ↦ ixs.1 | some b ↦ emit ixs.1 (posted c.dst_channel b) ])
      (index_lem g c.fd i known)
    ∙ posted_lem g c.dst_channel _

-- Outside the test mode an authorised client's message is only reported.
forward_data_lem :
    (env : Env) (g : Gate) (i : ℕ) (m : List ℕ)
    → lookup (at g i).fd g.fds ≡ some i
    → env.test_mode ≡ false
    → forward_data env g i m ≡ record g {
      reqpkgs = g.reqpkgs + 1;
      out = g.out ++ data_effects env g.channels (at g i) i m;
    }
unfolding forward_data
forward_data_lem env g i m known quiet =
    let g1 = report_event env (record g { reqpkgs = g.reqpkgs + 1 }) i event_data 0 (m ∷ []) in
    ap (λ t. if t then (send_frame_to_client env g1 i env.test_frame).1 else g1) quiet
    ∙ report_lem env (record g { reqpkgs = g.reqpkgs + 1 }) i m known

update_stat-fd : (recv : Bool) (now : ℕ) (c : Connection) → (update_stat recv now c).fd ≡ c.fd
unfolding update_stat
update_stat-fd recv now c = refl

-- An authorised client's message is reported to its zone server, and leaves the tables alone.
pub forward_lem :
    (env : Env) (g : Gate) (i : ℕ) (m : List ℕ)
    → i < length g.conns
    → lookup (at g i).fd g.fds ≡ some i
    → (at g i).state ≡ authorized
    → env.test_mode ≡ false
    → on_client_message env g i m
      ≡ some (
        pos 0,
        record g {
          conns = set g.conns i (update_stat true env.now (at g i));
          uppkgs = g.uppkgs + 1;
          reqpkgs = g.reqpkgs + 1;
          out = g.out ++ data_effects env g.channels (update_stat true env.now (at g i)) i m;
        },
      )
unfolding on_client_message on_message_in forward_data
forward_lem env g i m lt known auth quiet =
    let c' = update_stat true env.now (at g i) in
    let g1 = record g { conns = set g.conns i c'; uppkgs = g.uppkgs + 1 } in
    let here : at g1 i ≡ c' = conn_at-set g.conns i c' lt in
    let fd : (at g1 i).fd ≡ (at g i).fd =
      ap (λ c. c.fd) here ∙ update_stat-fd true env.now (at g i) in
    ap (on_message_in env g1 i m) auth
    ∙ ap (λ h. some (pos 0, h))
        (forward_data_lem env g1 i m (ap (λ k. lookup k g.fds) fd ∙ known) quiet)
    ∙ ap
        (λ c. some (
          pos 0,
          record g1 { reqpkgs = g.reqpkgs + 1; out = g.out ++ data_effects env g.channels c i m },
        ))
        here
