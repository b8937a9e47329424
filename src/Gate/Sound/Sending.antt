-- ===== src/Gate/Sound/Sending.antt =====
-- What a gate (gate/GateServerHandler.cpp) sends and reports leaves its table of connections.
use mathlib.Core.Path.{subst}
use playground.Prelude.{
  ℕ, ◌+◌, ◌≡◌, refl, Bool, true, false, List, [], ◌∷◌, none, some, if◌then◌else◌, length, Option,
  Bool-cases, Option-cases, inl, inr, ltb, take,
}
use playground.Prelude.Map.{lookup}
use playground.Prelude.Words.{ℤ, u16, minus_one}
use playground.Bytes.{be16}
use playground.GateMsg.{EventType, AuthReq, GateCsMsg, event_data}
use playground.Gate.Connection.{Connection, update_stat}
use playground.Gate.Server.{Env, Gate, posted, at, emit, index_of_fd, report_event}
use playground.Gate.Client.{send_frame_to_client, send_to_client, authorizing, forward_data}
use playground.Gate.Sound.{Same, Keeps, Keeps-refl, Keeps-trans, modify-Keeps, zero-Keeps}

abbrev pub Stays : Gate → Gate → Type 0
Stays g g' = Keeps g.conns g.fds g'.conns g'.fds

pub update_stat-Same : (recv : Bool) (now : ℕ) (c : Connection) → Same c (update_stat recv now c)
unfolding update_stat
update_stat-Same recv now c = record { open_as = refl; socket = refl; none_used = λ e. e }

index_of_fd-Stays : (g : Gate) (fd : ℕ) → Stays g (index_of_fd g fd).1
unfolding index_of_fd
index_of_fd-Stays g fd = elim (Option-cases (lookup fd g.fds)) [
  | inl e ↦ rw (e, index_of_fd) (zero-Keeps g.conns g.fds fd e)
  | inr (i, e) ↦ rw (e, index_of_fd) (Keeps-refl g.conns g.fds)
]

posted-Stays :
    (g g' : Gate) (dst : ℕ) (x : Option (List ℕ))
    → Stays g g'
    → Stays g (elim x as (λ _. Gate) [ none ↦ g' | some b ↦ emit g' (posted dst b) ])
posted-Stays g g' dst none k = k
posted-Stays g g' dst (some b) k = record { size = k.size; slots = k.slots; leads = k.leads }

pub report_event-Stays :
    (env : Env) (g : Gate) (i : ℕ) (event : EventType) (param : ℕ) (payload : List (List ℕ))
    → Stays g (report_event env g i event param payload)
unfolding report_event
report_event-Stays env g i event param payload =
    posted-Stays g (index_of_fd g (at g i).fd).1 (at g i).dst_channel _
      (index_of_fd-Stays g (at g i).fd)

pub send_frame_to_client-Stays :
    (env : Env) (g : Gate) (i : ℕ) (bytes : List ℕ) → Stays g (send_frame_to_client env g i bytes).1
unfolding send_frame_to_client
send_frame_to_client-Stays env g i bytes =
    let k =
      modify-Keeps g.conns g.fds i (update_stat false env.now (at g i))
        (update_stat-Same false env.now (at g i)) in
    let size = u16 (length bytes) in
    elim (Bool-cases (env.sends (at g i).fd (be16 size))) [
      | inr e ↦ rw e k
      | inl e ↦ elim (Bool-cases (env.sends (at g i).fd (take size bytes))) [
        | inl e' ↦ rw (e, e') k
        | inr e' ↦ rw (e, e') k
      ]
    ]

pub ended-Stays :
    (g : Gate) (r : ℤ × Gate) (ret : ℤ) (g' : Gate)
    → some r ≡ some (ret, g')
    → Stays g r.1
    → Stays g g'
ended-Stays g r ret g' e k =
    let eq : r ≡ (ret, g') = cc e in subst (λ (x : ℤ × Gate). Stays g x.1) eq k

pub if-Stays :
    (b : Bool) (g g1 g2 : Gate) → Stays g g1 → Stays g g2 → Stays g (if b then g1 else g2)
if-Stays true g g1 g2 k l = k
if-Stays false g g1 g2 k l = l

pub send_to_client-Stays :
    (env : Env) (g : Gate) (i : ℕ) (msg : GateCsMsg) (ret : ℤ) (g' : Gate)
    → send_to_client env g i msg ≡ some (ret, g')
    → Stays g g'
unfolding send_to_client
send_to_client-Stays env g i msg ret g' e =
    elim (Bool-cases (ltb (length (env.encode_cs msg)) 65535)) [
      | inr n ↦ absurd (cc (simp n at e))
      | inl y ↦ elim (Bool-cases env.allocates) [
        | inl a ↦
            ended-Stays g (send_frame_to_client env g i (env.encode_cs msg)) ret g'
              (simp (y, a) at e) (send_frame_to_client-Stays env g i (env.encode_cs msg))
        | inr n ↦ ended-Stays g (minus_one, g) ret g' (simp (y, n) at e) (Keeps-refl g.conns g.fds)
      ]
    ]

pub authorizing-Stays :
    (env : Env) (g : Gate) (i : ℕ) (auth : AuthReq) → Stays g (authorizing env g i auth).1
unfolding authorizing
authorizing-Stays env g i auth = elim (Option-cases (lookup auth.area env.area_channel)) [
  | inl e ↦ rw (e, authorizing) (Keeps-refl g.conns g.fds)
  | inr (channel, e) ↦
      rw (e, authorizing)
        (modify-Keeps g.conns g.fds i _
          (record { open_as = refl; socket = refl; none_used = λ z. z }))
]

pub forward_data-Stays :
    (env : Env) (g : Gate) (i : ℕ) (bytes : List ℕ) → Stays g (forward_data env g i bytes)
unfolding forward_data
forward_data-Stays env g i bytes =
    let g0 = record g { reqpkgs = g.reqpkgs + 1 } in
    let g1 = report_event env g0 i event_data 0 (bytes ∷ []) in
    let k : Stays g g1 = report_event-Stays env g0 i event_data 0 (bytes ∷ []) in
    if-Stays env.test_mode g (send_frame_to_client env g1 i env.test_frame).1 g1
      (Keeps-trans g.conns g.fds g1.conns g1.fds _ _ k
        (send_frame_to_client-Stays env g1 i env.test_frame))
      k
