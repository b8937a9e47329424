-- ===== src/Gate/Framing.antt =====
-- How a gate cuts what a client sends into messages (OnClientDataRecv of gate/GateServerHandler.cpp).
use playground.Prelude.{
  ℕ, zero, suc, ◌≤◌, ◌<◌, ◌≡◌, sym, ◌∙◌, ◌||◌, false, List, [], ◌∷◌, ◌++◌, Option, none, some, refl,
  arith, ap, leb, ◌==◌, if◌then◌else◌, length, All, length-append,
}
use mathlib.Core.List.{append-nil, append_assoc}
use playground.Prelude.Map.{lookup}
use playground.Prelude.Words.{ℤ, ◌+ℤ◌, pos, minus_one}
use playground.Channel.{Channels}
use playground.Gate.Connection.{Connection, update_stat, is_open}
use playground.Gate.Server.{
  emit, Env, Gate, Effect, closed, at, get_connection_by_fd, get_connection_by_idx,
}
use playground.Gate.Receive.{on_piece, go_on, on_data, on_client_data_recv}
use playground.Gate.Reports.{data_effects}
use playground.Gate.Posting.{all_effects, reports, all_effects-reports}
use playground.Gate.Pieces.{frames, IsMessage, IsReady, served, Leaves, piece_lem}

all_effects-served :
    (env : Env) (channels : Channels) (c : Connection) (buffer : List ℕ) (i : ℕ)
    (ms : List (List ℕ))
    → all_effects env channels (served env c buffer) i ms ≡ all_effects env channels c i ms
unfolding update_stat
all_effects-served env channels c buffer i [] = refl
all_effects-served env channels c buffer i (m ∷ ms) =
    ap (◌++◌ (data_effects env channels c i m)) (all_effects-served env channels c buffer i ms)

Leaves-IsReady :
    (env : Env) (g g' : Gate) (fd i : ℕ) (buffer : List ℕ) (effects : List Effect)
    → IsReady g fd i
    → Leaves g g' i (served env (at g i) buffer) effects
    → IsReady g' fd i
unfolding update_stat
Leaves-IsReady env g g' fd i buffer effects r (there, fds, channels, len, out) = record {
  mapped = ap (lookup fd) fds ∙ r.mapped;
  used_slot = r.used_slot;
  in_range = omega (arith, len, r.in_range);
  socket = ap (λ (c : Connection). c.fd) there ∙ r.socket;
  state = ap (λ (c : Connection). c.state) there ∙ r.state;
  no_prefix = ap (λ (c : Connection). c.msg_len) there;
  no_bytes = ap (λ (c : Connection). c.used) there;
}

pub get_connection_by_fd-IsReady :
    (g : Gate) (fd i : ℕ) → IsReady g fd i → get_connection_by_fd g fd ≡ some i
unfolding get_connection_by_fd get_connection_by_idx
get_connection_by_fd-IsReady g fd i r =
    let within : (i == 0) || leb (length g.conns) i ≡ false =
      ground (arith, r.used_slot, r.in_range) in
    ap
      (λ (x : Option ℕ). elim x as (λ _. Option ℕ) [
        | none ↦ none
        | some k ↦
            if (k == 0) || leb (length g.conns) k
            then none
            else if is_open (at g k).state
            then some k
            else none
      ])
      r.mapped
    ∙ ap (λ b. if b then none else if is_open (at g i).state then some i else none) within
    ∙ ap (λ s. if is_open s then some i else none) r.state

on_data_lem :
    (fuel : ℕ) (env : Env) (g : Gate) (fd i : ℕ) (m : List ℕ) (ms : List (List ℕ))
    → env.test_mode ≡ false
    → IsReady g fd i
    → IsMessage m
    → All IsMessage ms
    → length ms < fuel
    → (g' : Gate) × (on_data fuel env g fd (frames (m ∷ ms)) ≡ some (pos 0, g'))
      × IsReady g' fd i
      × (g'.out ≡ g.out ++ all_effects env g.channels (at g i) i (m ∷ ms))
unfolding on_data go_on
on_data_lem zero env g fd i m ms quiet r h hs lt = absurd (omega arith)
on_data_lem (suc fuel) env g fd i m [] quiet r h hs lt =
    let (g1, buffer, e, l) = piece_lem env g fd i m [] quiet r h in
    let (there, fds, channels, len, out) = l in
    (
      g1,
      ap
            (λ (x : Option ℕ). elim x as (λ _. Option (ℤ × Gate)) [
              | none ↦ some (minus_one, emit g (closed fd))
              | some k ↦
                  go_on (λ g' rest. on_data fuel env g' fd rest)
                    (on_piece env g k (frames (m ∷ [])))
            ])
            (get_connection_by_fd-IsReady g fd i r)
          ∙ ap (go_on (λ g' rest. on_data fuel env g' fd rest)) e,
      Leaves-IsReady env g g1 fd i buffer _ r l,
      out ∙ ap (◌++◌ g.out) (sym (append-nil (data_effects env g.channels (at g i) i m))),
    )
on_data_lem (suc fuel) env g fd i m (n ∷ ms) quiet r h hs lt =
    let (g1, buffer, e, l) = piece_lem env g fd i m (frames (n ∷ ms)) quiet r h in
    let first = data_effects env g.channels (at g i) i m in
    let (there, fds, channels, len, out) = l in
    let (g2, more, ready, sent) =
      on_data_lem fuel env g1 fd i n ms quiet (Leaves-IsReady env g g1 fd i buffer _ r l) hs.0 hs.1
        (omega arith) in
    (
      g2,
      ap
            (λ (x : Option ℕ). elim x as (λ _. Option (ℤ × Gate)) [
              | none ↦ some (minus_one, emit g (closed fd))
              | some k ↦
                  go_on (λ g' rest. on_data fuel env g' fd rest)
                    (on_piece env g k (frames (m ∷ n ∷ ms)))
            ])
            (get_connection_by_fd-IsReady g fd i r)
          ∙ ap (go_on (λ g' rest. on_data fuel env g' fd rest)) e
          ∙ ap
              (λ (x : Option (ℤ × Gate)). elim x as (λ _. Option (ℤ × Gate)) [
                | none ↦ none
                | some (errors, g') ↦ some (pos 0 +ℤ errors, g')
              ])
              more,
      ready,
      sent
          ∙ ap (λ o. o ++ all_effects env g1.channels (at g1 i) i (n ∷ ms)) out
          ∙ ap (λ cs. (g.out ++ first) ++ all_effects env cs (at g1 i) i (n ∷ ms)) channels
          ∙ ap (λ c. (g.out ++ first) ++ all_effects env g.channels c i (n ∷ ms)) there
          ∙ ap (◌++◌ (g.out ++ first))
              (all_effects-served env g.channels (at g i) buffer i (n ∷ ms))
          ∙ append_assoc g.out first (all_effects env g.channels (at g i) i (n ∷ ms)),
    )

length-frames : (ms : List (List ℕ)) → length ms ≤ length (frames ms)
length-frames [] = omega arith
length-frames (m ∷ ms) = omega (arith, length-append m (frames ms), length-frames ms)

-- Outside the test mode, where the connection of a socket is authorised and has nothing half
-- received, a read that holds one or more whole messages, each of 1 to 65535 bytes behind its
-- length, makes OnClientDataRecv end with 0 within its fuel. In their order, each message for
-- which the zone server's channel exists and which has with its encoded head fewer than 65534
-- bytes is posted to that channel once, whole, behind the head and the head's size in two bytes;
-- for every other message nothing is posted. Nothing else is sent, and the connection is again
-- authorised with nothing half received.
pub on_client_data_recv_lem :
    (env : Env) (g : Gate) (fd i : ℕ) (m : List ℕ) (ms : List (List ℕ))
    → env.test_mode ≡ false
    → IsReady g fd i
    → IsMessage m
    → All IsMessage ms
    → (g' : Gate) × (on_client_data_recv env g fd (frames (m ∷ ms)) ≡ some (pos 0, g'))
      × IsReady g' fd i
      × (g'.out ≡ g.out ++ reports env g.channels (at g i) i (m ∷ ms))
unfolding on_client_data_recv
on_client_data_recv_lem env g fd i m ms quiet r h hs =
    let (g', e, ready, sent) =
      on_data_lem (suc (length (frames (m ∷ ms)))) env g fd i m ms quiet r h hs
        (omega (arith, length-frames (m ∷ ms))) in
    (g', e, ready, sent ∙ ap (◌++◌ g.out) (all_effects-reports env g.channels (at g i) i (m ∷ ms)))
