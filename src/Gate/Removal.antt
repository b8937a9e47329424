-- ===== src/Gate/Removal.antt =====
-- What RemoveConnection of gate/GateServerHandler.cpp leaves, and what it tells the zone server.
use playground.Prelude.{
  length-set, ℕ, zero, suc, ◌<◌, ◌≡◌, ◌≢◌, refl, sym, ap, ◌∙◌, Bool, true, false, ◌||◌, List, [],
  ◌∷◌, ◌++◌, Option, none, some, leb, ◌==◌, if◌then◌else◌, length, set, arith,
}
use playground.Prelude.Map.{lookup, erase, insert, lookup-erase, lookup-insert}
use playground.Gate.Connection
use playground.Gate.Connection.{Connection, is_open}
use mathlib.Core.List.{append-nil, append_assoc}
use playground.Timer.{cancel_timer}
use playground.Channel.{Channels, send_to_agent}
use playground.GateMsg.{event_close}
use playground.Gate.Server.{
  Env, Gate, Effect, posted, closed, emit, at, conn_at, conn_at-set, ss_msg, index_of_fd,
  report_event, close_connection, modify, remove_connection, get_connection_by_fd,
  get_connection_by_idx,
}
use playground.Gate.Reports.{posted_lem}

-- What RemoveConnection says to the zone server: the connection's index is already forgotten.
abbrev pub close_effects : Env → Channels → Connection → ℕ → List Effect
close_effects env channels c reason =
    let head = env.codec.encode (ss_msg env c event_close reason 0) in
    elim (send_to_agent channels c.dst_channel (head ∷ []) (length head)) [
      | none ↦ []
      | some bytes ↦ posted c.dst_channel bytes ∷ []
    ]

index_of_fd-none :
    (g : Gate) (fd : ℕ)
    → lookup fd g.fds ≡ none
    → index_of_fd g fd ≡ (0, record g { fds = insert fd 0 g.fds })
unfolding index_of_fd
index_of_fd-none g fd e = rw (e, index_of_fd) refl

report_close :
    (env : Env) (g : Gate) (i reason : ℕ)
    → lookup (at g i).fd g.fds ≡ none
    → report_event env g i event_close reason [] ≡ record g {
      fds = insert (at g i).fd 0 g.fds;
      out = g.out ++ close_effects env g.channels (at g i) reason;
    }
unfolding report_event
report_close env g i reason e =
    let c = at g i in
    ap
      (λ (ixs : ℕ × Gate).
        elim (send_to_agent g.channels c.dst_channel
            (env.codec.encode (ss_msg env c event_close reason ixs.0) ∷ [])
            (length (env.codec.encode (ss_msg env c event_close reason ixs.0))))
          as (λ _. Gate) [ none ↦ ixs.1 | some b ↦ emit ixs.1 (posted c.dst_channel b) ])
      (index_of_fd-none g c.fd e)
    ∙ posted_lem (record g { fds = insert c.fd 0 g.fds }) c.dst_channel _

closed_lem :
    (b : Bool) (g : Gate) (fd : ℕ)
    → (if b then emit g (closed fd) else g)
      ≡ record g { out = g.out ++ (if b then closed fd ∷ [] else []) }
closed_lem true g fd = refl
closed_lem false g fd = ap (λ o. record g { out = o }) (sym (append-nil g.out))

pub conn_at-set_other :
    (cs : List Connection) (i j : ℕ) (c : Connection)
    → j ≢ i
    → conn_at (set cs i c) j ≡ conn_at cs j
unfolding conn_at
conn_at-set_other [] i j c h = refl
conn_at-set_other (x ∷ xs) zero zero c h = absurd (h refl)
conn_at-set_other (x ∷ xs) zero (suc j) c h = refl
conn_at-set_other (x ∷ xs) (suc i) zero c h = refl
conn_at-set_other (x ∷ xs) (suc i) (suc j) c h = conn_at-set_other xs i j c (λ e. h (ap suc e))

abbrev pub forgotten : Env → Gate → ℕ → ℕ → Gate
forgotten env g i reason =
    let c = at g i in
    record g {
      conns = set g.conns i (Connection.close c);
      fds = insert c.fd 0 (erase c.fd g.fds);
      timers = record g.timers { core = cancel_timer g.timers.core c.timer_id };
      out =
          (g.out ++ close_effects env g.channels c reason)
          ++ (if is_open c.state then closed c.fd ∷ [] else []);
    }

pub remove_connection-forgotten :
    (env : Env) (g : Gate) (i reason : ℕ)
    → remove_connection env g i reason ≡ forgotten env g i reason
unfolding remove_connection
remove_connection-forgotten env g i reason =
    let c = at g i in
    let g1 = record g { fds = erase c.fd g.fds } in
    let gone : lookup c.fd g1.fds ≡ none = ground (arith, lookup-erase c.fd c.fd g.fds) in
    let core = cancel_timer g.timers.core c.timer_id in
    ap
      (λ (h : Gate).
        close_connection
          (record h {
            timers = record h.timers { core = cancel_timer h.timers.core (at h i).timer_id };
          })
          i)
      (report_close env g1 i reason gone)
    ∙ ap (λ (h : Gate). modify h i Connection.close)
        (closed_lem (is_open c.state)
          (record g {
            fds = insert c.fd 0 (erase c.fd g.fds);
            timers = record g.timers { core = core };
            out = g.out ++ close_effects env g.channels c reason;
          })
          c.fd)

-- The number of slots and the progress of the shutdown stay.
pub remove_connection-kept :
    (env : Env) (g : Gate) (i reason : ℕ)
    → let g' = remove_connection env g i reason in
      (length g'.conns ≡ length g.conns) × (g'.last_closing_idx ≡ g.last_closing_idx)
remove_connection-kept env g i reason =
    rw (remove_connection-forgotten env g i reason)
      (length-set g.conns i (Connection.close (at g i)), refl)

-- A connection is gone from the table: no socket and no index leads to it, its timer is cancelled,
-- and `told` is what the gate did.
pub record IsGone (g g' : Gate) (i : ℕ) (told : List Effect) : Type 0 where
  pub by_fd : get_connection_by_fd g' (at g i).fd ≡ none
  pub by_idx : get_connection_by_idx g' i ≡ none
  pub others : (j : ℕ) → j ≢ i → at g' j ≡ at g j
  pub sockets : (fd : ℕ) → fd ≢ (at g i).fd → lookup fd g'.fds ≡ lookup fd g.fds
  pub timer : lookup (at g i).timer_id g'.timers.events ≡ none
  pub done : g'.out ≡ g.out ++ told

nothing : (x : Option ℕ) (b : Bool) → x ≡ none → (if b then none else x) ≡ none
nothing x true e = refl
nothing x false e = e

-- RemoveConnection of a slot of the table leaves no connection under its socket and none under its
-- index; every other slot is as before, every other socket leads where it did, and the timer of
-- the slot is cancelled. The gate reports the close to the zone server with the index 0, if the
-- channel takes it, and then closes the socket if it was open; it does nothing else.
pub remove_connection_lem :
    (env : Env) (g : Gate) (i reason : ℕ)
    → i < length g.conns
    → IsGone g (remove_connection env g i reason) i (
        close_effects env g.channels (at g i) reason
        ++ (if is_open (at g i).state then closed (at g i).fd ∷ [] else []))
unfolding get_connection_by_fd get_connection_by_idx cancel_timer Connection.close
remove_connection_lem env g i reason lt =
    let c = at g i in
    let here : at (forgotten env g i reason) i ≡ Connection.close c =
      conn_at-set g.conns i (Connection.close c) lt in
    let outside = (i == 0) || leb (length (set g.conns i (Connection.close c))) i in
    let zeroed : lookup c.fd (insert c.fd 0 (erase c.fd g.fds)) ≡ some 0 =
      ground (arith, lookup-insert c.fd c.fd 0 (erase c.fd g.fds)) in
    rw (remove_connection-forgotten env g i reason) (record {
      by_fd =
          ap
            (λ (x : Option ℕ). elim x as (λ _. Option ℕ) [
              | none ↦ none
              | some k ↦ get_connection_by_idx (forgotten env g i reason) k
            ])
            zeroed;
      by_idx =
          ap
            (λ (d : Connection). if outside then none else if is_open d.state then some i else none)
            here
          ∙ nothing none outside refl;
      others = λ j ne. conn_at-set_other g.conns i j (Connection.close c) ne;
      sockets = λ fd ne.
          ground (arith, lookup-insert c.fd fd 0 (erase c.fd g.fds), lookup-erase c.fd fd g.fds);
      timer = ground (arith, lookup-erase c.timer_id c.timer_id g.timers.events);
      done = append_assoc g.out _ _;
    })
