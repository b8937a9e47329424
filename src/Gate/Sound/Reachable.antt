-- ===== src/Gate/Sound/Reachable.antt =====
-- The tables that a gate gets into (gate/GateServerHandler.cpp): it starts with no connections, and
-- takes the events of the TCP server, the messages of zone servers, the idle checks and the rounds
-- of its shutdown in any order.
use mathlib.Core.Path.{subst}
use playground.Prelude.{
  ℕ, zero, suc, ◌+◌, ◌≡◌, refl, sym, ap, ◌∙◌, List, none, some, length, leb, ◌==◌, if◌then◌else◌,
  inl, inr, Option-cases, Bool-cases, arith, ltb,
}
use playground.Prelude.Map.{lookup}
use playground.Prelude.Words.{ℤ, pos, ◌-ℤ◌}
use playground.Channel.{Channels}
use playground.GateMsg.{close_by_default, close_by_client, close_stop_svr}
use playground.Timer.{TimerMgr, add_timer}
use playground.Gate.Connection.{blank, is_open}
use playground.Gate.Server.{
  Env, Gate, at, conn_at, empty_slots, new_gate, modify, get_connection_by_fd,
  get_connection_by_idx, remove_connection,
}
use playground.Gate.Receive.{idle_ms, on_new_connection, on_client_data_recv, on_connection_closed}
use playground.Gate.Closing.{check_connx_free, close_some, on_closing, remove_at, close_all, stop}
use playground.Gate.Agent.{on_agent_message}
use playground.Gate.Sound.{index, IsSound, modify-Keeps}
use playground.Gate.Sound.Removing.{
  remove_connection-IsSound, remove_at-IsSound, get_connection_by_idx-open,
}
use playground.Gate.Sound.Messages.{Sound, Stays-Sound, on_agent_message-IsSound}
use playground.Gate.Sound.Receiving.{get_connection_by_fd-open, on_client_data_recv-IsSound}
use playground.Gate.Sound.Opening.{on_new_connection-IsSound}

-- The channels and the timers are shared with the rest of the gate, which uses them in between. A
-- new client's socket is not a connection's: the system gives out the number of a closed one.
pub data Reached : Gate → Type 0 where
  started :
      (env : Env) (max_connections : ℕ) (channels : Channels) (timers : TimerMgr)
      → Reached (new_gate env max_connections channels timers)
  shared :
      {g : Gate}
      → (channels : Channels) (timers : TimerMgr) → Reached g
      → Reached (record g { channels = channels; timers = timers })
  came :
      {g g' : Gate} (env : Env) (fd : ℕ) (ret : ℤ)
      → Reached g
      → get_connection_by_fd g fd ≡ none
      → on_new_connection env g fd ≡ some (ret, g')
      → Reached g'
  received :
      {g g' : Gate} (env : Env) (fd : ℕ) (bytes : List ℕ) (ret : ℤ)
      → Reached g
      → on_client_data_recv env g fd bytes ≡ some (ret, g')
      → Reached g'
  gone : {g : Gate} → (env : Env) (fd : ℕ) → Reached g → Reached (on_connection_closed env g fd).1
  told :
      {g g' : Gate} (env : Env) (bytes : List ℕ) (ret : ℤ)
      → Reached g
      → on_agent_message env g bytes ≡ some (ret, g')
      → Reached g'
  checked :
      {g g' : Gate} (env : Env) (idx : ℕ)
      → Reached g
      → check_connx_free env g idx ≡ some g'
      → Reached g'
  closing_down :
      {g : Gate}
      → (env : Env) (reason notifinum : ℕ) → Reached g
      → Reached (on_closing env g reason notifinum).1
  stopped : {g : Gate} → (env : Env) → Reached g → Reached (stop env g)

empty_slots-blank : (n i : ℕ) → conn_at (empty_slots n) i ≡ blank
unfolding empty_slots conn_at
empty_slots-blank zero i = refl
empty_slots-blank (suc n) zero = refl
empty_slots-blank (suc n) (suc i) = empty_slots-blank n i

new_gate-IsSound :
    (env : Env) (n : ℕ) (channels : Channels) (timers : TimerMgr)
    → let g = new_gate env n channels timers in IsSound g.conns g.fds
unfolding new_gate index lookup
new_gate-IsSound env n channels timers = record {
  live = λ fd le. absurd (omega (arith, le));
  paired = λ i o. absurd (cc (sym o ∙ ap (λ c. is_open c.state) (empty_slots-blank n i)));
  empty = λ i. ap (λ c. c.used) (empty_slots-blank n i);
}

on_connection_closed-IsSound :
    (env : Env) (g : Gate) (fd : ℕ)
    → IsSound g.conns g.fds
    → let g' = (on_connection_closed env g fd).1 in IsSound g'.conns g'.fds
unfolding on_connection_closed get_connection_by_fd get_connection_by_idx
on_connection_closed-IsSound env g fd s =
    let g0 = record g { alived = g.alived -ℤ pos 1 } in
    elim (Option-cases (get_connection_by_fd g0 fd)) [
      | inl n ↦ simp (n, on_connection_closed) s
      | inr (i, e) ↦
          simp (e, on_connection_closed)
            (remove_connection-IsSound env g0 i close_by_client
              (get_connection_by_fd-open g0 fd i e) s)
    ]

check_connx_free-IsSound :
    (env : Env) (g : Gate) (idx : ℕ) (g' : Gate)
    → IsSound g.conns g.fds
    → check_connx_free env g idx ≡ some g'
    → IsSound g'.conns g'.fds
unfolding check_connx_free
check_connx_free-IsSound env g idx g' s e = elim (Option-cases (get_connection_by_idx g idx)) [
  | inl n ↦ let eq : g ≡ g' = cc (simp (n, check_connx_free) at e) in subst Sound eq s
  | inr (i, has) ↦
      elim (Bool-cases (ltb ((at g i).last_act_time + env.idle_check_period) env.now)) [
        | inl idle ↦
            let eq : remove_connection env g i close_by_default ≡ g' =
              cc (simp (has, check_connx_free, idle) at e) in
            subst Sound eq (
              remove_connection-IsSound env g i close_by_default
                (get_connection_by_idx-open g idx i has).1 s)
        | inr busy ↦
            elim (Bool-cases (leb ((at g i).last_check_time + env.idle_check_period) env.now)) [
              | inr early ↦
                  let eq : g ≡ g' = cc (simp (has, check_connx_free, busy, early) at e) in
                  subst Sound eq s
              | inl due ↦ elim (Option-cases (add_timer g.timers (idle_ms g) idx (some 0) 0)) [
                | inl n ↦ absurd (cc (simp (has, check_connx_free, busy, due, n) at e))
                | inr ((id, timers), added) ↦
                    let g1 =
                      modify (record g { timers = timers }) i
                        (λ c. record c { timer_id = id; last_check_time = env.now }) in
                    let eq : g1 ≡ g' = cc (simp (has, check_connx_free, busy, due, added) at e) in
                    subst Sound eq (
                      Stays-Sound g g1
                        (modify-Keeps g.conns g.fds i _
                          (record { open_as = refl; socket = refl; none_used = λ z. z }))
                        s)
              ]
            ]
      ]
]

close_some-IsSound :
    (rounds : ℕ) (env : Env) (g : Gate) (reason : ℕ)
    → IsSound g.conns g.fds
    → let g' = close_some rounds env g reason in IsSound g'.conns g'.fds
unfolding close_some
close_some-IsSound zero env g reason s = s
close_some-IsSound (suc rounds) env g reason s =
    elim (Bool-cases (ltb g.last_closing_idx (length g.conns))) [
      | inr e ↦ rw e s
      | inl e ↦
          let g1 = remove_at env g g.last_closing_idx reason in
          rw e (
            close_some-IsSound rounds env (record g1 { last_closing_idx = g1.last_closing_idx + 1 })
              reason (remove_at-IsSound env g g.last_closing_idx reason s))
    ]

on_closing-IsSound :
    (env : Env) (g : Gate) (reason notifinum : ℕ)
    → IsSound g.conns g.fds
    → let g' = (on_closing env g reason notifinum).1 in IsSound g'.conns g'.fds
unfolding on_closing
on_closing-IsSound env g reason notifinum s =
    close_some-IsSound notifinum env
      (record g { closing = if g.closing == 0 then reason else g.closing }) reason s

close_all-IsSound :
    (left i : ℕ) (env : Env) (g : Gate)
    → IsSound g.conns g.fds
    → let g' = close_all left i env g in IsSound g'.conns g'.fds
unfolding close_all
close_all-IsSound zero i env g s = s
close_all-IsSound (suc left) i env g s =
    close_all-IsSound left (suc i) env (remove_at env g i close_stop_svr)
      (remove_at-IsSound env g i close_stop_svr s)

-- Every table of connections that a gate reaches is sound: the gate starts with no connections and
-- takes new clients, whose socket is no open connection's, reads, closed sockets, messages of zone
-- servers, idle checks, rounds of the shutdown and its destruction in any order, and between them
-- the channels and the timers may change. Sound means: an index that a socket leads to, other than
-- 0, is that of an open connection with this socket; the socket of an open connection leads to its
-- index, which is not 0; no connection has received bytes counted.
pub Reached-IsSound : (g : Gate) → Reached g → IsSound g.conns g.fds
unfolding stop
Reached-IsSound g (started env n channels timers) = new_gate-IsSound env n channels timers
Reached-IsSound g (shared channels timers r) = Reached-IsSound _ r
Reached-IsSound g (came env fd ret r fresh e) =
    on_new_connection-IsSound env _ fd ret g (Reached-IsSound _ r) fresh e
Reached-IsSound g (received env fd bytes ret r e) =
    on_client_data_recv-IsSound env _ fd bytes ret g (Reached-IsSound _ r) e
Reached-IsSound g (gone env fd r) = on_connection_closed-IsSound env _ fd (Reached-IsSound _ r)
Reached-IsSound g (told env bytes ret r e) =
    on_agent_message-IsSound env _ bytes ret g (Reached-IsSound _ r) e
Reached-IsSound g (checked env idx r e) =
    check_connx_free-IsSound env _ idx g (Reached-IsSound _ r) e
Reached-IsSound g (closing_down env reason notifinum r) =
    on_closing-IsSound env _ reason notifinum (Reached-IsSound _ r)
Reached-IsSound g (stopped {g = h} env r) =
    close_all-IsSound (length h.conns) 0 env h (Reached-IsSound _ r)
