-- ===== src/Gate/Closing.antt =====
-- gate/GateServerHandler.cpp: the check of an idle connection, and the shutdown of a gate.
use playground.Prelude.{
  ℕ, zero, suc, ◌+◌, Option, none, some, ltb, leb, ◌==◌, if◌then◌else◌, length,
}
use playground.Prelude.Words.{ℤ, pos}
use playground.GateMsg.{close_by_default, close_stop_svr}
use playground.Timer.{add_timer}
use playground.Gate.Server.{Env, Gate, at, modify, get_connection_by_idx, remove_connection}
use playground.Gate.Receive.{idle_ms}

-- CheckConnxFree, whose parameter is the timer's event code; `none`: AddTimer does not end. The
-- handler is there.
unfoldable pub check_connx_free : Env → Gate → ℕ → Option Gate
check_connx_free env g idx = elim (get_connection_by_idx g idx) [
  | none ↦ some g
  | some i ↦
      if ltb ((at g i).last_act_time + env.idle_check_period) env.now
      then some (remove_connection env g i close_by_default)
      else if leb ((at g i).last_check_time + env.idle_check_period) env.now
      then elim (add_timer g.timers (idle_ms g) idx (some 0) 0) [
        | none ↦ none
        | some (id, timers) ↦ some (
            modify (record g { timers = timers }) i
              (λ c. record c { timer_id = id; last_check_time = env.now }))
      ]
      else some g
]

unfoldable pub remove_at : Env → Gate → ℕ → ℕ → Gate
remove_at env g idx reason = elim (get_connection_by_idx g idx) [
  | none ↦ g
  | some i ↦ remove_connection env g i reason
]

-- The loop of OnClosing, with its rounds.
unfoldable pub close_some : ℕ → Env → Gate → ℕ → Gate
close_some zero env g reason = g
close_some (suc rounds) env g reason =
    let g1 = remove_at env g g.last_closing_idx reason in
    let g2 = record g1 { last_closing_idx = g1.last_closing_idx + 1 } in
    let rest = close_some rounds env g2 reason in
    if ltb g.last_closing_idx (length g.conns) then rest else g

unfoldable pub on_closing : Env → Gate → ℕ → ℕ → ℤ × Gate
on_closing env g reason notifinum =
    let g1 = record g { closing = if g.closing == 0 then reason else g.closing } in
    let g2 = close_some notifinum env g1 reason in
    (if ltb g2.last_closing_idx (length g2.conns) then pos 0 else pos 1, g2)

-- The loop of the destructor, from the index `i` on.
unfoldable pub close_all : ℕ → ℕ → Env → Gate → Gate
close_all zero i env g = g
close_all (suc left) i env g = close_all left (suc i) env (remove_at env g i close_stop_svr)

-- ~GateServerHandler
unfoldable pub stop : Env → Gate → Gate
stop env g = close_all (length g.conns) 0 env g
