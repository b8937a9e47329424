-- ===== src/Tests/TimerTests.antt =====
-- The theorems of the timers, applied to a manager with two timers.
use playground.Prelude.{
  ℕ, ◌+◌, ◌%◌, ◌≡◌, refl, inr, List, [], ◌∷◌, none, some, arith, All, if◌then◌else◌, ◌==◌,
}
use playground.Prelude.Map.{lookup}
use playground.Timer.{TimerEvent, TimerMgr, Call, Request, add_timer, expired, insert_entry}
use playground.Timer.Sorted.{IsSorted, IsLater}
use playground.Timer.Expiry.{HasRoom, expired_lem}
use playground.Timer.Firing.{HasOwnIds, due_calls, silent, expired-due_calls, add_timer_lem}

abbrev event : ℕ → ℕ → TimerEvent
event id at = record { code = 9; param = id; callback = some 1; expires = at; timer_id = id }

-- At 50 ms, timer 1 is due and timer 2 is not.
abbrev pub two_timers : TimerMgr
two_timers = record {
  core = record {
    cur_ms = 50;
    events = (1, event 1 40) ∷ (2, event 2 60) ∷ [];
    listeners = [];
    next_id = 3;
  };
  timers = record { key = 40; id = 1 } ∷ record { key = 60; id = 2 } ∷ [];
}

pub two_timers-IsSorted : IsSorted two_timers.timers
two_timers-IsSorted = ((omega arith, tt), (tt, tt))

two_timers-HasOwnIds : HasOwnIds two_timers.timers
two_timers-HasOwnIds = ((λ e. omega (arith, e), tt), (tt, tt))

pub two_timers-HasRoom : HasRoom two_timers.core
two_timers-HasRoom = record { room = omega arith; word = omega arith }

-- Each callback starts its timer again, 5 ms later.
abbrev again : Call → List Request
again c = Request.add 5 c.code (some c.callee) c.param ∷ []

expired-due_calls_example :
    (n : TimerMgr) × (expired silent 2 two_timers
      ≡ some (n, due_calls two_timers.core two_timers.timers))
expired-due_calls_example =
    expired-due_calls 2 two_timers two_timers-IsSorted two_timers-HasOwnIds (omega arith)

expired_lem_example :
    (n : TimerMgr) × (calls : List Call) × (expired again 2 two_timers ≡ some (n, calls))
    × All (IsLater 50) n.timers
expired_lem_example =
    expired_lem again 2 two_timers two_timers-HasRoom two_timers-IsSorted
      (λ c. inr (inr (5, c.code, some c.callee, c.param, refl, omega arith, omega arith)))
      (omega arith)

add_timer_lem_example :
    (id : ℕ) × (n : TimerMgr) × (te : TimerEvent) × (add_timer two_timers 5 9 none 0 ≡ some (id, n))
    × (lookup id two_timers.events ≡ none)
    × ((j : ℕ) → lookup j n.events ≡ (if id == j then some te else lookup j two_timers.events))
    × (te.expires ≡ (50 + 5) % 18446744073709551616)
    × (n.timers ≡ insert_entry (record { key = te.expires; id = id }) two_timers.timers)
    × IsSorted n.timers
add_timer_lem_example = add_timer_lem two_timers 5 9 none 0 two_timers-HasRoom two_timers-IsSorted
