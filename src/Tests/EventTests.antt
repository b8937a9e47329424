-- ===== src/Tests/EventTests.antt =====
-- The theorems of the event centre, applied to a centre with one delayed event.
use playground.Prelude.{
  ◌⊎◌, ℕ, ◌≡◌, refl, [], ◌∷◌, Option, none, some, arith, false, if◌then◌else◌, ◌==◌,
}
use playground.Prelude.Map.{lookup}
use playground.Events.{event_player_task_done, event_player_sync_db}
use playground.EventCenter.{EventCenter, DelayEventParam, Notice, fire_event, on_timer}
use playground.LogicCenter.{autosync_name}
use playground.AutoSync.{AutoSync, on_attach}
use playground.AutoSync.Lost.{on_attach_lost}
use playground.EventCenter.Delays.{IsDelayed, fire_event-IsDelayed}
use playground.Tests.TimerTests.{two_timers, two_timers-IsSorted, two_timers-HasRoom}

-- Player 9 is online, and its agent is 90.
abbrev online : ℕ → Option ℕ
online uid = if uid == 9 then some 90 else none

abbrev quiet : Notice → EventCenter → Option EventCenter
quiet n c = some c

abbrev delayed : DelayEventParam
delayed = record { event = event_player_task_done; param = 9; receiver = 116 ∷ []; arg = 0 }

-- One event is delayed, under the sequence number 1.
abbrev center : EventCenter
center = record {
  players = (9, 90) ∷ [];
  params = (1, delayed) ∷ [];
  next_seq = 2;
  timers = two_timers;
}

fire_event-IsDelayed_example :
    (id : ℕ) × (seq : ℕ) × (c' : EventCenter) × (fire_event online quiet center
        event_player_task_done
        (some (116 ∷ []))
        5
        9
        0
        false
      ≡ some (id, c'))
    × IsDelayed center c' 90 5 seq id delayed
fire_event-IsDelayed_example =
    fire_event-IsDelayed online quiet center event_player_task_done 90 (116 ∷ []) 5 9 0
      two_timers-HasRoom two_timers-IsSorted (omega arith) (omega arith) refl (omega arith)
      (omega arith)

stored : lookup 1 center.params ≡ some delayed
unfolding lookup
stored = refl

no_code : lookup event_player_task_done center.params ≡ none
unfolding lookup
no_code = refl

no_zero : lookup 0 center.players ≡ none
unfolding lookup
no_zero = refl

-- Player 9 has just come.
abbrev saver : AutoSync
saver = record { uid = 9; timer_id = 0; dirty = 0; updates = 0 }

no_sync : lookup event_player_sync_db center.params ≡ none
unfolding lookup
no_sync = refl

on_attach_lost_example :
    (s' : AutoSync) × (c' : EventCenter) × (seq : ℕ) × (on_attach online quiet center saver
      ≡ some (s', c'))
    × (lookup seq c'.params
        ≡ some
            (record { event = event_player_sync_db; param = 9; receiver = autosync_name; arg = 0 }))
    × ((seq ≡ event_player_sync_db)
        ⊎ ((c'' : EventCenter) × (on_timer online quiet c' event_player_sync_db seq ≡ some c'')
            × ((k : ℕ) → lookup k c''.params ≡ lookup k c'.params)))
on_attach_lost_example =
    on_attach_lost online quiet center saver 90 two_timers-HasRoom two_timers-IsSorted refl
      (λ e. omega (arith, e)) no_sync refl no_zero
