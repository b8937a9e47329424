-- ===== src/Tests/TaskTests.antt =====
-- The theorems of the tasks, applied to two tasks of which one is unknown to the table.
use playground.Prelude.{
  ℕ, ◌≡◌, refl, List, [], ◌∷◌, Option, none, some, arith, All, if◌then◌else◌, ◌==◌,
}
use mathlib.Core.List.{Perm}
use playground.Events.{Fired, event_player_item_add}
use playground.Task.{RoleOneTask, TaskObj, value_of, check_one_task, on_event}
use playground.Task.Checked.{checked, ended, on_event_lem}
use playground.Task.Progress.{put_item-check_one_task}
use playground.Tests.Fields.{list_field}
use playground.Tests.KnapsackTests.{two_swords, sword, put_two, put_two-result}

-- Task 5 asks for three swords, counted one event after the other.
abbrev swords : TaskObj
swords = record { event = event_player_item_add; param = 7; value = 3; method = 1 }

abbrev table : ℕ → Option TaskObj
table n = if n == 5 then some swords else none

abbrev counting : RoleOneTask
counting = record { id = 5; cur = some 2; state = 0 }

abbrev unknown : RoleOneTask
unknown = record { id = 6; cur = none; state = 0 }

on_event_lem_example :
    (tasks : List RoleOneTask) × (fired : List Fired) × (on_event
        (list_field RoleOneTask)
        table
        event_player_item_add
        30064771073
        (unknown ∷ counting ∷ [])
      ≡ some (tasks, fired))
    × Perm tasks (checked table event_player_item_add 30064771073 (unknown ∷ counting ∷ []))
    × Perm fired (ended table event_player_item_add 30064771073 (unknown ∷ counting ∷ []))
on_event_lem_example =
    on_event_lem (list_field RoleOneTask) table event_player_item_add 30064771073
      (unknown ∷ counting ∷ [])

put_item-check_one_task_example :
    All (λ f. value_of (check_one_task table f.code f.param counting).0.cur ≡ 2) put_two.fired
put_item-check_one_task_example =
    put_item-check_one_task two_swords sword 2 put_two table counting swords put_two-result refl
      refl (λ e. cc e) (omega arith)
