-- ===== src/Task.antt =====
-- rgtd/zone/logic/PlayerTaskLogic.cpp: a player's tasks in progress, and how an event moves them on.
-- The table of tasks is read by `find`; `none` in `mutable_doing` out of range cannot occur.
pub mod Checked
pub mod Progress
use playground.Prelude.{
  ℕ, zero, suc, ◌+◌, ◌-◌, ◌*◌, ◌/◌, ◌%◌, Bool, true, false, not, ◌&&◌, ◌||◌, List, [], ◌∷◌, ◌++◌,
  Option, none, some, ltb, leb, ◌==◌, if◌then◌else◌, length, get_elem?, set,
}
use playground.Prelude.Words.{ℤ, pos, minus_one, u32, is_zero_ℤ}
use playground.Repeated.{RepeatedField, take_out}
use playground.LogicCenter.{task_name}
use playground.Events.{Fired, event_player_task_done}

-- RoleOneTask. `cur` and `state` are optional: `none` reads as 0, and state 0 is DOING.
pub record RoleOneTask : Type 0 where
  pub id : ℕ
  pub cur : Option ℕ
  pub state : ℕ

-- TaskObj
pub record TaskObj : Type 0 where
  pub event : ℕ
  pub param : ℕ
  pub value : ℕ
  pub method : ℕ

abbrev pub task_state_doing : ℕ
task_state_doing = 0

abbrev pub task_state_done : ℕ
task_state_done = 1

abbrev pub value_of : Option ℕ → ℕ
value_of none = 0
value_of (some n) = n

-- The two assignments of `cur`, by the method of the task's configuration.
unfoldable pub advance : TaskObj → ℕ → RoleOneTask → RoleOneTask
advance obj value task =
    if obj.method == 0
    then record task { cur = some value }
    else if task.state == task_state_doing
    then record task { cur = some (u32 (value_of task.cur + value)) }
    else task

unfoldable pub finish : TaskObj → RoleOneTask → RoleOneTask
finish obj task =
    if (task.state == task_state_doing) && leb obj.value (value_of task.cur)
    then record task { state = task_state_done }
    else task

-- CheckOneTask, whose event code is not negative, with the configuration of the task's id; the
-- second component is what it returns.
unfoldable pub check_one_task : (ℕ → Option TaskObj) → ℕ → ℕ → RoleOneTask → RoleOneTask × ℤ
check_one_task find event param task = elim (find task.id) [
  | none ↦ (task, minus_one)
  | some obj ↦
      if (obj.event == event) && ((obj.param == 0) || (obj.param == u32 (param / 4294967296)))
      then (finish obj (advance obj (u32 param) task), pos 0)
      else (task, pos 0)
]

-- The event that a task which has just ended fires.
unfoldable pub done_event : RoleOneTask → RoleOneTask → List Fired
done_event old new =
    if (old.state == task_state_doing) && (new.state == task_state_done)
    then record { code = event_player_task_done; receiver = some task_name; param = new.id } ∷ []
    else []

module _ (field : RepeatedField RoleOneTask) where
  -- The loop of OnEvent from the index `i` on, with its rounds left; `none`: they ran out.
  unfoldable pub check_tasks :
      (ℕ → Option TaskObj)
      → ℕ
      → ℕ
      → ℕ
      → ℕ
      → List RoleOneTask
      → Option (List RoleOneTask × List Fired)
  check_tasks find event param zero i doing = none
  check_tasks find event param (suc rounds) i doing = elim (get_elem? doing i) [
    | none ↦ some (doing, [])
    | some task ↦
        let (new, ret) = check_one_task find event param task in
        let kept = check_tasks find event param rounds (suc i) (set doing i new) in
        let dropped = check_tasks find event param rounds i (take_out field (set doing i new) i) in
        if is_zero_ℤ ret
        then (elim kept [
          | none ↦ none
          | some (tasks, fired) ↦ some (tasks, done_event task new ++ fired)
        ])
        else dropped
  ]

  -- Each round ends with one task fewer to look at.
  unfoldable pub on_event :
      (ℕ → Option TaskObj) → ℕ → ℕ → List RoleOneTask → Option (List RoleOneTask × List Fired)
  on_event find event param doing = check_tasks find event param (suc (length doing)) 0 doing
