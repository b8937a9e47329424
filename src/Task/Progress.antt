-- ===== src/Task/Progress.antt =====
-- What the events of a player's pack (PlayerKnapsackLogic.cpp) do to a task (PlayerTaskLogic.cpp).
use playground.Prelude.{
  ℕ, ◌*◌, ◌/◌, ◌<◌, ◌≡◌, ◌≢◌, refl, ap, ◌∙◌, sym, inl, inr, ◌&&◌, ◌||◌, Option, some, arith, All,
  ◌==◌, Bool-cases,
}
use mathlib.Core.Path.{subst}
use playground.Prelude.Words.{pos, u32}
use playground.Events.{event_player_item_add}
use playground.Knapsack.{Item, Package, Outcome, put_item}
use playground.Knapsack.Put.{put_item-fired}
use playground.Task.{RoleOneTask, TaskObj, value_of, advance, finish, check_one_task}

finish-cur : (obj : TaskObj) (t : RoleOneTask) → (finish obj t).cur ≡ t.cur
unfolding finish
finish-cur obj t = ground arith

advance_zero :
    (obj : TaskObj) (t : RoleOneTask)
    → obj.method ≢ 0
    → value_of t.cur < 4294967296
    → value_of (advance obj 0 t).cur ≡ value_of t.cur
unfolding advance
advance_zero obj t m h = ground arith

check_one_task_zero :
    (find : ℕ → Option TaskObj) (event param : ℕ) (t : RoleOneTask) (obj : TaskObj)
    → find t.id ≡ some obj
    → obj.method ≢ 0
    → value_of t.cur < 4294967296
    → u32 param ≡ 0
    → value_of (check_one_task find event param t).0.cur ≡ value_of t.cur
unfolding check_one_task
check_one_task_zero find event param t obj e m h z =
    elim (Bool-cases
      ((obj.event == event) && ((obj.param == 0) || (obj.param == u32 (param / 4294967296))))) [
        | inr miss ↦ rw (e, check_one_task, miss) refl
        | inl hit ↦
            rw (e, check_one_task, hit, z)
              (ap value_of (finish-cur obj (advance obj 0 t)) ∙ advance_zero obj t m h)
      ]

-- A task whose method is to count, and whose count is below 2 ^ 32, has the same count after every
-- event that a PutItem with the result 0 fires.
pub put_item-check_one_task :
    (p : Package) (item : Item) (num : ℕ) (o : Outcome) (find : ℕ → Option TaskObj)
    (t : RoleOneTask) (obj : TaskObj)
    → put_item p item num ≡ some o
    → o.ret ≡ pos 0
    → find t.id ≡ some obj
    → obj.method ≢ 0
    → value_of t.cur < 4294967296
    → All (λ f. value_of (check_one_task find f.code f.param t).0.cur ≡ value_of t.cur) o.fired
put_item-check_one_task p item num o find t obj e r f m h =
    subst (All (λ f. value_of (check_one_task find f.code f.param t).0.cur ≡ value_of t.cur))
      (sym (put_item-fired p item num o e r))
      (
        check_one_task_zero find event_player_item_add (item.id * 4294967296) t obj f m h
            (omega arith),
        tt,
      )
