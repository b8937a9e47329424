-- ===== src/Task/Checked.antt =====
-- The loop of PlayerTaskLogic::OnEvent, against a plain pass over the tasks.
use mathlib.Core.List.{Perm, append_assoc, append-nil, perm_append_comm}
use mathlib.Core.List.Perm
use mathlib.Core.Path.{subst}
use playground.Prelude.{
  ℕ, zero, suc, ◌<◌, ◌≡◌, refl, sym, ap, ◌∙◌, ◌⊎◌, inl, inr, List, [], ◌∷◌, ◌++◌, Option, none,
  some, arith, length, get_elem?, set, length-append, get_elem?-append, snoc-cases, Option-cases,
}
use playground.Prelude.Words.{pos, minus_one}
use playground.Repeated.{RepeatedField, take_out}
use playground.Repeated.TakeOut.{take_out-last, take_out-inner}
use playground.Events.{Fired}
use playground.Task.{RoleOneTask, TaskObj, check_one_task, done_event, check_tasks, on_event}

module _ (find : ℕ → Option TaskObj) (event param : ℕ) where
  -- A task with a configuration is checked once, any other is dropped.
  abbrev pub kept : RoleOneTask → List RoleOneTask
  kept t = elim (find t.id) [ none ↦ [] | some _ ↦ (check_one_task find event param t).0 ∷ [] ]

  abbrev pub checked : List RoleOneTask → List RoleOneTask
  checked [] = []
  checked (t ∷ ts) = kept t ++ checked ts

  -- The events of the tasks that end.
  abbrev pub told : RoleOneTask → List Fired
  told t = elim (find t.id) [
    | none ↦ []
    | some _ ↦ done_event t (check_one_task find event param t).0
  ]

  abbrev pub ended : List RoleOneTask → List Fired
  ended [] = []
  ended (t ∷ ts) = told t ++ ended ts

  check_one_task-cases :
      (t : RoleOneTask)
      → ((find t.id ≡ none) × (check_one_task find event param t ≡ (t, minus_one)))
        ⊎ ((obj : TaskObj) × (find t.id ≡ some obj)
            × ((check_one_task find event param t).1 ≡ pos 0))
  unfolding check_one_task
  check_one_task-cases t = elim (Option-cases (find t.id)) [
    | inl e ↦ inl (e, rw (e, check_one_task) refl)
    | inr (obj, e) ↦ inr (obj, e, rw (e, check_one_task) (ground arith))
  ]

  checked-append : (xs ys : List RoleOneTask) → checked (xs ++ ys) ≡ checked xs ++ checked ys
  checked-append [] ys = refl
  checked-append (x ∷ xs) ys =
      ap (◌++◌ (kept x)) (checked-append xs ys)
      ∙ sym (append_assoc (kept x) (checked xs) (checked ys))

  ended-append : (xs ys : List RoleOneTask) → ended (xs ++ ys) ≡ ended xs ++ ended ys
  ended-append [] ys = refl
  ended-append (x ∷ xs) ys =
      ap (◌++◌ (told x)) (ended-append xs ys) ∙ sym (append_assoc (told x) (ended xs) (ended ys))

set-middle :
    {A : Type 0} (xs : List A) (a : A) (ys : List A) (b : A)
    → set (xs ++ a ∷ ys) (length xs) b ≡ xs ++ b ∷ ys
set-middle [] a ys b = refl
set-middle (x ∷ xs) a ys b = ap (◌∷◌ x) (set-middle xs a ys b)

get_elem?-end : {A : Type 0} (xs : List A) → get_elem? (xs ++ []) (length xs) ≡ none
get_elem?-end [] = refl
get_elem?-end (x ∷ xs) = get_elem?-end xs

module _ (field : RepeatedField RoleOneTask) (find : ℕ → Option TaskObj) (event param : ℕ) where
  -- What the loop comes to, where `pre` is done and `rest` is ahead.
  abbrev Comes : ℕ → List RoleOneTask → List RoleOneTask → List RoleOneTask → Type 0
  Comes rounds doing pre rest =
      (tasks : List RoleOneTask) × (fired : List Fired) × (check_tasks field find event param rounds
          (length pre) doing
        ≡ some (tasks, fired))
      × Perm tasks (pre ++ checked find event param rest)
      × Perm fired (ended find event param rest)

  round_end : (rounds : ℕ) (pre : List RoleOneTask) → Comes (suc rounds) (pre ++ []) pre []
  unfolding check_tasks
  round_end rounds pre =
      (pre ++ [], [], rw (get_elem?-end pre, check_tasks) refl, Perm.refl (pre ++ []), Perm.refl [])

  round_kept :
      (rounds : ℕ) (pre : List RoleOneTask) (t : RoleOneTask) (ts : List RoleOneTask)
      (obj : TaskObj)
      → find t.id ≡ some obj
      → (check_one_task find event param t).1 ≡ pos 0
      → (let new = (check_one_task find event param t).0 in
          Comes rounds ((pre ++ new ∷ []) ++ ts) (pre ++ new ∷ []) ts)
      → Comes (suc rounds) (pre ++ t ∷ ts) pre (t ∷ ts)
  unfolding check_tasks
  round_kept rounds pre t ts obj e r (tasks, fired, found, p, q) =
      let new = (check_one_task find event param t).0 in
      let len : length (pre ++ new ∷ []) ≡ suc (length pre) =
        omega (arith, length-append pre (new ∷ [])) in
      let same : set (pre ++ t ∷ ts) (length pre) new ≡ (pre ++ new ∷ []) ++ ts =
        set-middle pre t ts new ∙ sym (append_assoc pre (new ∷ []) ts) in
      let more : check_tasks field find event param rounds (suc (length pre))
            (set (pre ++ t ∷ ts) (length pre) new)
          ≡ some (tasks, fired) =
        ap (λ k. check_tasks field find event param rounds k (set (pre ++ t ∷ ts) (length pre) new))
          (sym len)
        ∙ ap (check_tasks field find event param rounds (length (pre ++ new ∷ []))) same
        ∙ found in
      let one : kept find event param t ≡ new ∷ [] = rw (e, kept) refl in
      let said : told find event param t ≡ done_event t new = rw (e, told) refl in
      (
        tasks,
        done_event t new ++ fired,
        rw (get_elem?-append pre t ts, check_tasks, r, more) refl,
        subst (Perm tasks)
            (append_assoc pre (new ∷ []) _
              ∙ ap (λ k. pre ++ (k ++ checked find event param ts)) (sym one))
            p,
        subst (λ k. Perm (done_event t new ++ fired) (k ++ ended find event param ts)) (sym said)
            (Perm.append_left (done_event t new) q),
      )

  round_dropped :
      (rounds : ℕ) (pre : List RoleOneTask) (t : RoleOneTask) (ts ts' : List RoleOneTask)
      → find t.id ≡ none
      → check_one_task find event param t ≡ (t, minus_one)
      → take_out field (pre ++ t ∷ ts) (length pre) ≡ pre ++ ts'
      → Perm (checked find event param ts') (checked find event param ts)
      → Perm (ended find event param ts') (ended find event param ts)
      → Comes rounds (pre ++ ts') pre ts'
      → Comes (suc rounds) (pre ++ t ∷ ts) pre (t ∷ ts)
  unfolding check_tasks
  round_dropped rounds pre t ts ts' e r out pc pe (tasks, fired, found, p, q) =
      let more : check_tasks field find event param rounds (length pre)
            (take_out field (set (pre ++ t ∷ ts) (length pre) t) (length pre))
          ≡ some (tasks, fired) =
        ap
          (λ xs.
            check_tasks field find event param rounds (length pre) (take_out field xs (length pre)))
          (set-middle pre t ts t)
        ∙ ap (check_tasks field find event param rounds (length pre)) out
        ∙ found in
      let none_kept : kept find event param t ≡ [] = rw (e, kept) refl in
      let none_said : told find event param t ≡ [] = rw (e, told) refl in
      (
        tasks,
        fired,
        rw (get_elem?-append pre t ts, check_tasks, r, more) refl,
        subst (λ k. Perm tasks (pre ++ (k ++ checked find event param ts))) (sym none_kept)
            (Perm.trans p (Perm.append_left pre pc)),
        subst (λ k. Perm fired (k ++ ended find event param ts)) (sym none_said) (Perm.trans q pe),
      )

  -- The last task comes forward.
  checked_rotated :
      (mid : List RoleOneTask) (z : RoleOneTask)
      → Perm (checked find event param (z ∷ mid)) (checked find event param (mid ++ z ∷ []))
  checked_rotated mid z =
      let F = checked find event param in
      let one = kept find event param z in
      subst (Perm (one ++ F mid))
        (sym (checked-append find event param mid (z ∷ []) ∙ ap (◌++◌ (F mid)) (append-nil one)))
        (perm_append_comm one (F mid))

  ended_rotated :
      (mid : List RoleOneTask) (z : RoleOneTask)
      → Perm (ended find event param (z ∷ mid)) (ended find event param (mid ++ z ∷ []))
  ended_rotated mid z =
      let F = ended find event param in
      let one = told find event param z in
      subst (Perm (one ++ F mid))
        (sym (ended-append find event param mid (z ∷ []) ∙ ap (◌++◌ (F mid)) (append-nil one)))
        (perm_append_comm one (F mid))

  check_tasks_lem :
      (rounds : ℕ) (pre rest : List RoleOneTask)
      → length rest < rounds
      → Comes rounds (pre ++ rest) pre rest
  check_tasks_lem zero pre rest lt = absurd (omega arith)
  check_tasks_lem (suc rounds) pre [] lt = round_end rounds pre
  check_tasks_lem (suc rounds) pre (t ∷ []) lt = elim (check_one_task-cases find event param t) [
    | inr (obj, e, r) ↦ round_kept rounds pre t [] obj e r (
        check_tasks_lem rounds (pre ++ (check_one_task find event param t).0 ∷ []) [] (omega arith))
    | inl (e, r) ↦
        round_dropped rounds pre t [] [] e r (take_out-last field pre t ∙ sym (append-nil pre))
          (Perm.refl []) (Perm.refl []) (check_tasks_lem rounds pre [] (omega arith))
  ]
  check_tasks_lem (suc rounds) pre (t ∷ x ∷ xs) lt =
      elim (check_one_task-cases find event param t) [
        | inr (obj, e, r) ↦ round_kept rounds pre t (x ∷ xs) obj e r (
            check_tasks_lem rounds (pre ++ (check_one_task find event param t).0 ∷ []) (x ∷ xs)
              (omega arith))
        | inl (e, r) ↦
            let (mid, z, eq) = snoc-cases x xs in
            let size : length (x ∷ xs) ≡ suc (length mid) =
              ap length eq ∙ omega (arith, length-append mid (z ∷ [])) in
            round_dropped rounds pre t (x ∷ xs) (z ∷ mid) e r
              (ap (λ ys. take_out field (pre ++ t ∷ ys) (length pre)) eq
                ∙ take_out-inner field pre t mid z)
              (subst (λ ys. Perm (checked find event param (z ∷ mid)) (checked find event param ys))
                (sym eq) (checked_rotated mid z))
              (subst (λ ys. Perm (ended find event param (z ∷ mid)) (ended find event param ys))
                (sym eq) (ended_rotated mid z))
              (check_tasks_lem rounds pre (z ∷ mid) (omega (arith, size)))
      ]

  -- OnEvent ends within its rounds. The tasks that it leaves are, up to their order, the old ones
  -- that the table of tasks knows, each checked once by CheckOneTask, and the events that it fires
  -- are, up to their order, those of the known tasks that this check ends.
  pub on_event_lem :
      (doing : List RoleOneTask)
      → (tasks : List RoleOneTask) × (fired : List Fired) × (on_event field find event param doing
          ≡ some (tasks, fired))
        × Perm tasks (checked find event param doing)
        × Perm fired (ended find event param doing)
  unfolding on_event
  on_event_lem doing = check_tasks_lem (suc (length doing)) [] doing (omega arith)
