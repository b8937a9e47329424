-- ===== src/Tests/LogicTests.antt =====
-- The theorem of the logic centre, applied to the three logics of a player.
use playground.Prelude.{ℕ, ◌≡◌, ◌≢◌, ◌⊎◌, refl, List, [], ◌∷◌, some, none}
use mathlib.Core.List.{Perm}
use playground.Prelude.Words.{pos, minus_one}
use playground.Prelude.Strings.{same}
use playground.LogicCenter.{
  LogicMap, before, find, place, register, notify_event, init_logic, task_name, autosync_name,
  knapsack_name,
}
use playground.LogicCenter.Registered.{Sorted, register_lem}

abbrev three : LogicMap
three = (autosync_name, 2) ∷ (knapsack_name, 3) ∷ (task_name, 1) ∷ []

three-init_logic : init_logic 1 2 3 ≡ three
unfolding init_logic register place find same before
three-init_logic = refl

three-Sorted : Sorted three
unfolding before
three-Sorted = ((refl, (refl, tt)), ((refl, tt), (tt, tt)))

register_lem_example :
    ((find three (97 ∷ []) ≢ none) × (register three (97 ∷ []) 4 ≡ (minus_one, three)))
    ⊎ ((find three (97 ∷ []) ≡ none)
        × (m' : LogicMap) × (register three (97 ∷ []) 4 ≡ (pos 0, m'))
        × Sorted m'
        × (notify_event m' (some (97 ∷ [])) ≡ 4 ∷ [])
        × ((other : List ℕ)
            → other ≢ 97 ∷ []
            → notify_event m' (some other) ≡ notify_event three (some other))
        × Perm (notify_event m' none) (4 ∷ notify_event three none))
register_lem_example = register_lem three (97 ∷ []) 4 three-Sorted
