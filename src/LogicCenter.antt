-- ===== src/LogicCenter.antt =====
-- rgtd/zone/logic/PlayerLogicCenter.cpp: the logics of a player by name, and what is passed on to
-- them. The state is the `std::map` from names to logics, a list sorted by name; a name is the bytes
-- of a string, and a logic is a number.
pub mod Registered
use playground.Prelude.{
  ℕ, Bool, true, false, ◌&&◌, List, [], ◌∷◌, ◌++◌, Option, none, some, ltb, ◌==◌, if◌then◌else◌,
  map,
}
use playground.Prelude.Strings.{same}
use playground.Prelude.Words.{ℤ, pos, minus_one}

abbrev pub LogicMap : Type 0
LogicMap = List (List ℕ × ℕ)

-- operator< of strings.
unfoldable pub before : List ℕ → List ℕ → Bool
before [] [] = false
before [] (y ∷ b) = true
before (x ∷ a) [] = false
before (x ∷ a) (y ∷ b) = if x == y then before a b else ltb x y

unfoldable pub find : LogicMap → List ℕ → Option ℕ
find [] name = none
find ((k, logic) ∷ m) name = if same k name then some logic else find m name

-- `m[name] = logic` for a name that is not in the map.
unfoldable pub place : List ℕ → ℕ → LogicMap → LogicMap
place name logic [] = (name, logic) ∷ []
place name logic ((k, l) ∷ m) =
    let rest = place name logic m in
    if before name k then (name, logic) ∷ (k, l) ∷ m else (k, l) ∷ rest

unfoldable pub register : LogicMap → List ℕ → ℕ → ℤ × LogicMap
register m name logic = elim (find m name) [
  | some _ ↦ (minus_one, m)
  | none ↦ (pos 0, place name logic m)
]

-- PLAYER_LOGIC_CENTER_VISIT_ALL: the logics that are visited, in order.
abbrev pub visit_all : LogicMap → List ℕ
visit_all m = map (λ e. e.1) m

-- The logics whose OnEvent NotifyEvent calls, in order; `none` is NULL.
unfoldable pub notify_event : LogicMap → Option (List ℕ) → List ℕ
notify_event m none = visit_all m
notify_event m (some name) = elim (find m name) [ none ↦ [] | some logic ↦ logic ∷ [] ]

-- The names that the constructors of the three logics give: "task", "autosync" and "knapsack".
abbrev pub task_name : List ℕ
task_name = 116 ∷ 97 ∷ 115 ∷ 107 ∷ []

abbrev pub autosync_name : List ℕ
autosync_name = 97 ∷ 117 ∷ 116 ∷ 111 ∷ 115 ∷ 121 ∷ 110 ∷ 99 ∷ []

abbrev pub knapsack_name : List ℕ
knapsack_name = 107 ∷ 110 ∷ 97 ∷ 112 ∷ 115 ∷ 97 ∷ 99 ∷ 107 ∷ []

-- InitLogic, with the three new logics.
unfoldable pub init_logic : ℕ → ℕ → ℕ → LogicMap
init_logic task autosync knapsack =
    let m1 = (register [] task_name task).1 in
    let m2 = (register m1 autosync_name autosync).1 in (register m2 knapsack_name knapsack).1
