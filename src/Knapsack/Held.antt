-- ===== src/Knapsack/Held.antt =====
-- Two measures of a list of grids, independent of the loops of PlayerKnapsackLogic.cpp: how many
-- pieces of an item it holds, and how many more the grids of that item can take.
use playground.Prelude.{
  ℕ, ◌+◌, ◌-◌, ◌≤◌, ◌<◌, ◌≡◌, List, [], ◌∷◌, ◌++◌, refl, arith, if◌then◌else◌, ◌==◌, length, All,
}
use playground.Prelude.Words.{pos}
use playground.Knapsack.{Grid, max_tiled, sum_num, free_in, fill_grid}

abbrev pub held_in : ℕ → Grid → ℕ
held_in id g = if id == g.item.id then g.num else 0

abbrev pub held : ℕ → List Grid → ℕ
held id [] = 0
held id (g ∷ gs) = held_in id g + held id gs

abbrev pub vacant : ℕ → List Grid → ℕ
vacant id [] = 0
vacant id (g ∷ gs) = (if id == g.item.id then max_tiled - g.num else 0) + vacant id gs

-- A grid is not over its limit.
abbrev pub IsTiled : Grid → Type 0
IsTiled g = g.num ≤ max_tiled

pub held-append : (id : ℕ) (xs ys : List Grid) → held id (xs ++ ys) ≡ held id xs + held id ys
held-append id [] ys = omega arith
held-append id (g ∷ xs) ys = omega (arith, held-append id xs ys)

pub held-le-length : (id : ℕ) (gs : List Grid) → All IsTiled gs → held id gs ≤ length gs
held-le-length id [] t = omega arith
held-le-length id (g ∷ gs) t = ground (arith, held-le-length id gs t.1)

pub sum_num-eq-held :
    (id : ℕ) (gs : List Grid) → All IsTiled gs → length gs < 2147483648 → sum_num id gs ≡ held id gs
unfolding sum_num
sum_num-eq-held id [] t h = refl
sum_num-eq-held id (g ∷ gs) t h =
    ground (arith, sum_num-eq-held id gs t.1, held-le-length id gs t.1)

pub free_in-eq-vacant :
    (id : ℕ) (gs : List Grid) → All IsTiled gs → free_in id gs ≡ pos (vacant id gs)
unfolding free_in
free_in-eq-vacant id [] t = refl
free_in-eq-vacant id (g ∷ gs) t = ground (arith, free_in-eq-vacant id gs t.1)

pub fill_grid_lem :
    (id num : ℕ) (g : Grid)
    → IsTiled g
    → num < 2147483648
    → let (g', left) = fill_grid id num g in
      (held_in id g' + left ≡ held_in id g + num)
      × (left ≡ num - (if id == g.item.id then max_tiled - g.num else 0))
      × IsTiled g'
      × (g.num ≤ g'.num)
      × (g'.place ≡ g.place)
      × (g'.item ≡ g.item)
unfolding fill_grid
fill_grid_lem id num g t h = ground arith
