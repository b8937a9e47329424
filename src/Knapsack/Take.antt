-- ===== src/Knapsack/Take.antt =====
-- The first loop of RemoveItem of PlayerKnapsackLogic.cpp, which takes pieces out of the grids and
-- notes the positions of the grids that it empties.
use playground.Prelude.{
  ℕ, ◌+◌, ◌-◌, ◌<◌, ◌≡◌, ◌≢◌, ◌⊎◌, inl, inr, List, [], ◌∷◌, ◌++◌, refl, arith, ◌==◌, length, All,
  Bool-cases,
}
use playground.Knapsack.{Grid, take_grid, take_grids}
use playground.Knapsack.Held.{held, held_in, IsTiled}
use playground.Knapsack.Tidy.{places, times}

abbrev pub Stands : ℕ → List ℕ → Type 0
Stands at [] = ⊥
Stands at (p ∷ ps) = (at ≡ p) ⊎ Stands at ps

pub Stands-append_left : (at : ℕ) (ps qs : List ℕ) → Stands at ps → Stands at (ps ++ qs)
Stands-append_left at [] qs h = absurd h
Stands-append_left at (p ∷ ps) qs (inl e) = inl e
Stands-append_left at (p ∷ ps) qs (inr h) = inr (Stands-append_left at ps qs h)

pub Stands-append_right : (at : ℕ) (ps qs : List ℕ) → Stands at qs → Stands at (ps ++ qs)
Stands-append_right at [] qs h = h
Stands-append_right at (p ∷ ps) qs h = inr (Stands-append_right at ps qs h)

pub Stands-append : (at : ℕ) (ps qs : List ℕ) → Stands at (ps ++ qs) → Stands at ps ⊎ Stands at qs
Stands-append at [] qs h = inr h
Stands-append at (p ∷ ps) qs (inl e) = inl (inl e)
Stands-append at (p ∷ ps) qs (inr h) = elim (Stands-append at ps qs h) [
  | inl a ↦ inl (inr a)
  | inr b ↦ inr b
]

pub Stands-times : (at : ℕ) (ps : List ℕ) → Stands at ps → 0 < times at ps
Stands-times at [] h = absurd h
Stands-times at (p ∷ ps) (inl e) = ground arith
Stands-times at (p ∷ ps) (inr h) = omega (arith, Stands-times at ps h)

-- What one grid looks like after its round: taken from, and noted exactly if it was emptied.
pub take_grid_lem :
    (id num : ℕ) (g : Grid)
    → IsTiled g
    → 0 < num
    → num < 2147483648
    → let (g', left, gone) = take_grid id num g in
      (held_in id g' + num ≡ held_in id g + left)
      × (left ≡ num - held_in id g)
      × IsTiled g'
      × (g'.place ≡ g.place)
      × (g'.item ≡ g.item)
      × (((gone ≡ []) × (g'.num ≡ g.num)) ⊎ ((gone ≡ g.place ∷ []) × (g'.num ≡ 0)))
unfolding take_grid
take_grid_lem id num g t lo hi = ground arith

abbrev pub Taken : ℕ → ℕ → List Grid → List Grid × ℕ × List ℕ → Type 0
Taken id num gs (gs', left, gone) =
    (held id gs' + num ≡ held id gs + left)
    × (left ≡ num - held id gs)
    × All IsTiled gs'
    × (length gs' ≡ length gs)
    × (places gs' ≡ places gs)

pub take_grids_lem :
    (id num : ℕ) (gs : List Grid)
    → All IsTiled gs
    → num < 2147483648
    → Taken id num gs (take_grids id num gs)
unfolding take_grids
take_grids_lem id num [] t h = ground arith
take_grids_lem id num (g ∷ gs) t h = elim (Bool-cases (num == 0)) [
  | inl done ↦ rw done (ground arith)
  | inr more ↦
      rw more (
        ground (arith, take_grid_lem id num g t.0, take_grids_lem id (take_grid id num g).1 gs t.1))
]

pub take_grids_other :
    (id num j : ℕ) (gs : List Grid)
    → All IsTiled gs
    → num < 2147483648
    → j ≢ id
    → held j (take_grids id num gs).0 ≡ held j gs
unfolding take_grids take_grid
take_grids_other id num j [] t h ne = refl
take_grids_other id num j (g ∷ gs) t h ne = elim (Bool-cases (num == 0)) [
  | inl done ↦ rw done (ground arith)
  | inr more ↦ rw more (
      ground
        (arith, take_grids_other id (take_grid id num g).1 j gs t.1, take_grid_lem id num g t.0))
]
