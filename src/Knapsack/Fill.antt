-- ===== src/Knapsack/Fill.antt =====
-- The first loop of PutItem of PlayerKnapsackLogic.cpp, which fills the grids of the same item.
use playground.Prelude.{ℕ, ◌+◌, ◌-◌, ◌<◌, ◌≡◌, ◌≢◌, List, [], ◌∷◌, refl, arith, length, All}
use playground.Knapsack.{Grid, fill_grid, fill_grids}
use playground.Knapsack.Held.{held, vacant, IsTiled, fill_grid_lem}
use playground.Knapsack.Tidy.{places, IsSettled}

abbrev pub Filled : ℕ → ℕ → List Grid → List Grid × ℕ → Type 0
Filled id num gs (gs', left) =
    (held id gs' + left ≡ held id gs + num)
    × (left ≡ num - vacant id gs)
    × All IsTiled gs'
    × (length gs' ≡ length gs)
    × (places gs' ≡ places gs)

pub fill_grids_lem :
    (id num : ℕ) (gs : List Grid)
    → All IsTiled gs
    → num < 2147483648
    → Filled id num gs (fill_grids id num gs)
unfolding fill_grids
fill_grids_lem id num [] t h = ground arith
fill_grids_lem id num (g ∷ gs) t h =
    ground (arith, fill_grid_lem id num g t.0, fill_grids_lem id (fill_grid id num g).1 gs t.1)

pub fill_grids_other :
    (id num j : ℕ) (gs : List Grid)
    → All IsTiled gs
    → num < 2147483648
    → j ≢ id
    → held j (fill_grids id num gs).0 ≡ held j gs
unfolding fill_grids fill_grid
fill_grids_other id num j [] t h ne = refl
fill_grids_other id num j (g ∷ gs) t h ne =
    ground (arith, fill_grids_other id (fill_grid id num g).1 j gs t.1, fill_grid_lem id num g t.0)

pub fill_grids-IsSettled :
    (id num m : ℕ) (gs : List Grid)
    → All IsTiled gs
    → num < 2147483648
    → All (IsSettled m) gs
    → All (IsSettled m) (fill_grids id num gs).0
unfolding fill_grids
fill_grids-IsSettled id num m [] t h s = tt
fill_grids-IsSettled id num m (g ∷ gs) t h s =
    let f = fill_grid_lem id num g t.0 h in
    (
      λ lt. omega (arith, s.0 (omega arith)),
      fill_grids-IsSettled id (fill_grid id num g).1 m gs t.1 (omega arith) s.1,
    )
