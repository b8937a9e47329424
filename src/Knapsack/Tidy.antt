-- ===== src/Knapsack/Tidy.antt =====
-- The state in which every operation of PlayerKnapsackLogic.cpp leaves a pack.
use playground.Prelude.{
  ℕ, ◌+◌, ◌≤◌, ◌<◌, ◌≡◌, false, List, [], ◌∷◌, ◌++◌, map, refl, arith, if◌then◌else◌, ◌==◌, length,
  All, Bool-cases, inl, inr,
}
use playground.Knapsack.{Grid, Package, occupied, on_init_birth_player}
use playground.Knapsack.Held.{IsTiled}

abbrev pub places : List Grid → List ℕ
places = map (λ g. g.place)

-- How often a position stands in the list.
abbrev pub times : ℕ → List ℕ → ℕ
times at [] = 0
times at (p ∷ ps) = (if p == at then 1 else 0) + times at ps

-- A position inside the pack is given at most once. One outside it may stand more often.
abbrev pub Apart : ℕ → List ℕ → Type 0
Apart m ps = (at : ℕ) → at < m → times at ps ≤ 1

-- A grid with a position inside the pack is not empty.
abbrev pub IsSettled : ℕ → Grid → Type 0
IsSettled m g = g.place < m → 0 < g.num

pub record IsTidy (p : Package) : Type 0 where
  pub tiled : All IsTiled p.grids
  pub settled : All (IsSettled p.max_grid) p.grids
  pub apart : Apart p.max_grid (places p.grids)
  pub fits : length p.grids ≤ p.max_grid
  pub small : p.max_grid < 2147483648

pub times-append : (at : ℕ) (ps qs : List ℕ) → times at (ps ++ qs) ≡ times at ps + times at qs
times-append at [] qs = omega arith
times-append at (p ∷ ps) qs = omega (arith, times-append at ps qs)

pub Apart-append :
    (m : ℕ) (ps : List ℕ) (q : ℕ) → Apart m ps → (q < m → times q ps ≡ 0) → Apart m (ps ++ q ∷ [])
Apart-append m ps q a new at lt = rw times-append (elim (Bool-cases (q == at)) [
  | inl e ↦ let eq : q ≡ at = ground arith in ground (arith, new (rw eq lt), a at lt)
  | inr e ↦ rw e (omega (arith, a at lt))
])

-- A position that no filled grid has is the position of no grid inside the pack.
pub times-occupied :
    (m at : ℕ) (gs : List Grid)
    → All (IsSettled m) gs
    → at < m
    → occupied at gs ≡ false
    → times at (places gs) ≡ 0
unfolding occupied
times-occupied m at [] s lt e = refl
times-occupied m at (g ∷ gs) s lt e = ground (arith, s.0, times-occupied m at gs s.1 lt)

-- The pack of a new player with no grids is tidy.
pub on_init_birth_player-IsTidy : (p : Package) → p.grids ≡ [] → IsTidy (on_init_birth_player p)
unfolding on_init_birth_player
on_init_birth_player-IsTidy p e = rw e (ground arith)
