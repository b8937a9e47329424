-- ===== src/Knapsack/Place.antt =====
-- GetFreeGridPos of PlayerKnapsackLogic.cpp, and the grid that is added at the position it finds.
use playground.Prelude.{
  ℕ, zero, suc, ◌+◌, ◌≤◌, ◌<◌, ◌≡◌, ◌⊎◌, inl, inr, true, false, List, [], ◌∷◌, ◌++◌, refl, arith,
  ap, if◌then◌else◌, ◌==◌, length, All, All-append, length-append, Bool-cases, dec_lt,
}
use playground.Prelude.Words.{pos, minus_one, to_u32}
use playground.Knapsack.{
  Item, Grid, Package, occupied, add_grid, is_grid_fill, is_taken, free_from, get_free_grid_pos,
  create_item,
}
use playground.Knapsack.Held.{held, IsTiled, held-append}
use playground.Knapsack.Tidy.{places, IsSettled, IsTidy, Apart-append, times-occupied, times}

-- The loop stops at the first position that is not taken, or where its rounds end.
free_from_lem :
    (rounds at : ℕ) (p : Package)
    → let r = free_from rounds at p in
      (at ≤ r)
      × ((k : ℕ) → at ≤ k → k < r → is_taken p k ≡ true)
      × ((r ≡ at + rounds) ⊎ (is_taken p r ≡ false))
unfolding free_from
free_from_lem zero at p = (omega arith, λ k lo hi. absurd (omega arith), inl (omega arith))
free_from_lem (suc rounds) at p = elim (Bool-cases (is_taken p at)) [
  | inr e ↦ rw e (omega arith, λ k lo hi. absurd (omega arith), inr e)
  | inl e ↦ rw e (
      let (lo, passed, stop) = free_from_lem rounds (suc at) p in
      (
        omega arith,
        λ k from to. elim (dec_lt at k) [
          | yes above ↦ passed k above to
          | no here ↦ let eq : k ≡ at = omega arith in rw eq e
        ],
        elim stop [ inl x ↦ inl (omega arith) | inr y ↦ inr y ],
      ))
]

-- For a pack size below 2 ^ 31, GetFreeGridPos answers -1, and every position from 1 to the end of
-- the pack is filled, or it answers the first position from 1 that is inside the pack and not
-- filled.
pub get_free_grid_pos_lem :
    (p : Package)
    → p.max_grid < 2147483648
    → ((get_free_grid_pos p ≡ minus_one)
        × ((k : ℕ) → 1 ≤ k → k < p.max_grid → is_grid_fill p k ≡ true))
      ⊎ ((at : ℕ) × (get_free_grid_pos p ≡ pos at)
          × (1 ≤ at)
          × (at < p.max_grid)
          × (is_grid_fill p at ≡ false)
          × ((k : ℕ) → 1 ≤ k → k < at → is_grid_fill p k ≡ true))
unfolding get_free_grid_pos is_taken
get_free_grid_pos_lem p h =
    let (lo, passed, stop) = free_from_lem p.max_grid 1 p in
    elim (dec_lt (free_from p.max_grid 1 p) p.max_grid) [
      | yes lt ↦ inr (
        free_from p.max_grid 1 p,
        ground arith,
        lo,
        lt,
        ground arith,
        λ k one below. ground (arith, passed k one below),
      )
      | no ge ↦ inl (ground arith, λ k one below. ground (arith, passed k one (omega arith)))
    ]

occupied-append_empty :
    (at : ℕ) (gs : List Grid) (g : Grid) → g.num ≡ 0 → occupied at (gs ++ g ∷ []) ≡ occupied at gs
unfolding occupied
occupied-append_empty at [] g e = ground arith
occupied-append_empty at (h ∷ gs) g e = ground (arith, occupied-append_empty at gs g e)

places-append : (xs : List Grid) (g : Grid) → places (xs ++ g ∷ []) ≡ places xs ++ g.place ∷ []
places-append [] g = refl
places-append (x ∷ xs) g = ap (◌∷◌ x.place) (places-append xs g)

-- The position that a new grid gets is outside the pack, or no grid has it.
place_is_new :
    (q : Package) (new : Grid)
    → new.num ≡ 0
    → All (IsSettled q.max_grid) q.grids
    → q.max_grid < 2147483648
    → let at = to_u32 (get_free_grid_pos (record q { grids = q.grids ++ new ∷ [] })) in
      at < q.max_grid → times at (places q.grids) ≡ 0
unfolding is_grid_fill
place_is_new q new z s h =
    elim (get_free_grid_pos_lem (record q { grids = q.grids ++ new ∷ [] }) h) [
      | inl (e, _) ↦ rw e (λ lt. absurd (omega arith))
      | inr (at, e, _, below, free, _) ↦
          let same : to_u32 (pos at) ≡ at = omega arith in
          rw (e, same)
            (λ lt.
              times-occupied q.max_grid at q.grids s lt
                (ground (arith, occupied-append_empty at q.grids new z)))
    ]

-- A grid with one piece is added: the item's count grows by one, and the pack stays tidy.
pub record Added (item : Item) (n : ℕ) (p q : Package) : Type 0 where
  pub counts : (j : ℕ) → held j q.grids ≡ held j p.grids + (if j == item.id then n else 0)
  pub longer : length q.grids ≡ length p.grids + n
  pub same_max : q.max_grid ≡ p.max_grid
  pub tidy : IsTidy q

pub add_grid-Added :
    (item : Item) (p : Package)
    → IsTidy p
    → length p.grids < p.max_grid
    → Added item 1 p (add_grid item 1 p)
unfolding add_grid create_item
add_grid-Added item p t h = record {
  counts = λ j. rw held-append (omega arith);
  longer = length-append p.grids _;
  same_max = refl;
  tidy = record {
    tiled = All-append IsTiled p.grids _ t.tiled (omega arith, tt);
    settled = All-append (IsSettled p.max_grid) p.grids _ t.settled (λ _. omega arith, tt);
    apart = rw places-append (
        Apart-append p.max_grid (places p.grids) _ t.apart
          (place_is_new _ _ refl t.settled t.small));
    fits = omega (arith, length-append {0} p.grids);
    small = t.small;
  };
}
