-- ===== src/Knapsack/Remove.antt =====
-- RemoveItem and RemoveGrid of PlayerKnapsackLogic.cpp.
use playground.Prelude.{
  ℕ, ◌*◌, ◌≤◌, ◌<◌, ◌≡◌, ◌≢◌, ◌⊎◌, inl, inr, ◌∙◌, List, [], ◌∷◌, ◌++◌, none, some, refl, arith,
  if◌then◌else◌, ◌==◌, length, All, All-map, All-zip, All-unit, Bool-cases, Option-cases, leb,
  false, dec_lt,
}
use playground.Prelude.Words.{pos, ◌-ℤ◌, ltb_ℤ, to_int}
use playground.Events.{Fired, event_player_item_dec}
use playground.Repeated.{RepeatedField}
use playground.Knapsack.{
  Grid, Package, take_grids, find_pack_grid_idx, index_of, swap_out, remove_grid, remove_all,
  remove_item, get_item_num, refused,
}
use playground.Knapsack.Held.{held, IsTiled}
use playground.Knapsack.Tidy.{places, times, Apart, IsTidy}
use playground.Knapsack.SwapOut.{swap_out_lem}
use playground.Knapsack.Put.{get_item_num-held}
use playground.Knapsack.Noted.{IsNoted, take_grids-IsNoted}
use playground.Knapsack.Take.{take_grids_lem, take_grids_other}

-- A tidy pack but for the empty grids whose positions are still to be removed.
record IsClearing (ats : List ℕ) (p : Package) : Type 0 where
  tiled : All IsTiled p.grids
  noted : All (IsNoted p.max_grid ats) p.grids
  apart : Apart p.max_grid (places p.grids)
  fits : length p.grids ≤ p.max_grid
  small : p.max_grid < 2147483648

-- The counts and the size of the pack are those of another one.
pub record SameHeld (p q : Package) : Type 0 where
  pub counts : (j : ℕ) → held j q.grids ≡ held j p.grids
  pub same_max : q.max_grid ≡ p.max_grid

IsClearing-IsTidy : (p : Package) → IsClearing [] p → IsTidy p
IsClearing-IsTidy p c = record {
  tiled = c.tiled;
  settled =
      All-map _ _ p.grids
        (λ g n lt. elim (dec_lt 0 g.num) [ yes h ↦ h | no h ↦ absurd ((n lt).0 (omega arith)) ])
        c.noted;
  apart = c.apart;
  fits = c.fits;
  small = c.small;
}

index_of-none : (at : ℕ) (gs : List Grid) → index_of at gs ≡ none → All (λ g. g.place ≢ at) gs
unfolding index_of
index_of-none at [] e = tt
index_of-none at (g ∷ gs) e = elim (Bool-cases (g.place == at)) [
  | inl here ↦ cc (rw (here, index_of) at e)
  | inr there ↦ (ground arith, index_of-none at gs (ground arith))
]

times-zero : (at : ℕ) (gs : List Grid) → times at (places gs) ≡ 0 → All (λ g. g.place ≢ at) gs
times-zero at [] e = tt
times-zero at (g ∷ gs) e = (ground arith, times-zero at gs (omega arith))

-- A position that no grid inside the pack has need not be removed.
IsNoted-without :
    (m at : ℕ) (ats : List ℕ) (gs : List Grid)
    → All (λ g. g.place < m → g.place ≢ at) gs
    → All (IsNoted m (at ∷ ats)) gs
    → All (IsNoted m ats) gs
IsNoted-without m at ats gs off n =
    All-map _ _ gs
      (λ g both lt. (
        λ z. elim ((both.1 lt).0 z) [ inl e ↦ absurd (both.0 lt e) | inr s ↦ s ],
        λ s. (both.1 lt).1 (inr s),
      ))
      (All-zip _ _ gs off n)

-- RemoveGrid finds nothing exactly where no grid inside the pack has the position.
find_pack_grid_idx-none :
    (p : Package) (at : ℕ)
    → find_pack_grid_idx p at ≡ none
    → All (λ g. g.place < p.max_grid → g.place ≢ at) p.grids
unfolding find_pack_grid_idx
find_pack_grid_idx-none p at e = elim (Bool-cases (leb p.max_grid at)) [
  | inl out ↦ All-map (λ g. Unit {0}) _ p.grids (λ g _ lt eq. ground arith) (All-unit p.grids)
  | inr within ↦
      All-map _ _ p.grids (λ g ne lt. ne)
        (index_of-none at p.grids (rw (within, find_pack_grid_idx) at e))
]

find_pack_grid_idx-some :
    (p : Package) (at i : ℕ)
    → find_pack_grid_idx p at ≡ some i
    → (at < p.max_grid) × (index_of at p.grids ≡ some i)
unfolding find_pack_grid_idx
find_pack_grid_idx-some p at i e = ground arith

module _ (field : RepeatedField Grid) where
  swapped-IsClearing :
      (p : Package) (at i : ℕ) (ats : List ℕ)
      → IsClearing (at ∷ ats) p
      → at < p.max_grid
      → index_of at p.grids ≡ some i
      → let q = record p { grids = swap_out field p.grids i } in IsClearing ats q × SameHeld p q
  swapped-IsClearing p at i ats c lt e =
      let (g, place, out) = swap_out_lem field at i p.grids e in
      let rest = swap_out field p.grids i in
      let noted = out.every (IsNoted p.max_grid (at ∷ ats)) c.noted in
      let empty : g.num ≡ 0 = (noted.0 (omega arith)).1 (inl place) in
      let gone : times at (places rest) ≡ 0 = ground (arith, out.positions at, c.apart at lt) in
      (
        record {
          tiled = (out.every IsTiled c.tiled).1;
          noted =
              IsNoted-without p.max_grid at ats rest
                (All-map _ _ rest (λ h ne _. ne) (times-zero at rest gone)) noted.1;
          apart = λ k below. omega (arith, c.apart k below, out.positions k);
          fits = omega (arith, c.fits, out.shorter);
          small = c.small;
        },
        record { counts = λ j. ground (arith, out.counts j); same_max = refl },
      )

  remove_grid-IsClearing :
      (p : Package) (at : ℕ) (ats : List ℕ)
      → IsClearing (at ∷ ats) p
      → IsClearing ats (remove_grid field p at).pack × SameHeld p (remove_grid field p at).pack
  unfolding remove_grid
  remove_grid-IsClearing p at ats c = elim (Option-cases (find_pack_grid_idx p at)) [
    | inl e ↦
        rw (e, remove_grid)
          (
            record {
              tiled = c.tiled;
              noted =
                  IsNoted-without p.max_grid at ats p.grids (find_pack_grid_idx-none p at e)
                    c.noted;
              apart = c.apart;
              fits = c.fits;
              small = c.small;
            },
            record { counts = λ j. refl; same_max = refl },
          )
    | inr (i, e) ↦
        let (lt, at_i) = find_pack_grid_idx-some p at i e in
        rw (e, remove_grid) (swapped-IsClearing p at i ats c lt at_i)
  ]

  remove_all-IsTidy :
      (p : Package) (ats : List ℕ)
      → IsClearing ats p
      → IsTidy (remove_all field p ats).0 × SameHeld p (remove_all field p ats).0
  unfolding remove_all
  remove_all-IsTidy p [] c = (IsClearing-IsTidy p c, record { counts = λ j. refl; same_max = refl })
  remove_all-IsTidy p (at ∷ ats) c =
      let (c', same) = remove_grid-IsClearing p at ats c in
      let (tidy, rest) = remove_all-IsTidy (remove_grid field p at).pack ats c' in
      (
        tidy,
        record {
          counts = λ j. rest.counts j ∙ same.counts j;
          same_max = rest.same_max ∙ same.same_max;
        },
      )

  removed : Package → ℕ → ℕ → Package × List Fired
  removed p id num =
      remove_all field (record p { grids = (take_grids id num p.grids).0 })
        (take_grids id num p.grids).2

  -- What a successful removal leaves: the pack tidy and of its size, the item's count down by the
  -- number, every other count as it was.
  pub record Withdrawn (id num : ℕ) (p q : Package) : Type 0 where
    pub counts :
        (j : ℕ) → get_item_num q j ≡ get_item_num p j -ℤ (if j == id then pos num else pos 0)
    pub same_max : q.max_grid ≡ p.max_grid
    pub tidy : IsTidy q

  removed-Withdrawn :
      (p : Package) (id num : ℕ)
      → IsTidy p
      → num < 2147483648
      → num ≤ held id p.grids
      → Withdrawn id num p (removed p id num).0
  unfolding removed
  removed-Withdrawn p id num t h fits =
      let (sum, left, tiled, len, at) = take_grids_lem id num p.grids t.tiled h in
      let mid = record p { grids = (take_grids id num p.grids).0 } in
      let clearing : IsClearing (take_grids id num p.grids).2 mid = record {
        tiled = tiled;
        noted = take_grids-IsNoted id num p.max_grid p.grids t.tiled h t.settled t.apart;
        apart = rw at t.apart;
        fits = omega (arith, t.fits);
        small = t.small;
      } in
      let (tidy, same) = remove_all-IsTidy mid (take_grids id num p.grids).2 clearing in
      record {
        counts = λ j. ground (
          arith,
          get_item_num-held p j t,
          get_item_num-held _ j tidy,
          same.counts j,
          take_grids_other id num j p.grids t.tiled h,
        );
        same_max = same.same_max;
        tidy = tidy;
      }

  -- For a number below 2 ^ 31 and a tidy pack, with c the count that GetItemNum reports,
  -- RemoveItem refuses to take more than c and leaves the pack alone. Any other number it takes
  -- whole: it returns 0, the count of the item falls by the number, no other count changes, and
  -- the pack keeps its size and stays tidy.
  pub remove_item_lem :
      (p : Package) (id num : ℕ)
      → IsTidy p
      → num < 2147483648
      → let o = remove_item field p id num in
        (c : ℕ) × (get_item_num p id ≡ pos c)
        × (((c < num) × (o ≡ refused p))
            ⊎ ((num ≤ c) × (o.ret ≡ pos 0) × Withdrawn id num p o.pack))
  unfolding remove_item
  remove_item_lem p id num t h =
      let c = held id p.grids in
      let e = get_item_num-held p id t in
      (
        c,
        e,
        elim (dec_lt c num) [
          | yes more ↦ inl (more, ground arith)
          | no fits ↦
              let w = removed-Withdrawn p id num t h (omega arith) in
              let stays : ltb_ℤ (get_item_num p id) (to_int num) ≡ false = ground arith in
              inr (
                omega arith,
                rw (stays, remove_item) refl,
                rw (stays, remove_item) (unfold removed in w),
              )
        ],
      )

  -- On a tidy pack, for a number below 2 ^ 31, the last event of a RemoveItem that returns 0 has
  -- the item's id in the high half of its parameter and 0 in the low half.
  pub remove_item-fired :
      (p : Package) (id num : ℕ)
      → IsTidy p
      → num < 2147483648
      → (remove_item field p id num).ret ≡ pos 0
      → (before : List Fired) × ((remove_item field p id num).fired
          ≡ before
            ++ record { code = event_player_item_dec; receiver = none; param = id * 4294967296 }
              ∷ [])
  unfolding remove_item
  remove_item-fired p id num t h r =
      let e = get_item_num-held p id t in
      let (sum, left, _, _, _) = take_grids_lem id num p.grids t.tiled h in
      elim (dec_lt (held id p.grids) num) [
        | yes more ↦ ground arith
        | no fits ↦
            let none_left : (take_grids id num p.grids).1 ≡ 0 = omega arith in
            let stays : ltb_ℤ (get_item_num p id) (to_int num) ≡ false = ground arith in
            (
              (unfold removed in (removed p id num).1),
              rw (stays, remove_item) (unfold removed in ground (arith, none_left)),
            )
      ]
