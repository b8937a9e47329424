-- ===== src/Knapsack/Put.antt =====
-- PutItem of PlayerKnapsackLogic.cpp.
use playground.Prelude.{
  none, ℕ, zero, suc, ◌+◌, ◌-◌, ◌*◌, ◌≤◌, ◌<◌, ◌≡◌, ◌⊎◌, inl, inr, false, [], ◌∷◌, some, refl,
  arith, ◌∙◌, if◌then◌else◌, ◌==◌, length, dec_lt,
}
use playground.Prelude.Words.{pos, to_int, ltb_ℤ, ◌+ℤ◌}
use playground.Knapsack.{
  Item, Package, Outcome, max_tiled, fill_grids, add_grid, add_grids, put_fitting, put_item,
  create_item, get_item_capacity, free_in, get_item_num, refused,
}
use playground.Knapsack.Held.{held, vacant, sum_num-eq-held, held-le-length, free_in-eq-vacant}
use playground.Knapsack.Tidy.{IsTidy}
use playground.Events.{event_player_item_add}
use playground.Knapsack.Fill.{fill_grids_lem, fill_grids_other, fill_grids-IsSettled}
use playground.Knapsack.Place.{Added, add_grid-Added}

add_grids-Added :
    (item : Item) (n : ℕ) (p : Package)
    → IsTidy p
    → n + length p.grids ≤ p.max_grid
    → Added item n p (add_grids item n p).0 × ((add_grids item n p).1 ≡ 0)
unfolding add_grids
add_grids-Added item zero p t h =
    (record { counts = λ j. ground arith; longer = omega arith; same_max = refl; tidy = t }, refl)
add_grids-Added item (suc n) p t h =
    let one = add_grid-Added item p t (omega arith) in
    let rest =
      add_grids-Added item n (add_grid item 1 p) one.tidy
        (omega (arith, one.longer, one.same_max)) in
    let step : ltb_ℤ (to_int (suc n)) (pos max_tiled) ≡ false = ground (arith, t.small) in
    rw step (
      record {
        counts = λ j. ground (arith, rest.0.counts j, one.counts j);
        longer = omega (arith, rest.0.longer, one.longer);
        same_max = rest.0.same_max ∙ one.same_max;
        tidy = rest.0.tidy;
      },
      rest.1,
    )

-- What a successful put leaves: the pack tidy, the count of the item up by the number put, every
-- other count as it was, and the size of the pack.
pub record Stored (item : Item) (num : ℕ) (p q : Package) : Type 0 where
  pub counts :
      (j : ℕ) → get_item_num q j ≡ get_item_num p j +ℤ (if j == item.id then pos num else pos 0)
  pub same_max : q.max_grid ≡ p.max_grid
  pub tidy : IsTidy q

pub get_item_num-held : (p : Package) (j : ℕ) → IsTidy p → get_item_num p j ≡ pos (held j p.grids)
unfolding get_item_num
get_item_num-held p j t =
    ground (arith, sum_num-eq-held j p.grids t.tiled, held-le-length j p.grids t.tiled)

get_item_capacity_lem :
    (p : Package) (id : ℕ)
    → IsTidy p
    → get_item_capacity p id ≡ some (pos (vacant id p.grids + (p.max_grid - length p.grids)))
unfolding get_item_capacity
get_item_capacity_lem p id t = ground (arith, free_in-eq-vacant id p.grids t.tiled)

filled-IsTidy :
    (p : Package) (id num : ℕ)
    → IsTidy p
    → num < 2147483648
    → IsTidy (record p { grids = (fill_grids id num p.grids).0 })
filled-IsTidy p id num t h =
    let (_, _, tiled, len, at) = fill_grids_lem id num p.grids t.tiled h in
    record {
      tiled = tiled;
      settled = fill_grids-IsSettled id num p.max_grid p.grids t.tiled h t.settled;
      apart = rw at t.apart;
      fits = omega (arith, t.fits);
      small = t.small;
    }

put_fitting-Stored :
    (p : Package) (item : Item) (num : ℕ)
    → IsTidy p
    → num < 2147483648
    → num ≤ vacant item.id p.grids + (p.max_grid - length p.grids)
    → Stored item num p (put_fitting p item num).pack
unfolding put_fitting
put_fitting-Stored p item num t h fits =
    let (sum, left, _, len, _) = fill_grids_lem item.id num p.grids t.tiled h in
    let mid = record p { grids = (fill_grids item.id num p.grids).0 } in
    let tidy = filled-IsTidy p item.id num t h in
    let (added, _) =
      add_grids-Added item (fill_grids item.id num p.grids).1 mid tidy (omega (arith, t.fits)) in
    record {
      counts = λ j. ground (
        arith,
        get_item_num-held p j t,
        get_item_num-held _ j added.tidy,
        added.counts j,
        fill_grids_other item.id num j p.grids t.tiled h,
      );
      same_max = added.same_max;
      tidy = added.tidy;
    }

-- For a number below 2 ^ 31, PutItem on a tidy pack never meets its failed assertion. With c the
-- capacity that GetItemCapacity reports, it refuses a larger number and leaves the pack alone. Any
-- other number it stores whole: it returns 0, the count of the item grows by the number, no other
-- count changes, and the pack keeps its size and stays tidy.
pub put_item_lem :
    (p : Package) (item : Item) (num : ℕ)
    → IsTidy p
    → num < 2147483648
    → (c : ℕ) × (get_item_capacity p item.id ≡ some (pos c))
      × (((c < num) × (put_item p item num ≡ some (refused p)))
          ⊎ ((num ≤ c)
              × (o : Outcome) × (put_item p item num ≡ some o)
              × (o.ret ≡ pos 0)
              × Stored item num p o.pack))
unfolding put_item
put_item_lem p item num t h =
    let c = vacant item.id p.grids + (p.max_grid - length p.grids) in
    let cap = get_item_capacity_lem p item.id t in
    (
      c,
      cap,
      elim (dec_lt c num) [
        | yes more ↦ inl (more, rw (cap, put_item) (ground arith))
        | no fits ↦ inr (
          omega arith,
          put_fitting p item num,
          rw (cap, put_item) (ground arith),
          (unfold put_fitting in refl),
          put_fitting-Stored p item num t h (omega arith),
        )
      ],
    )

add_grids-left : (item : Item) (n : ℕ) (p : Package) → (add_grids item n p).1 ≡ 0
unfolding add_grids
add_grids-left item zero p = refl
add_grids-left item (suc n) p = ground (arith, add_grids-left item n (add_grid item 1 p))

-- The one event of a PutItem that returns 0 has the item's id in the high half of its parameter
-- and 0 in the low half.
pub put_item-fired :
    (p : Package) (item : Item) (num : ℕ) (o : Outcome)
    → put_item p item num ≡ some o
    → o.ret ≡ pos 0
    → o.fired
      ≡ record { code = event_player_item_add; receiver = none; param = item.id * 4294967296 } ∷ []
unfolding put_item put_fitting
put_item-fired p item num o e r = ground (
  arith,
  add_grids-left item (fill_grids item.id num p.grids).1
      (record p { grids = (fill_grids item.id num p.grids).0 }),
)

add_grids_huge :
    (item : Item) (num : ℕ) (p : Package)
    → 2147483648 ≤ num
    → num < 4294967296
    → add_grids item num p ≡ (add_grid item num p, 0)
unfolding add_grids
add_grids_huge item zero p lo hi = absurd (omega arith)
add_grids_huge item (suc n) p lo hi = ground arith

-- PutItem of a number from 2 ^ 31 on, below 2 ^ 32, into a pack with no grids and of a size below
-- 2 ^ 31 returns 0 and leaves one grid that holds the whole number.
pub put_item_huge :
    (p : Package) (item : Item) (num : ℕ)
    → p.grids ≡ []
    → p.max_grid < 2147483648
    → 2147483648 ≤ num
    → num < 4294967296
    → (o : Outcome) × (put_item p item num ≡ some o)
      × (o.ret ≡ pos 0)
      × (length o.pack.grids ≡ 1)
      × (held item.id o.pack.grids ≡ num)
unfolding put_item put_fitting fill_grids add_grid create_item get_item_capacity free_in
put_item_huge p item num e m lo hi =
    let q = record p { grids = [] } in
    let one = add_grids_huge item num q lo hi in
    rw e (put_fitting q item num, ground arith, refl, rw one refl, rw one (ground arith))
