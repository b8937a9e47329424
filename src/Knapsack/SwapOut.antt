-- ===== src/Knapsack/SwapOut.antt =====
-- `SwapElements(idx, size - 1); RemoveLast()` of RemoveGrid: what is left when a grid is swapped out.
use mathlib.Core.List.{append-nil}
use playground.Prelude.{
  ℕ, suc, ◌+◌, ◌≡◌, inl, inr, sym, List, [], ◌∷◌, ◌++◌, some, refl, arith, ap, if◌then◌else◌, ◌==◌,
  length, All, All-append, All-append_left, All-append_right, length-append, snoc-cases,
  Option-cases, Bool-cases,
}
use mathlib.Core.Path.{subst}
use playground.Repeated.{RepeatedField, take_out}
use playground.Repeated.TakeOut.{take_out-last, take_out-inner}
use playground.Knapsack.{Grid, index_of, swap_out}
use playground.Knapsack.Held.{held, held_in, held-append}
use playground.Knapsack.Tidy.{places, times, times-append}

-- `gs` is the grid `g` and the grids `rest`, in another order.
pub record IsTakenOut (g : Grid) (gs rest : List Grid) : Type 1 where
  pub every : (P : Grid → Type 0) → All P gs → P g × All P rest
  pub counts : (j : ℕ) → held j gs ≡ held_in j g + held j rest
  pub positions :
      (k : ℕ) → times k (places gs) ≡ (if g.place == k then 1 else 0) + times k (places rest)
  pub shorter : length gs ≡ suc (length rest)

split_at :
    (at i : ℕ) (gs : List Grid)
    → index_of at gs ≡ some i
    → (pre : List Grid) × (g : Grid) × (post : List Grid) × (gs ≡ pre ++ g ∷ post)
      × (i ≡ length pre)
      × (g.place ≡ at)
unfolding index_of
split_at at i [] e = cc
split_at at i (g ∷ gs) e = elim (Bool-cases (g.place == at)) [
  | inl here ↦ ([], g, gs, refl, ground arith, ground arith)
  | inr there ↦ elim (Option-cases (index_of at gs)) [
    | inl no_index ↦ ground arith
    | inr (k, f) ↦
        let (pre, h, post, eq, len, place) = split_at at k gs f in
        (g ∷ pre, h, post, ap (◌∷◌ g) eq, ground arith, place)
  ]
]

places-append : (xs ys : List Grid) → places (xs ++ ys) ≡ places xs ++ places ys
places-append [] ys = refl
places-append (x ∷ xs) ys = ap (◌∷◌ x.place) (places-append xs ys)

taken_from :
    (pre : List Grid) (g : Grid) (post rest : List Grid)
    → IsTakenOut g (g ∷ post) rest
    → IsTakenOut g (pre ++ g ∷ post) (pre ++ rest)
taken_from pre g post rest t = record {
  every = λ P a.
      let tail = t.every P (All-append_right P pre (g ∷ post) a) in
      (tail.0, All-append P pre rest (All-append_left P pre (g ∷ post) a) tail.1);
  counts =
      λ j. rw (held-append j pre (g ∷ post), held-append j pre rest) (omega (arith, t.counts j));
  positions = λ k.
      rw
        (
          places-append pre (g ∷ post),
          places-append pre rest,
          times-append k (places pre) (places (g ∷ post)),
          times-append k (places pre) (places rest),
        )
        (omega (arith, t.positions k));
  shorter = omega (arith, t.shorter, length-append pre (g ∷ post), length-append pre rest);
}

-- The last grid goes to the front of the others.
rotated : (g : Grid) (mid : List Grid) (z : Grid) → IsTakenOut g (g ∷ (mid ++ z ∷ [])) (z ∷ mid)
rotated g mid z = record {
  every =
      λ P a. (a.0, ((All-append_right P mid (z ∷ []) a.1).0, All-append_left P mid (z ∷ []) a.1));
  counts = λ j. rw (held-append j mid (z ∷ [])) (omega arith);
  positions = λ k. rw (places-append mid (z ∷ []), times-append k (places mid)) (omega arith);
  shorter = omega (arith, length-append mid (z ∷ []));
}

last_alone : (g : Grid) → IsTakenOut g (g ∷ []) []
last_alone g = record {
  every = λ P a. (a.0, tt);
  counts = λ j. omega arith;
  positions = λ k. omega arith;
  shorter = refl;
}

module _ (field : RepeatedField Grid) where
  swap_out-last : (pre : List Grid) (g : Grid) → swap_out field (pre ++ g ∷ []) (length pre) ≡ pre
  unfolding swap_out take_out
  swap_out-last = take_out-last field

  swap_out-inner :
      (pre : List Grid) (g : Grid) (mid : List Grid) (z : Grid)
      → swap_out field (pre ++ g ∷ (mid ++ z ∷ [])) (length pre) ≡ pre ++ z ∷ mid
  unfolding swap_out take_out
  swap_out-inner = take_out-inner field

  swapped_out :
      (pre : List Grid) (g : Grid) (post : List Grid)
      → IsTakenOut g (pre ++ g ∷ post) (swap_out field (pre ++ g ∷ post) (length pre))
  swapped_out pre g [] = rw (swap_out-last pre g) (
      subst (IsTakenOut g (pre ++ g ∷ [])) (append-nil pre) (taken_from pre g [] [] (last_alone g)))
  swapped_out pre g (x ∷ xs) =
      let (mid, z, eq) = snoc-cases x xs in
      subst (λ post. IsTakenOut g (pre ++ g ∷ post) (swap_out field (pre ++ g ∷ post) (length pre)))
        (sym eq)
        (rw (swap_out-inner pre g mid z)
          (taken_from pre g (mid ++ z ∷ []) (z ∷ mid) (rotated g mid z)))

  -- Swapping out the first grid with a position takes that one grid out and keeps the others.
  pub swap_out_lem :
      (at i : ℕ) (gs : List Grid)
      → index_of at gs ≡ some i
      → (g : Grid) × (g.place ≡ at) × IsTakenOut g gs (swap_out field gs i)
  swap_out_lem at i gs e =
      let (pre, g, post, eq, len, place) = split_at at i gs e in
      (g, place, rw (eq, len) (swapped_out pre g post))
