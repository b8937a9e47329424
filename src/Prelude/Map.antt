-- ===== src/Prelude/Map.antt =====
-- Maps with number keys (`unordered_map`) as association lists. `insert` is `m[k] = v`, `erase`
-- is `m.erase(k)`; the program does not depend on the order in which such a map is walked.
use Prim.Native.Nat.{ℕ, zero, suc, ◌+◌, ◌%◌, ◌≤◌, ◌<◌}
use mathlib.Core.List.{List, [], ◌∷◌}
use mathlib.Core.Logic.{◌≢◌, inl, inr}
use mathlib.Core.Option.{Option, none, some}
use mathlib.Core.Path.{◌≡◌, refl, sym, ◌∙◌}
use native.Mathlib.Omega.{arith}
use playground.Prelude.Lists.{length}
use playground.Prelude.Tests.{◌==◌, if◌then◌else◌, Option-cases}

abbrev pub Map {ℓ} : Type ℓ → Type ℓ
Map V = List (ℕ × V)

-- The key after `n` steps.
abbrev pub tried : (ℕ → ℕ) → ℕ → ℕ → ℕ
tried next zero k = k
tried next (suc n) k = tried next n (next k)

module _ {ℓ} {V : Type ℓ} where
  unfoldable pub lookup : ℕ → Map V → Option V
  lookup k [] = none
  lookup k ((j, v) ∷ m) = if j == k then some v else lookup k m

  unfoldable pub erase : ℕ → Map V → Map V
  erase k [] = []
  erase k ((j, v) ∷ m) = let rest = erase k m in if j == k then rest else (j, v) ∷ rest

  unfoldable pub insert : ℕ → V → Map V → Map V
  unfolding erase
  insert k v m = (k, v) ∷ erase k m

  pub lookup-erase :
      (k j : ℕ) (m : Map V) → lookup j (erase k m) ≡ (if k == j then none else lookup j m)
  unfolding lookup erase
  lookup-erase k j [] = ground arith
  lookup-erase k j ((i, v) ∷ m) = ground (arith, lookup-erase k j m)

  pub lookup-insert :
      (k j : ℕ) (v : V) (m : Map V)
      → lookup j (insert k v m) ≡ (if k == j then some v else lookup j m)
  unfolding lookup insert
  lookup-insert k j v m = ground (arith, lookup-erase k j m)

  pub length-erase-le : (k : ℕ) (m : Map V) → length (erase k m) ≤ length m
  unfolding erase
  length-erase-le k [] = omega arith
  length-erase-le k ((j, v) ∷ m) = ground (arith, length-erase-le k m)

  pub length-erase-lt : (k : ℕ) (m : Map V) → lookup k m ≢ none → length (erase k m) < length m
  unfolding lookup erase
  length-erase-lt k [] h = absurd (h refl)
  length-erase-lt k ((j, v) ∷ m) h = ground (arith, length-erase-le k m, length-erase-lt k m)

  pub length-insert-le : (k : ℕ) (v : V) (m : Map V) → length (insert k v m) ≤ length m + 1
  unfolding insert
  length-insert-le k v m = omega (arith, length-erase-le k m)

  -- `while (m.find(k) != m.end()) k = next(k);` with the rounds left; `none` means that they ran out.
  unfoldable pub first_free : (ℕ → ℕ) → ℕ → ℕ → Map V → Option ℕ
  first_free next zero k m = none
  first_free next (suc rounds) k m =
      let rest = first_free next rounds (next k) m in
      elim (lookup k m) [ none ↦ some k | some _ ↦ rest ]

  pub first_free-lookup :
      (next : ℕ → ℕ) (rounds k j : ℕ) (m : Map V)
      → first_free next rounds k m ≡ some j
      → lookup j m ≡ none
  unfolding first_free
  first_free-lookup next zero k j m e = cc
  first_free-lookup next (suc rounds) k j m e =
      ground (arith, first_free-lookup next rounds (next k) j m)

  -- A key that the loop does not try does not matter.
  first_free-erase :
      (next : ℕ → ℕ) (rounds k away : ℕ) (m : Map V)
      → ((n : ℕ) → n < rounds → tried next n k ≢ away)
      → first_free next rounds k (erase away m) ≡ first_free next rounds k m
  unfolding first_free
  first_free-erase next zero k away m h = refl
  first_free-erase next (suc rounds) k away m h = ground (
    arith,
    lookup-erase away k m,
    h 0 (omega arith),
    first_free-erase next rounds (next k) away m (λ n lt. h (suc n) (omega arith)),
  )

  -- More rounds than entries are enough, if the keys tried are all different.
  pub first_free_total :
      (next : ℕ → ℕ) (rounds k : ℕ) (m : Map V)
      → length m < rounds
      → ((i n : ℕ) → i < n → n < rounds → tried next i k ≢ tried next n k)
      → first_free next rounds k m ≢ none
  unfolding first_free
  first_free_total next zero k m h apart = absurd (omega arith)
  first_free_total next (suc rounds) k m h apart = elim (Option-cases (lookup k m)) [
    | inl free ↦ λ e. ground arith
    | inr (v, used) ↦
        let fewer : length (erase k m) < length m = length-erase-lt k m (λ e. ground arith) in
        let rest =
          first_free_total next rounds (next k) (erase k m) (omega arith)
            (λ i n lt below. apart (suc i) (suc n) (omega arith) (omega arith)) in
        let same =
          first_free-erase next rounds (next k) k m
            (λ n lt e. apart 0 (suc n) (omega arith) (omega arith) (sym e)) in
        λ e. rest (same ∙ rw (used, first_free) at e)
  ]

tried-suc : (n k : ℕ) → tried suc n k ≡ k + n
tried-suc zero k = omega arith
tried-suc (suc n) k = omega (arith, tried-suc n (suc k))

-- `++k` on `uint32_t`.
abbrev pub next_u32 : ℕ → ℕ
next_u32 k = (k + 1) % 4294967296

tried-next_u32 : (n k : ℕ) → k < 4294967296 → tried next_u32 n k ≡ (k + n) % 4294967296
tried-next_u32 zero k h = omega arith
tried-next_u32 (suc n) k h = omega (arith, tried-next_u32 n (next_u32 k) (omega arith))

first_free-suc {ℓ} :
    {V : Type ℓ} (rounds k : ℕ) (m : Map V) → length m < rounds → first_free suc rounds k m ≢ none
first_free-suc rounds k m h =
    first_free_total suc rounds k m h
      (λ i n lt below e. omega (arith, tried-suc i k, tried-suc n k))

first_free-next_u32 {ℓ} :
    {V : Type ℓ} (rounds k : ℕ) (m : Map V)
    → length m < rounds
    → rounds ≤ 4294967296
    → k < 4294967296
    → first_free next_u32 rounds k m ≢ none
first_free-next_u32 rounds k m h most small =
    first_free_total next_u32 rounds k m h
      (λ i n lt below e. omega (arith, tried-next_u32 i k small, tried-next_u32 n k small))

first_free-suc-le {ℓ} :
    {V : Type ℓ} (rounds k j : ℕ) (m : Map V) → first_free suc rounds k m ≡ some j → k ≤ j
unfolding first_free
first_free-suc-le zero k j m e = cc
first_free-suc-le (suc rounds) k j m e = ground (arith, first_free-suc-le rounds (suc k) j m)

-- With more rounds than entries the loop ends at a key that is not in the map.
pub first_free-suc_lem {ℓ} :
    {V : Type ℓ} (rounds k : ℕ) (m : Map V)
    → length m < rounds
    → (j : ℕ) × (first_free suc rounds k m ≡ some j) × (k ≤ j) × (lookup j m ≡ none)
first_free-suc_lem rounds k m h = elim (Option-cases (first_free suc rounds k m)) [
  | inl e ↦ absurd (first_free-suc rounds k m h e)
  | inr (j, e) ↦ (j, e, first_free-suc-le rounds k j m e, first_free-lookup suc rounds k j m e)
]

pub first_free-next_u32_lem {ℓ} :
    {V : Type ℓ} (rounds k : ℕ) (m : Map V)
    → length m < rounds
    → rounds ≤ 4294967296
    → k < 4294967296
    → (j : ℕ) × (first_free next_u32 rounds k m ≡ some j) × (lookup j m ≡ none)
first_free-next_u32_lem rounds k m h most small =
    elim (Option-cases (first_free next_u32 rounds k m)) [
      | inl e ↦ absurd (first_free-next_u32 rounds k m h most small e)
      | inr (j, e) ↦ (j, e, first_free-lookup next_u32 rounds k j m e)
    ]

pub ruleset map_laws = (lookup-erase, lookup-insert)
