-- ===== src/Prelude/StringMap.antt =====
-- Maps with strings as keys, as association lists. `insert` is `m[k] = v`, `erase` is `m.erase(k)`;
-- the program does not depend on the order in which such a map is walked.
use Prim.Native.Nat.{ℕ}
use mathlib.Core.Bool.{false}
use mathlib.Core.List.{List, [], ◌∷◌}
use mathlib.Core.Logic.{inl, inr}
use mathlib.Core.Option.{Option, none, some}
use mathlib.Core.Path.{◌≡◌, refl, ap, ◌∙◌}
use playground.Prelude.Tests.{if◌then◌else◌, Bool-cases}
use playground.Prelude.Strings.{same, same_refl, same_eq}

abbrev pub StringMap : Type 0 → Type 0
StringMap V = List (List ℕ × V)

module _ {V : Type 0} where
  unfoldable pub lookup : List ℕ → StringMap V → Option V
  lookup k [] = none
  lookup k ((j, v) ∷ m) = if same j k then some v else lookup k m

  unfoldable pub erase : List ℕ → StringMap V → StringMap V
  erase k [] = []
  erase k ((j, v) ∷ m) = let rest = erase k m in if same j k then rest else (j, v) ∷ rest

  unfoldable pub insert : List ℕ → V → StringMap V → StringMap V
  insert k v m = (k, v) ∷ erase k m

  lookup-erase :
      (k j : List ℕ) (m : StringMap V) → same k j ≡ false → lookup j (erase k m) ≡ lookup j m
  unfolding lookup erase
  lookup-erase k j [] ne = refl
  lookup-erase k j ((i, v) ∷ m) ne = elim (Bool-cases (same i k)) [
    | inl t ↦
        let other : same i j ≡ false = ap (λ x. same x j) (same_eq i k t) ∙ ne in
        simp (t, other) (lookup-erase k j m ne)
    | inr f ↦ elim (Bool-cases (same i j)) [
      | inl t ↦ simp (f, t) refl
      | inr g ↦ simp (f, g) (lookup-erase k j m ne)
    ]
  ]

  pub lookup-insert_same : (k : List ℕ) (v : V) (m : StringMap V) → lookup k (insert k v m) ≡ some v
  unfolding lookup insert
  lookup-insert_same k v m = rw (same_refl k) refl

  pub lookup-insert_other :
      (k j : List ℕ) (v : V) (m : StringMap V)
      → same k j ≡ false
      → lookup j (insert k v m) ≡ lookup j m
  unfolding lookup insert
  lookup-insert_other k j v m ne = rw ne (lookup-erase k j m ne)
