-- ===== src/Prelude/Strings.antt =====
-- Strings as the lists of their bytes.
use Prim.Native.Nat.{ℕ}
use mathlib.Core.Bool.{Bool, true, false, ◌&&◌}
use mathlib.Core.List.{List, [], ◌∷◌}
use mathlib.Core.Logic.{◌≢◌, inl, inr}
use mathlib.Core.Path.{◌≡◌, refl, sym}
use native.Mathlib.Omega.{arith}
use playground.Prelude.Tests.{◌==◌, Bool-cases}

-- operator== of strings.
unfoldable pub same : List ℕ → List ℕ → Bool
same [] [] = true
same (x ∷ a) (y ∷ b) = (x == y) && same a b
same _ _ = false

pub same_refl : (a : List ℕ) → same a a ≡ true
unfolding same
same_refl [] = refl
same_refl (x ∷ a) = ground (arith, same_refl a)

pub same_eq : (a b : List ℕ) → same a b ≡ true → a ≡ b
unfolding same
same_eq [] [] e = refl
same_eq [] (y ∷ b) e = absurd (cc e)
same_eq (x ∷ a) [] e = absurd (cc e)
same_eq (x ∷ a) (y ∷ b) e = elim (Bool-cases (x == y)) [
  | inl t ↦ let heads : x ≡ y = ground arith in cc (heads, same_eq a b (rw (t, same) at e))
  | inr f ↦ absurd (cc (rw (f, same) at e))
]

pub same_sym : (a b : List ℕ) → same b a ≡ false → same a b ≡ false
unfolding same
same_sym [] [] e = e
same_sym [] (y ∷ b) e = refl
same_sym (x ∷ a) [] e = refl
same_sym (x ∷ a) (y ∷ b) e = ground (arith, same_sym a b)

pub same_ne : (a b : List ℕ) → b ≢ a → same a b ≡ false
same_ne a b ne = elim (Bool-cases (same a b)) [
  | inr f ↦ f
  | inl t ↦ absurd (ne (sym (same_eq a b t)))
]
