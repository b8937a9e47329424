-- ===== src/Repeated.antt =====
-- protobuf's `RepeatedPtrField`, a library the program calls: its two operations that move
-- elements are a parameter, with their documented effect on the sequence of elements.
pub mod TakeOut
use playground.Prelude.{ℕ, suc, ◌+◌, ◌-◌, ◌≡◌, List, [], ◌∷◌, ◌++◌, length}

pub record RepeatedField (A : Type 0) : Type 0 where
  -- SwapElements(i, j)
  pub swap_elements : List A → ℕ → ℕ → List A
  -- RemoveLast()
  pub remove_last : List A → List A
  pub swap_self : (xs : List A) (i : ℕ) → swap_elements xs i i ≡ xs
  pub swap_apart :
      (xs : List A) (a : A) (ys : List A) (b : A) (zs : List A)
      → swap_elements (xs ++ a ∷ (ys ++ b ∷ zs)) (length xs) (length xs + suc (length ys))
        ≡ xs ++ b ∷ (ys ++ a ∷ zs)
  pub remove_last_snoc : (xs : List A) (a : A) → remove_last (xs ++ a ∷ []) ≡ xs

-- SwapElements(i, size - 1); RemoveLast()
unfoldable pub take_out : {A : Type 0} → RepeatedField A → List A → ℕ → List A
take_out field xs i = field.remove_last (field.swap_elements xs i (length xs - 1))
