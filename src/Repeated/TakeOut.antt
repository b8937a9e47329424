-- ===== src/Repeated/TakeOut.antt =====
-- What is left of a repeated field when an element is swapped with the last one and removed.
use mathlib.Core.List.{append_assoc}
use playground.Prelude.{
  suc, ◌+◌, ◌-◌, ◌≡◌, sym, ◌∙◌, List, [], ◌∷◌, ◌++◌, arith, ap, length, length-append,
}
use playground.Repeated.{RepeatedField, take_out}

module _ {A : Type 0} (field : RepeatedField A) where
  pub take_out-last : (pre : List A) (a : A) → take_out field (pre ++ a ∷ []) (length pre) ≡ pre
  unfolding take_out
  take_out-last pre a =
      let last : length (pre ++ a ∷ []) - 1 ≡ length pre =
        omega (arith, length-append pre (a ∷ [])) in
      rw (last, take_out, field.swap_self) (field.remove_last_snoc pre a)

  pub take_out-inner :
      (pre : List A) (a : A) (mid : List A) (z : A)
      → take_out field (pre ++ a ∷ (mid ++ z ∷ [])) (length pre) ≡ pre ++ z ∷ mid
  unfolding take_out
  take_out-inner pre a mid z =
      let last : length (pre ++ a ∷ (mid ++ z ∷ [])) - 1 ≡ length pre + suc (length mid) =
        omega (arith, length-append pre (a ∷ (mid ++ z ∷ [])), length-append mid (z ∷ [])) in
      rw (last, take_out, field.swap_apart pre a mid z [])
        (ap field.remove_last (sym (append_assoc pre (z ∷ mid) (a ∷ [])))
          ∙ field.remove_last_snoc (pre ++ z ∷ mid) a)
