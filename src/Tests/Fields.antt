-- ===== src/Tests/Fields.antt =====
-- A list in the place of protobuf's `RepeatedPtrField`.
use playground.Prelude.{
  ℕ, zero, suc, ◌+◌, ◌≡◌, refl, ap, List, [], ◌∷◌, ◌++◌, none, some, length, get_elem?, set, arith,
  Option-cases, inl, inr,
}
use playground.Repeated.{RepeatedField}

unfoldable pub swap_list : {A : Type 0} → List A → ℕ → ℕ → List A
swap_list xs i j = elim (get_elem? xs i) [
  | none ↦ xs
  | some a ↦ elim (get_elem? xs j) [ none ↦ xs | some b ↦ set (set xs i b) j a ]
]

unfoldable pub drop_last : {A : Type 0} → List A → List A
drop_last [] = []
drop_last (x ∷ []) = []
drop_last (x ∷ y ∷ ys) = x ∷ drop_last (y ∷ ys)

set-set_self :
    {A : Type 0}
    → (xs : List A) (i : ℕ) (a : A) → get_elem? xs i ≡ some a
    → set (set xs i a) i a ≡ xs
set-set_self [] i a e = refl
set-set_self (x ∷ xs) zero a e = cc e
set-set_self (x ∷ xs) (suc i) a e = ap (◌∷◌ x) (set-set_self xs i a e)

pub swap_list_self : {A : Type 0} → (xs : List A) (i : ℕ) → swap_list xs i i ≡ xs
unfolding swap_list
swap_list_self xs i = elim (Option-cases (get_elem? xs i)) [
  | inl e ↦ rw (e, swap_list) refl
  | inr (a, e) ↦ rw (e, swap_list, e) (set-set_self xs i a e)
]

set-middle :
    {A : Type 0}
    → (xs : List A) (a : A) (ys : List A) (c : A) → set (xs ++ a ∷ ys) (length xs) c ≡ xs ++ c ∷ ys
set-middle [] a ys c = refl
set-middle (x ∷ xs) a ys c = ap (◌∷◌ x) (set-middle xs a ys c)

get_elem?-middle :
    {A : Type 0}
    → (xs : List A) (a : A) (ys : List A) → get_elem? (xs ++ a ∷ ys) (length xs) ≡ some a
get_elem?-middle [] a ys = refl
get_elem?-middle (x ∷ xs) a ys = get_elem?-middle xs a ys

get_elem?-second :
    {A : Type 0}
    → (xs : List A) (a : A) (ys : List A) (b : A) (zs : List A)
    → get_elem? (xs ++ a ∷ (ys ++ b ∷ zs)) (length xs + suc (length ys)) ≡ some b
get_elem?-second [] a ys b zs =
    let z : 0 + suc (length ys) ≡ suc (length ys) = omega arith in rw z (get_elem?-middle ys b zs)
get_elem?-second (x ∷ xs) a ys b zs =
    let z : suc (length xs) + suc (length ys) ≡ suc (length xs + suc (length ys)) = omega arith in
    rw z (get_elem?-second xs a ys b zs)

set-both :
    {A : Type 0}
    → (xs : List A) (a : A) (ys : List A) (b : A) (zs : List A) (c d : A)
    → set (set (xs ++ a ∷ (ys ++ b ∷ zs)) (length xs) c) (length xs + suc (length ys)) d
      ≡ xs ++ c ∷ (ys ++ d ∷ zs)
set-both [] a ys b zs c d =
    let z : 0 + suc (length ys) ≡ suc (length ys) = omega arith in
    rw z (ap (◌∷◌ c) (set-middle ys b zs d))
set-both (x ∷ xs) a ys b zs c d =
    let z : suc (length xs) + suc (length ys) ≡ suc (length xs + suc (length ys)) = omega arith in
    rw z (ap (◌∷◌ x) (set-both xs a ys b zs c d))

pub drop_last-snoc : {A : Type 0} → (xs : List A) (a : A) → drop_last (xs ++ a ∷ []) ≡ xs
unfolding drop_last
drop_last-snoc [] a = refl
drop_last-snoc (x ∷ []) a = refl
drop_last-snoc (x ∷ y ∷ ys) a = ap (◌∷◌ x) (drop_last-snoc (y ∷ ys) a)

pub swap_list-apart :
    {A : Type 0}
    → (xs : List A) (a : A) (ys : List A) (b : A) (zs : List A)
    → swap_list (xs ++ a ∷ (ys ++ b ∷ zs)) (length xs) (length xs + suc (length ys))
      ≡ xs ++ b ∷ (ys ++ a ∷ zs)
unfolding swap_list
swap_list-apart xs a ys b zs =
    rw (get_elem?-middle xs a (ys ++ b ∷ zs), swap_list, get_elem?-second xs a ys b zs)
      (set-both xs a ys b zs b a)

abbrev pub list_field : (A : Type 0) → RepeatedField A
list_field A = record {
  swap_elements = swap_list;
  remove_last = drop_last;
  swap_self = swap_list_self;
  swap_apart = swap_list-apart;
  remove_last_snoc = drop_last-snoc;
}
