-- ===== src/LogicCenter/Registered.antt =====
-- What Register of rgtd/zone/logic/PlayerLogicCenter.cpp changes for NotifyEvent.
use playground.Prelude.{
  ℕ, ◌≡◌, ◌≢◌, ◌⊎◌, inl, inr, refl, sym, ap, ◌∙◌, true, false, List, [], ◌∷◌, Option, none, some,
  arith, if◌then◌else◌, All, Bool-cases, Option-cases,
}
use mathlib.Core.List.{Perm}
use mathlib.Core.List.Perm
use playground.Prelude.Strings.{same, same_refl, same_eq, same_sym}
use playground.Prelude.Words.{pos, minus_one}
use playground.LogicCenter.{LogicMap, before, find, place, register, visit_all, notify_event}

-- Every name is before those that stand behind it.
abbrev pub Sorted : LogicMap → Type 0
Sorted [] = Unit
Sorted ((k, l) ∷ m) = All (λ e. before k e.0 ≡ true) m × Sorted m

before_trans : (a b c : List ℕ) → before a b ≡ true → before b c ≡ true → before a c ≡ true
unfolding before
before_trans [] [] c p q = absurd (cc p)
before_trans [] (y ∷ b) [] p q = absurd (cc q)
before_trans [] (y ∷ b) (z ∷ c) p q = refl
before_trans (x ∷ a) [] c p q = absurd (cc p)
before_trans (x ∷ a) (y ∷ b) [] p q = absurd (cc q)
before_trans (x ∷ a) (y ∷ b) (z ∷ c) p q = ground (arith, before_trans a b c)

-- Of two names that differ, one is before the other.
before_total : (a b : List ℕ) → same a b ≡ false → before a b ≡ false → before b a ≡ true
unfolding before same
before_total [] [] p q = absurd (cc p)
before_total [] (y ∷ b) p q = absurd (cc q)
before_total (x ∷ a) [] p q = refl
before_total (x ∷ a) (y ∷ b) p q = ground (arith, before_total a b)

-- Where the new name is before `k`, it is before everything behind `k`.
All-before :
    (name k : List ℕ) (m : LogicMap)
    → before name k ≡ true
    → All (λ e. before k e.0 ≡ true) m
    → All (λ e. before name e.0 ≡ true) m
All-before name k [] h all = tt
All-before name k ((j, l) ∷ m) h (first, rest) =
    (before_trans name k j h first, All-before name k m h rest)

All-place :
    (k name : List ℕ) (logic : ℕ) (m : LogicMap)
    → before k name ≡ true
    → All (λ e. before k e.0 ≡ true) m
    → All (λ e. before k e.0 ≡ true) (place name logic m)
unfolding place
All-place k name logic [] h all = (h, tt)
All-place k name logic ((j, l) ∷ m) h (first, rest) = elim (Bool-cases (before name j)) [
  | inl t ↦ rw (t, place) (h, (first, rest))
  | inr f ↦ rw (f, place) (first, All-place k name logic m h rest)
]

place-Sorted :
    (name : List ℕ) (logic : ℕ) (m : LogicMap)
    → Sorted m
    → find m name ≡ none
    → Sorted (place name logic m)
unfolding place find
place-Sorted name logic [] sorted new = (tt, tt)
place-Sorted name logic ((k, l) ∷ m) (first, sorted) new = elim (Bool-cases (same k name)) [
  | inl t ↦ absurd (cc (rw (t, find) at new))
  | inr differs ↦ elim (Bool-cases (before name k)) [
    | inl t ↦ rw (t, place) ((t, All-before name k m t first), (first, sorted))
    | inr f ↦
        let back : before k name ≡ true = before_total name k (same_sym name k differs) f in
        rw (f, place)
          (
            All-place k name logic m back first,
            place-Sorted name logic m sorted (rw (differs, find) at new),
          )
  ]
]

find-place :
    (name other : List ℕ) (logic : ℕ) (m : LogicMap)
    → find m name ≡ none
    → find (place name logic m) other ≡ (if same name other then some logic else find m other)
unfolding place find
find-place name other logic [] new = refl
find-place name other logic ((k, l) ∷ m) new = elim (Bool-cases (same k name)) [
  | inl t ↦ absurd (cc (rw (t, find) at new))
  | inr differs ↦
      let rest = find-place name other logic m (rw (differs, find) at new) in
      elim (Bool-cases (before name k)) [
        | inl t ↦ rw (t, place) refl
        | inr f ↦ elim (Bool-cases (same k other)) [
          | inr g ↦ rw (f, place, g) rest
          | inl g ↦ elim (Bool-cases (same name other)) [
            | inr h ↦ rw (f, place, g, h) refl
            | inl h ↦
                let k_is : k ≡ name = same_eq k other g ∙ sym (same_eq name other h) in
                absurd (cc (differs, ap (λ x. same x name) k_is, same_refl name))
          ]
        ]
      ]
]

visit_all-place :
    (name : List ℕ) (logic : ℕ) (m : LogicMap)
    → Perm (visit_all (place name logic m)) (logic ∷ visit_all m)
unfolding place
visit_all-place name logic [] = Perm.refl (logic ∷ [])
visit_all-place name logic ((k, l) ∷ m) = elim (Bool-cases (before name k)) [
  | inl t ↦ rw (t, place) (Perm.refl (logic ∷ l ∷ visit_all m))
  | inr f ↦
      rw (f, place)
        (Perm.trans (Perm.cons l (visit_all-place name logic m)) (Perm.swap logic l (visit_all m)))
]

-- On a map that is sorted by name, Register refuses with -1 and changes nothing, and the name is
-- registered, or the name is not registered and Register returns 0. Then the map is still sorted,
-- an event for the name goes to the new logic alone, an event for any other name goes where it
-- did, and an event for all goes, up to their order, to the new logic and to those it went to.
pub register_lem :
    (m : LogicMap) (name : List ℕ) (logic : ℕ)
    → Sorted m
    → ((find m name ≢ none) × (register m name logic ≡ (minus_one, m)))
      ⊎ ((find m name ≡ none)
          × (m' : LogicMap) × (register m name logic ≡ (pos 0, m'))
          × Sorted m'
          × (notify_event m' (some name) ≡ logic ∷ [])
          × ((other : List ℕ)
              → other ≢ name
              → notify_event m' (some other) ≡ notify_event m (some other))
          × Perm (notify_event m' none) (logic ∷ notify_event m none))
unfolding register notify_event
register_lem m name logic sorted = elim (Option-cases (find m name)) [
  | inr (old, has) ↦ inl (λ n. cc (has, n), rw (has, register) refl)
  | inl new ↦
      let here : find (place name logic m) name ≡ some logic =
        find-place name name logic m new ∙ rw (same_refl name) refl in
      inr (
        new,
        place name logic m,
        rw (new, register) refl,
        place-Sorted name logic m sorted new,
        rw (here, notify_event) refl,
        λ other ne.
            let off : same name other ≡ false = not_same name other ne in
            ap (λ (x : Option ℕ). elim x as (λ _. List ℕ) [ none ↦ [] | some l ↦ l ∷ [] ])
              (find-place name other logic m new ∙ rw off refl),
        visit_all-place name logic m,
      )
]
  where
    not_same : (a b : List ℕ) → b ≢ a → same a b ≡ false
    not_same a b ne = elim (Bool-cases (same a b)) [
      | inr f ↦ f
      | inl t ↦ absurd (ne (sym (same_eq a b t)))
    ]
