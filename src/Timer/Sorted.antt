-- ===== src/Timer/Sorted.antt =====
-- The multimap of component/TimerMgr.cpp: order, and how many entries are due.
use playground.Prelude.{
  ℕ, ◌+◌, ◌≤◌, ◌<◌, ◌≡◌, List, [], ◌∷◌, refl, arith, leb, if◌then◌else◌, All, All-map, Bool-cases,
  inl, inr,
}
use playground.Timer.{Entry, insert_entry}

abbrev pub IsSorted : List Entry → Type 0
IsSorted [] = Unit
IsSorted (x ∷ xs) = All (λ y. x.key ≤ y.key) xs × IsSorted xs

abbrev pub IsLater : ℕ → Entry → Type 0
IsLater now e = now < e.key

abbrev pub due : ℕ → List Entry → ℕ
due now [] = 0
due now (x ∷ xs) = (if leb x.key now then 1 else 0) + due now xs

pub All-insert_entry {κ} :
    (P : Entry → Type κ) (e : Entry) (xs : List Entry) → P e → All P xs → All P (insert_entry e xs)
unfolding insert_entry
All-insert_entry P e [] h a = (h, tt)
All-insert_entry P e (x ∷ xs) h a = elim (Bool-cases (leb x.key e.key)) [
  | inl t ↦ rw t (a.0, All-insert_entry P e xs h a.1)
  | inr f ↦ rw f (h, a)
]

pub insert_entry-IsSorted :
    (e : Entry) (xs : List Entry) → IsSorted xs → IsSorted (insert_entry e xs)
unfolding insert_entry
insert_entry-IsSorted e [] s = (tt, tt)
insert_entry-IsSorted e (x ∷ xs) s = elim (Bool-cases (leb x.key e.key)) [
  | inl t ↦ rw t (
    All-insert_entry (λ y. x.key ≤ y.key) e xs (ground arith) s.0,
    insert_entry-IsSorted e xs s.1,
  )
  | inr f ↦
      let lt : e.key ≤ x.key = ground arith in
      rw f ((lt, All-map _ _ xs (λ y le. omega (arith, le)) s.0), s)
]

pub due-insert_entry :
    (now : ℕ) (e : Entry) (xs : List Entry)
    → due now (insert_entry e xs) ≡ (if leb e.key now then 1 else 0) + due now xs
unfolding insert_entry
due-insert_entry now e [] = refl
due-insert_entry now e (x ∷ xs) = elim (Bool-cases (leb x.key e.key)) [
  | inl t ↦ rw t (omega (arith, due-insert_entry now e xs))
  | inr f ↦ rw f refl
]

pub due-zero :
    (now : ℕ) (x : Entry) (xs : List Entry)
    → IsSorted (x ∷ xs)
    → now < x.key
    → All (IsLater now) (x ∷ xs)
due-zero now x xs s h = (h, All-map _ _ xs (λ y le. omega (arith, le)) s.0)
