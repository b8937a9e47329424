-- ===== src/Knapsack/Noted.antt =====
-- The positions that the first loop of RemoveItem of PlayerKnapsackLogic.cpp notes are those of the
-- grids that it leaves empty.
use playground.Prelude.{
  ℕ, ◌<◌, ◌≡◌, ◌↔◌, inl, inr, List, [], ◌∷◌, ◌++◌, refl, arith, ◌==◌, All, All-map, All-zip,
  Bool-cases,
}
use playground.Knapsack.{Grid, take_grid, take_grids}
use playground.Knapsack.Held.{IsTiled}
use playground.Knapsack.Tidy.{places, Apart, IsSettled}
use playground.Knapsack.Take.{
  Stands, Stands-append_right, Stands-append, Stands-times, take_grid_lem, take_grids_lem,
}

-- Of the grids inside the pack, the noted positions are those of the empty ones.
abbrev pub IsNoted : ℕ → List ℕ → Grid → Type 0
IsNoted m gone g = g.place < m → (g.num ≡ 0) ↔ Stands g.place gone

members : (gs : List Grid) → All (λ g. Stands g.place (places gs)) gs
members [] = tt
members (g ∷ gs) = (inl refl, All-map _ _ gs (λ h s. inr s) (members gs))

IsNoted-none : (m : ℕ) (gs : List Grid) → All (IsSettled m) gs → All (IsNoted m []) gs
IsNoted-none m gs s =
    All-map _ _ gs (λ g f lt. (λ e. absurd (omega (arith, f lt)), λ n. absurd n)) s

take_grids-gone :
    (id num at : ℕ) (gs : List Grid)
    → All IsTiled gs
    → num < 2147483648
    → Stands at (take_grids id num gs).2
    → Stands at (places gs)
unfolding take_grids
take_grids-gone id num at [] t h s = absurd s
take_grids-gone id num at (g ∷ gs) t h s = elim (Bool-cases (num == 0)) [
  | inl done ↦ absurd (rw done at s)
  | inr more ↦
      let (_, less, _, _, _, noted) = take_grid_lem id num g t.0 (ground arith) h in
      elim (Stands-append at (take_grid id num g).2 (take_grids id (take_grid id num g).1 gs).2
        (rw more at s)) [
          | inl here ↦ elim noted [
            | inl (e, _) ↦ absurd (rw e at here)
            | inr (e, _) ↦ ground (arith, rw e at here)
          ]
          | inr there ↦
              inr (take_grids-gone id (take_grid id num g).1 at gs t.1 (omega arith) there)
        ]
]

times_twice : (m p : ℕ) (ps : List ℕ) → Apart m (p ∷ ps) → p < m → Stands p ps → ⊥
times_twice m p ps a lt s = ground (arith, a p lt, Stands-times p ps s)

Apart-tail : (m p : ℕ) (ps : List ℕ) → Apart m (p ∷ ps) → Apart m ps
Apart-tail m p ps a at lt = omega (arith, a at lt)

-- The head of the list, after its round.
IsNoted-head :
    (id num m : ℕ) (g : Grid) (gs : List Grid) (more : List ℕ)
    → IsTiled g
    → 0 < num
    → num < 2147483648
    → IsSettled m g
    → Apart m (places (g ∷ gs))
    → (Stands g.place more → Stands g.place (places gs))
    → let (g', _, gone) = take_grid id num g in IsNoted m (gone ++ more) g'
IsNoted-head id num m g gs more t lo h s a sub lt =
    let (_, _, _, place, _, noted) = take_grid_lem id num g t lo h in
    let lt' : g.place < m = omega arith in
    (
      λ zero_num. elim noted [
        | inl (_, same) ↦ absurd (omega (arith, s lt'))
        | inr (e, _) ↦ rw e (inl place)
      ],
      λ stands. elim (Stands-append _ (take_grid id num g).2 more stands) [
        | inl here ↦ elim noted [ inl (e, _) ↦ absurd (rw e at here) | inr (_, z) ↦ z ]
        | inr there ↦ absurd (times_twice m g.place (places gs) a lt' (sub (rw place at there)))
      ],
    )

-- A later grid is not at a position noted at the head.
IsNoted-later :
    (id num m : ℕ) (g : Grid) (gs : List Grid) (more : List ℕ) (k : Grid)
    → IsTiled g
    → 0 < num
    → num < 2147483648
    → Apart m (places (g ∷ gs))
    → Stands k.place (places gs)
    → IsNoted m more k
    → IsNoted m ((take_grid id num g).2 ++ more) k
IsNoted-later id num m g gs more k t lo h a stands n lt =
    let (_, _, _, _, _, noted) = take_grid_lem id num g t lo h in
    (
      λ z. Stands-append_right k.place (take_grid id num g).2 more ((n lt).0 z),
      λ s. elim (Stands-append k.place (take_grid id num g).2 more s) [
        | inr there ↦ (n lt).1 there
        | inl here ↦ elim noted [
          | inl (e, _) ↦ absurd (rw e at here)
          | inr (e, _) ↦
              let same : k.place ≡ g.place = ground (arith, rw e at here) in
              absurd (times_twice m g.place (places gs) a (omega arith) (rw same at stands))
        ]
      ],
    )

pub take_grids-IsNoted :
    (id num m : ℕ) (gs : List Grid)
    → All IsTiled gs
    → num < 2147483648
    → All (IsSettled m) gs
    → Apart m (places gs)
    → let (gs', _, gone) = take_grids id num gs in All (IsNoted m gone) gs'
unfolding take_grids
take_grids-IsNoted id num m [] t h s a = tt
take_grids-IsNoted id num m (g ∷ gs) t h s a = elim (Bool-cases (num == 0)) [
  | inl done ↦ rw done (IsNoted-none m (g ∷ gs) s)
  | inr more ↦
      let lo : 0 < num = ground arith in
      let f = take_grid_lem id num g t.0 lo h in
      let left = (take_grid id num g).1 in
      let later = take_grids id left gs in
      let small : left < 2147483648 = omega arith in
      let rest =
        take_grids-IsNoted id left m gs t.1 small s.1 (Apart-tail m g.place (places gs) a) in
      let (_, _, _, _, same) = take_grids_lem id left gs t.1 small in
      rw more (
        IsNoted-head id num m g gs later.2 t.0 lo h s.0 a
            (take_grids-gone id left g.place gs t.1 small),
        All-map _ _ later.0
            (λ k both. IsNoted-later id num m g gs later.2 k t.0 lo h a (rw same at both.0) both.1)
            (All-zip _ _ later.0 (members later.0) rest),
      )
]
