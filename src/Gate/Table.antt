-- ===== src/Gate/Table.antt =====
-- The table of connections of gate/GateServerHandler.cpp: which slot a new client gets, and what
-- RemoveConnection leaves.
use playground.Prelude.{
  ℕ, zero, suc, ◌+◌, ◌≤◌, ◌<◌, ◌≡◌, ◌⊎◌, inl, inr, refl, ap, ◌∙◌, true, false, List, [], ◌∷◌, none,
  some, if◌then◌else◌, length, drop, arith, Bool-cases,
}
use playground.Prelude.Words.{pos, ltb_ℤ}
use playground.Gate.Connection.{Connection, is_open}
use playground.Gate.Server.{Gate, at, conn_at}
use playground.Gate.Receive.{free_slot, get_next_idx}

-- The slots below `n` are open.
abbrev AreOpen : List Connection → ℕ → Type 0
AreOpen cs n = (k : ℕ) → k < n → is_open (conn_at cs k).state ≡ true

AreOpen-cons :
    (c : Connection) (cs : List Connection) (n : ℕ)
    → is_open c.state ≡ true
    → AreOpen cs n
    → AreOpen (c ∷ cs) (suc n)
unfolding conn_at
AreOpen-cons c cs n e all zero lt = e
AreOpen-cons c cs n e all (suc k) lt = all k (omega (arith, lt))

-- The search stops at the first slot that is not open.
free_slot_lem :
    (i : ℕ) (cs : List Connection)
    → ((free_slot i cs ≡ none) × AreOpen cs (length cs))
      ⊎ ((k : ℕ) × (free_slot i cs ≡ some (i + k))
          × (k < length cs)
          × (is_open (conn_at cs k).state ≡ false)
          × AreOpen cs k)
unfolding free_slot conn_at
free_slot_lem i [] = inl (refl, λ k lt. absurd (omega (arith, lt)))
free_slot_lem i (c ∷ cs) = elim (Bool-cases (is_open c.state)) [
  | inr e ↦ inr (
    0,
    ap (λ b. if b then free_slot (suc i) cs else some i) e ∙ ap some (omega arith),
    omega arith,
    e,
    λ j lt. absurd (omega (arith, lt)),
  )
  | inl e ↦ elim (free_slot_lem (suc i) cs) [
    | inl (n, all) ↦ inl (
      ap (λ b. if b then free_slot (suc i) cs else some i) e ∙ n,
      AreOpen-cons c cs (length cs) e all,
    )
    | inr (k, found, lt, free, before) ↦ inr (
      suc k,
      ap (λ b. if b then free_slot (suc i) cs else some i) e ∙ found ∙ ap some (omega arith),
      omega (arith, lt),
      free,
      AreOpen-cons c cs k e before,
    )
  ]
]

AreOpen-behind :
    (c : Connection) (cs : List Connection) (n : ℕ)
    → AreOpen cs n
    → (i : ℕ) → 1 ≤ i
    → i < suc n
    → is_open (conn_at (c ∷ cs) i).state ≡ true
unfolding conn_at
AreOpen-behind c cs n all zero lo hi = absurd (omega (arith, lo))
AreOpen-behind c cs n all (suc k) lo hi = all k (omega (arith, hi))

-- In a table with at least the slot 0, GetNextIdx finds the first slot from 1 on that is not open.
-- Otherwise it finds none, and the number of live connections is not below the limit or every slot
-- from 1 on is open.
pub get_next_idx_lem :
    (g : Gate) (c : Connection) (cs : List Connection)
    → g.conns ≡ c ∷ cs
    → ((get_next_idx g ≡ none)
        × ((ltb_ℤ g.alived (pos g.max_connection) ≡ false)
            ⊎ ((i : ℕ) → 1 ≤ i → i < length g.conns → is_open (at g i).state ≡ true)))
      ⊎ ((i : ℕ) × (get_next_idx g ≡ some i)
          × (1 ≤ i)
          × (i < length g.conns)
          × (is_open (at g i).state ≡ false)
          × ((j : ℕ) → 1 ≤ j → j < i → is_open (at g j).state ≡ true))
unfolding get_next_idx conn_at
get_next_idx_lem g c cs e = elim (Bool-cases (ltb_ℤ g.alived (pos g.max_connection))) [
  | inr full ↦ inl (ap (λ b. if b then free_slot 1 (drop 1 g.conns) else none) full, inl full)
  | inl room ↦
      let open_on : get_next_idx g ≡ free_slot 1 cs =
        ap (λ b. if b then free_slot 1 (drop 1 g.conns) else none) room
        ∙ ap (λ xs. free_slot 1 (drop 1 xs)) e in
      let size : length g.conns ≡ suc (length cs) = ap length e in
      let state : (i : ℕ) → is_open (at g i).state ≡ is_open (conn_at (c ∷ cs) i).state =
        λ i. ap (λ xs. is_open (conn_at xs i).state) e in
      elim (free_slot_lem 1 cs) [
        | inl (n, all) ↦ inl (
          open_on ∙ n,
          inr (λ i lo hi.
              state i ∙ AreOpen-behind c cs (length cs) all i lo (omega (arith, hi, size))),
        )
        | inr (k, found, lt, free, before) ↦ inr (
          suc k,
          open_on ∙ found ∙ ap some (omega arith),
          omega arith,
          omega (arith, lt, size),
          state (suc k) ∙ free,
          λ j lo hi. state j ∙ AreOpen-behind c cs k before j lo hi,
        )
      ]
]
