-- ===== src/Gate/Sound/Slots.antt =====
-- A free slot of a sound table of connections (gate/GateServerHandler.cpp) that changes.
use playground.Prelude.{
  ℕ, ◌≤◌, ◌≡◌, ◌≢◌, refl, sym, ap, ◌∙◌, true, false, List, none, length, arith, ◌==◌, if◌then◌else◌,
  ℕ_discrete, inl, inr, Option-cases, leb, ◌||◌,
}
use playground.Prelude.Map.{Map, lookup, insert, lookup-insert}
use playground.Gate.Connection.{Connection, is_open}
use playground.Gate.Server.{Gate, at, conn_at, get_connection_by_fd, get_connection_by_idx}
use playground.Gate.Sound.{Same, index, IsSound}
use playground.Gate.Sound.Removing.{open-lt}
use playground.Gate.Sound.Messages.{Sound}

-- A socket that leads to no connection leads to no index.
pub free_index :
    (g : Gate) (fd : ℕ) → Sound g → get_connection_by_fd g fd ≡ none → index g.fds fd ≡ 0
unfolding index get_connection_by_fd get_connection_by_idx
free_index g fd s e = elim (Option-cases (lookup fd g.fds)) [
  | inl n ↦ rw (n, index) refl
  | inr (i, has) ↦ elim (ℕ_discrete i 0) [
    | yes z ↦ rw (has, index) z
    | no nz ↦
        let leads : index g.fds fd ≡ i = rw (has, index) refl in
        let (o, own) = s.live fd (omega (arith, leads, nz)) in
        let live : is_open (at g i).state ≡ true =
          ap (λ k. is_open (at g k).state) (sym leads) ∙ o in
        let lt = open-lt g.conns i live in
        let within : (i == 0) || leb (length g.conns) i ≡ false = ground (arith, lt, nz) in
        absurd (cc (simp (has, get_connection_by_fd, within, live) at e))
  ]
]

pub index-insert :
    (fds : Map ℕ) (fd i k : ℕ) → index (insert fd i fds) k ≡ (if fd == k then i else index fds k)
unfolding index
index-insert fds fd i k = ground (arith, lookup-insert fd k i fds)

-- A free slot `i` of a sound table changes; the other slots are as before.
module _ (cs : List Connection) (fds : Map ℕ) (cs' : List Connection) (fds' : Map ℕ) (i : ℕ)
    (s : IsSound cs fds) (was : is_open (conn_at cs i).state ≡ false)
    (others : (j : ℕ) → j ≢ i → Same (conn_at cs j) (conn_at cs' j))
    (unused : (conn_at cs' i).used ≡ 0) where
  away : (fd : ℕ) → 1 ≤ index fds fd → index fds fd ≢ i
  away fd le e = absurd (cc (sym (s.live fd le).0 ∙ ap (λ k. is_open (conn_at cs k).state) e ∙ was))

  all_unused : (j : ℕ) → (conn_at cs' j).used ≡ 0
  all_unused j = elim (ℕ_discrete j i) [
    | yes e ↦ ap (λ k. (conn_at cs' k).used) e ∙ unused
    | no ne ↦ (others j ne).none_used (s.empty j)
  ]

  -- It stays free.
  pub shut-IsSound :
      is_open (conn_at cs' i).state ≡ false
      → ((fd : ℕ) → index fds' fd ≡ index fds fd)
      → IsSound cs' fds'
  shut-IsSound off leads = record {
    live = λ fd le.
        let (o, own) = s.live fd (omega (arith, le, leads fd)) in
        let kept = others (index fds fd) (away fd (omega (arith, le, leads fd))) in
        rw (leads fd) (kept.open_as ∙ o, kept.socket ∙ own);
    paired = λ j o. elim (ℕ_discrete j i) [
      | yes e ↦ absurd (cc (sym o ∙ ap (λ k. is_open (conn_at cs' k).state) e ∙ off))
      | no ne ↦
          let kept = others j ne in
          let (le, e) = s.paired j (sym kept.open_as ∙ o) in
          (le, leads _ ∙ ap (index fds) kept.socket ∙ e)
    ];
    empty = all_unused;
  }

  -- It is a connection of a socket that led nowhere, and now leads to it.
  pub opened-IsSound :
      (fd : ℕ)
      → 1 ≤ i
      → is_open (conn_at cs' i).state ≡ true
      → (conn_at cs' i).fd ≡ fd
      → index fds fd ≡ 0
      → ((k : ℕ) → index fds' k ≡ (if fd == k then i else index fds k))
      → IsSound cs' fds'
  opened-IsSound fd le on own free leads = record {
    live = λ k pos_k. elim (ℕ_discrete fd k) [
      | yes e ↦ let here : index fds' k ≡ i = ground (arith, leads k, e) in rw here (on, own ∙ e)
      | no ne ↦
          let there : index fds' k ≡ index fds k = ground (arith, leads k, ne) in
          let (o, mine) = s.live k (omega (arith, pos_k, there)) in
          let kept = others (index fds k) (away k (omega (arith, pos_k, there))) in
          rw there (kept.open_as ∙ o, kept.socket ∙ mine)
    ];
    paired = λ j o. elim (ℕ_discrete j i) [
      | yes e ↦
          let here : index fds' fd ≡ i = ground (arith, leads fd) in
          (
            omega (arith, le, e),
            ap (λ k. index fds' (conn_at cs' k).fd) e ∙ ap (index fds') own ∙ here ∙ sym e,
          )
      | no ne ↦
          let kept = others j ne in
          let (le_j, e) = s.paired j (sym kept.open_as ∙ o) in
          let apart : fd ≢ (conn_at cs j).fd =
            λ q. absurd (omega (arith, le_j, e, free, ap (index fds) q)) in
          let there : index fds' (conn_at cs j).fd ≡ index fds (conn_at cs j).fd =
            ground (arith, leads (conn_at cs j).fd, apart) in
          (le_j, ap (index fds') kept.socket ∙ there ∙ e)
    ];
    empty = all_unused;
  }
