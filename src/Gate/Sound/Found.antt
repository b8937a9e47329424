-- ===== src/Gate/Sound/Found.antt =====
-- GetConnectionByFD of gate/GateServerHandler.cpp, in the tables that a gate gets into.
use playground.Prelude.{
  ℕ, ◌≤◌, ◌≡◌, ◌↔◌, refl, sym, ap, ◌∙◌, true, false, ◌||◌, some, length, leb, ◌==◌, inl, inr,
  Option-cases, arith,
}
use playground.Prelude.Map.{lookup}
use playground.Gate.Connection.{is_open}
use playground.Gate.Server.{Gate, at, get_connection_by_fd, get_connection_by_idx}
use playground.Gate.Sound.{index}
use playground.Gate.Sound.Removing.{
  open-lt, get_connection_by_idx-open, get_connection_by_idx-positive,
}
use playground.Gate.Sound.Messages.{Sound}
use playground.Gate.Sound.Reachable.{Reached, Reached-IsSound}

found_lem :
    (g : Gate) (fd i : ℕ)
    → Sound g
    → get_connection_by_fd g fd ≡ some i
    → (is_open (at g i).state ≡ true) × ((at g i).fd ≡ fd)
unfolding get_connection_by_fd index get_connection_by_idx
found_lem g fd i s e = elim (Option-cases (lookup fd g.fds)) [
  | inl n ↦ absurd (cc (simp (n, get_connection_by_fd) at e))
  | inr (j, has) ↦
      let found = simp (has, get_connection_by_fd) at e in
      let (same, o) = get_connection_by_idx-open g j i found in
      let leads : index g.fds fd ≡ i = rw (has, index) (sym same) in
      let first : 1 ≤ i = get_connection_by_idx-positive g j i found in
      let (_, own) = s.live fd (omega (arith, leads, first)) in
      (o, ap (λ k. (at g k).fd) (sym leads) ∙ own)
]

-- In every table that a gate reaches, GetConnectionByFD gives an index for a socket exactly if the
-- connection at that index is open and has the socket.
pub get_connection_by_fd_lem :
    (g : Gate) (fd i : ℕ)
    → Reached g
    → (get_connection_by_fd g fd ≡ some i) ↔ ((is_open (at g i).state ≡ true) × ((at g i).fd ≡ fd))
unfolding get_connection_by_fd index get_connection_by_idx
get_connection_by_fd_lem g fd i r =
    let s = Reached-IsSound g r in
    (
      λ e. found_lem g fd i s e,
      λ (o, own).
          let (le, e) = s.paired i o in
          let leads : index g.fds fd ≡ i = ap (index g.fds) (sym own) ∙ e in
          let lt = open-lt g.conns i o in
          let within : (i == 0) || leb (length g.conns) i ≡ false = ground (arith, le, lt) in
          elim (Option-cases (lookup fd g.fds)) [
            | inl n ↦ absurd (omega (arith, le, simp (n, index) at leads))
            | inr (j, has) ↦
                let same : j ≡ i = simp (has, index) at leads in
                simp (has, get_connection_by_fd, same, get_connection_by_idx, within, o) refl
          ],
    )
