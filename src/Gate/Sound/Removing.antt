-- ===== src/Gate/Sound/Removing.antt =====
-- RemoveConnection of gate/GateServerHandler.cpp keeps the table of connections sound.
use playground.Prelude.{
  ℕ, zero, suc, ◌<◌, ◌≤◌, ◌≡◌, ◌≢◌, sym, ap, ◌∙◌, true, List, [], ◌∷◌, none, some, length, set,
  arith, ◌==◌, ℕ_discrete, inl, inr, Option-cases, Bool-cases, ◌||◌, leb,
}
use playground.Prelude.Map.{Map, lookup, insert, erase, lookup-insert, lookup-erase}
use playground.Gate.Connection
use playground.Gate.Connection.{Connection, is_open}
use playground.Gate.Server.{
  Env, Gate, at, conn_at, conn_at-set, remove_connection, get_connection_by_idx,
}
use playground.Gate.Closing.{remove_at}
use playground.Gate.Removal.{conn_at-set_other, remove_connection-forgotten}
use playground.Gate.Sound.{index, IsSound}

-- An open connection is in the table.
pub open-lt : (cs : List Connection) (i : ℕ) → is_open (conn_at cs i).state ≡ true → i < length cs
unfolding conn_at
open-lt [] i h = absurd (cc h)
open-lt (x ∷ xs) zero h = omega arith
open-lt (x ∷ xs) (suc i) h = omega (arith, open-lt xs i h)

-- The table in which the slot `i` is closed and its socket leads nowhere.
module _ (cs : List Connection) (fds : Map ℕ) (i : ℕ) where
  abbrev closed_slots : List Connection
  closed_slots = set cs i (Connection.close (conn_at cs i))

  abbrev cleared : Map ℕ
  cleared = insert (conn_at cs i).fd 0 (erase (conn_at cs i).fd fds)

  index-cleared_self : index cleared (conn_at cs i).fd ≡ 0
  unfolding index
  index-cleared_self =
      let fd = (conn_at cs i).fd in ground (arith, lookup-insert fd fd 0 (erase fd fds))

  index-cleared : (fd : ℕ) → fd ≢ (conn_at cs i).fd → index cleared fd ≡ index fds fd
  unfolding index
  index-cleared fd ne =
      let own = (conn_at cs i).fd in
      let same : lookup fd cleared ≡ lookup fd fds =
        ground (arith, lookup-insert own fd 0 (erase own fds), lookup-erase own fd fds) in
      ap (λ x. elim x as (λ _. ℕ) [ none ↦ 0 | some k ↦ k ]) same

  closed-IsSound :
      is_open (conn_at cs i).state ≡ true → IsSound cs fds → IsSound closed_slots cleared
  unfolding Connection.close
  closed-IsSound o s =
      let lt = open-lt cs i o in
      let here : conn_at closed_slots i ≡ Connection.close (conn_at cs i) =
        conn_at-set cs i (Connection.close (conn_at cs i)) lt in
      let other : (j : ℕ) → j ≢ i → conn_at closed_slots j ≡ conn_at cs j =
        λ j ne. conn_at-set_other cs i j (Connection.close (conn_at cs i)) ne in
      record {
        live = λ fd le. elim (ℕ_discrete fd (conn_at cs i).fd) [
          | yes e ↦ absurd (omega (arith, le, ap (index cleared) e, index-cleared_self))
          | no ne ↦
              let leads = index-cleared fd ne in
              let (op, own) = s.live fd (omega (arith, le, leads)) in
              let away : index fds fd ≢ i = λ q. ne (sym own ∙ ap (λ k. (conn_at cs k).fd) q) in
              let kept : conn_at closed_slots (index cleared fd) ≡ conn_at cs (index fds fd) =
                ap (conn_at closed_slots) leads ∙ other (index fds fd) away in
              (ap (λ c. is_open c.state) kept ∙ op, ap (λ c. c.fd) kept ∙ own)
        ];
        paired = λ j op. elim (ℕ_discrete j i) [
          | yes e ↦ absurd (
              cc (
                sym op
                ∙ ap (λ k. is_open (conn_at closed_slots k).state) e
                ∙ ap (λ c. is_open c.state) here))
          | no ne ↦
              let kept = other j ne in
              let (le, leads) = s.paired j (sym (ap (λ c. is_open c.state) kept) ∙ op) in
              let mine = s.paired i o in
              let apart : (conn_at cs j).fd ≢ (conn_at cs i).fd =
                λ q. ne (sym leads ∙ ap (index fds) q ∙ mine.1) in
              (
                le,
                ap (λ c. index cleared c.fd) kept ∙ index-cleared (conn_at cs j).fd apart ∙ leads,
              )
        ];
        empty = λ j. elim (ℕ_discrete j i) [
          | yes e ↦ ap (λ k. (conn_at closed_slots k).used) e ∙ ap (λ c. c.used) here ∙ s.empty i
          | no ne ↦ ap (λ c. c.used) (other j ne) ∙ s.empty j
        ];
      }

pub remove_connection-IsSound :
    (env : Env) (g : Gate) (i reason : ℕ)
    → is_open (at g i).state ≡ true
    → IsSound g.conns g.fds
    → let g' = remove_connection env g i reason in IsSound g'.conns g'.fds
remove_connection-IsSound env g i reason o s =
    rw (remove_connection-forgotten env g i reason) (closed-IsSound g.conns g.fds i o s)

-- A connection that is found under an index is open.
pub get_connection_by_idx-open :
    (g : Gate) (j i : ℕ)
    → get_connection_by_idx g j ≡ some i
    → (i ≡ j) × (is_open (at g i).state ≡ true)
unfolding get_connection_by_idx
get_connection_by_idx-open g j i e = elim (Bool-cases ((j == 0) || leb (length g.conns) j)) [
  | inl out ↦ absurd (cc (rw out at e))
  | inr within ↦ elim (Bool-cases (is_open (at g j).state)) [
    | inl live ↦
        let same : j ≡ i = ground (arith, rw (within, live) at e) in
        (sym same, ap (λ k. is_open (at g k).state) (sym same) ∙ live)
    | inr dead ↦ absurd (cc (rw (within, dead) at e))
  ]
]

pub get_connection_by_idx-positive :
    (g : Gate) (j i : ℕ) → get_connection_by_idx g j ≡ some i → 1 ≤ i
unfolding get_connection_by_idx
get_connection_by_idx-positive g j i e = elim (Bool-cases ((j == 0) || leb (length g.conns) j)) [
  | inl out ↦ absurd (cc (rw out at e))
  | inr within ↦ ground (arith, within, (get_connection_by_idx-open g j i e).0)
]

pub remove_at-IsSound :
    (env : Env) (g : Gate) (idx reason : ℕ)
    → IsSound g.conns g.fds
    → let g' = remove_at env g idx reason in IsSound g'.conns g'.fds
unfolding remove_at
remove_at-IsSound env g idx reason s = elim (Option-cases (get_connection_by_idx g idx)) [
  | inl e ↦ rw (e, remove_at) s
  | inr (i, e) ↦
      rw (e, remove_at)
        (remove_connection-IsSound env g i reason (get_connection_by_idx-open g idx i e).1 s)
]
