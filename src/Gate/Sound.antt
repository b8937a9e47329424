-- ===== src/Gate/Sound.antt =====
-- When the table of connections of gate/GateServerHandler.cpp is sound, and what keeps it so.
pub mod Sending
pub mod Removing
pub mod Messages
pub mod Receiving
pub mod Slots
pub mod Opening
pub mod Reachable
pub mod Found
use playground.Prelude.{
  ℕ, zero, suc, ◌≤◌, ◌<◌, ◌≡◌, refl, sym, ap, ◌∙◌, true, List, [], ◌∷◌, none, some, length,
  length-set, set, arith, ◌==◌, if◌then◌else◌,
}
use playground.Prelude.Map.{Map, lookup, insert, erase, lookup-insert}
use playground.Gate.Connection.{Connection, is_open}
use playground.Gate.Server.{conn_at}

-- The index that a socket leads to; 0 is none.
unfoldable pub index : Map ℕ → ℕ → ℕ
index fds fd = elim (lookup fd fds) [ none ↦ 0 | some i ↦ i ]

-- A socket that leads to an index leads to an open connection of that socket; the socket of an open
-- connection leads to it; no connection has received bytes counted.
pub record IsSound (cs : List Connection) (fds : Map ℕ) : Type 0 where
  pub live :
      (fd : ℕ)
      → 1 ≤ index fds fd
      → (is_open (conn_at cs (index fds fd)).state ≡ true) × ((conn_at cs (index fds fd)).fd ≡ fd)
  pub paired :
      (i : ℕ) → is_open (conn_at cs i).state ≡ true → (1 ≤ i) × (index fds (conn_at cs i).fd ≡ i)
  pub empty : (i : ℕ) → (conn_at cs i).used ≡ 0

pub record Same (c c' : Connection) : Type 0 where
  pub open_as : is_open c'.state ≡ is_open c.state
  pub socket : c'.fd ≡ c.fd
  pub none_used : c.used ≡ 0 → c'.used ≡ 0

pub Same-refl : (c : Connection) → Same c c
Same-refl c = record { open_as = refl; socket = refl; none_used = λ e. e }

pub Same-trans : (c d e : Connection) → Same c d → Same d e → Same c e
Same-trans c d e p q = record {
  open_as = q.open_as ∙ p.open_as;
  socket = q.socket ∙ p.socket;
  none_used = λ z. q.none_used (p.none_used z);
}

-- No connection is opened or closed, and each socket leads where it did.
pub record Keeps (cs : List Connection) (fds : Map ℕ) (cs' : List Connection) (fds' : Map ℕ)
    : Type 0 where
  pub size : length cs' ≡ length cs
  pub slots : (i : ℕ) → Same (conn_at cs i) (conn_at cs' i)
  pub leads : (fd : ℕ) → index fds' fd ≡ index fds fd

pub Keeps-refl : (cs : List Connection) (fds : Map ℕ) → Keeps cs fds cs fds
Keeps-refl cs fds = record { size = refl; slots = λ i. Same-refl _; leads = λ fd. refl }

pub Keeps-trans :
    (cs : List Connection) (fds : Map ℕ) (cs1 : List Connection) (fds1 : Map ℕ)
    (cs2 : List Connection) (fds2 : Map ℕ)
    → Keeps cs fds cs1 fds1
    → Keeps cs1 fds1 cs2 fds2
    → Keeps cs fds cs2 fds2
Keeps-trans cs fds cs1 fds1 cs2 fds2 p q = record {
  size = q.size ∙ p.size;
  slots = λ i. Same-trans _ _ _ (p.slots i) (q.slots i);
  leads = λ fd. q.leads fd ∙ p.leads fd;
}

pub Keeps-IsSound :
    (cs : List Connection) (fds : Map ℕ) (cs' : List Connection) (fds' : Map ℕ)
    → Keeps cs fds cs' fds'
    → IsSound cs fds
    → IsSound cs' fds'
Keeps-IsSound cs fds cs' fds' k s = record {
  live = λ fd le.
      let (o, f) = s.live fd (omega (arith, le, k.leads fd)) in
      let here = k.slots (index fds fd) in rw (k.leads fd) (here.open_as ∙ o, here.socket ∙ f);
  paired = λ i o.
      let here = k.slots i in
      let (le, e) = s.paired i (sym here.open_as ∙ o) in
      (le, k.leads _ ∙ ap (index fds) here.socket ∙ e);
  empty = λ i. (k.slots i).none_used (s.empty i);
}

Same-set :
    (cs : List Connection) (i j : ℕ) (c : Connection)
    → Same (conn_at cs i) c
    → Same (conn_at cs j) (conn_at (set cs i c) j)
unfolding conn_at
Same-set [] i j c h = Same-refl _
Same-set (x ∷ xs) zero zero c h = h
Same-set (x ∷ xs) zero (suc j) c h = Same-refl _
Same-set (x ∷ xs) (suc i) zero c h = Same-refl _
Same-set (x ∷ xs) (suc i) (suc j) c h = Same-set xs i j c h

pub modify-Keeps :
    (cs : List Connection) (fds : Map ℕ) (i : ℕ) (c : Connection)
    → Same (conn_at cs i) c
    → Keeps cs fds (set cs i c) fds
modify-Keeps cs fds i c h = record {
  size = length-set cs i c;
  slots = λ j. Same-set cs i j c h;
  leads = λ fd. refl;
}

-- A new entry 0 where there was none.
pub zero-Keeps :
    (cs : List Connection) (fds : Map ℕ) (fd : ℕ)
    → lookup fd fds ≡ none
    → Keeps cs fds cs (insert fd 0 fds)
unfolding index
zero-Keeps cs fds fd e = record {
  size = refl;
  slots = λ j. Same-refl _;
  leads = λ k. ground (arith, lookup-insert fd k 0 fds, e);
}
