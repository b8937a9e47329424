-- ===== src/Zone/Kept.antt =====
-- When the world of a zone server (Zone/World.antt) is well-formed, and what a step of
-- rgtd/zone/account keeps of it.
use playground.Prelude.{ℕ, ◌<◌, ◌≡◌, refl, ap, ◌∙◌, Bool, true, false, Option, none, some}
use playground.Prelude.Map.{lookup}
use playground.Zone.World
use playground.Zone.World.{
  SessionState, loading, creating, playing, offline, kicking, PlayerAgent, Session, Waiting,
  running, getting_role, inserting_role, saving_role, Effect, Env,
}
use playground.Zone.SessionMgr.{find_session}

unfoldable pub has_player : Session → Bool
has_player s = elim s.player [ none ↦ false | some _ ↦ true ]

-- The states that a session is in only when it has a player.
unfoldable pub needs_player : SessionState → Bool
needs_player creating = true
needs_player playing = true
needs_player offline = true
needs_player _ = false

abbrev pub address : Waiting → Option ℕ
address running = none
address (getting_role a) = some a
address (inserting_role a) = some a
address (saving_role a retry) = some a

abbrev pub awaits_player : Waiting → Bool
awaits_player (inserting_role a) = true
awaits_player (saving_role a retry) = true
awaits_player _ = false

-- A session of a table is the table's zone's and has the role id that it is found under; a session
-- that needs a player has one; what a coroutine waits for is there; new addresses are free.
pub record IsWell (w : World.World) : Type 0 where
  pub found :
      (zone uid a : ℕ)
      → find_session w zone uid ≡ some a
      → (s : Session) × (lookup a w.store ≡ some s) × (s.uid ≡ uid) × (s.zone ≡ zone)
  pub players :
      (a : ℕ) (s : Session)
      → lookup a w.store ≡ some s
      → needs_player s.state ≡ true
      → has_player s ≡ true
  pub awaited :
      (coid : ℕ) (k : Waiting) (a : ℕ)
      → lookup coid w.coroutines ≡ some k
      → address k ≡ some a
      → (s : Session) × (lookup a w.store ≡ some s) × (awaits_player k ≡ true → has_player s ≡ true)
  pub fresh : (a : ℕ) (s : Session) → lookup a w.store ≡ some s → a < w.next_address

-- What no step changes of a session. It does not lose its player.
abbrev pub Same : Session → Session → Type 0
Same s s' =
    (s'.uid ≡ s.uid)
    × (s'.zone ≡ s.zone)
    × (s'.gate ≡ s.gate)
    × (has_player s ≡ true → has_player s' ≡ true)

pub Same-refl : (s : Session) → Same s s
Same-refl s = (refl, refl, refl, λ p. p)

pub record Keeps (w w' : World.World) : Type 0 where
  pub next : w'.next_address ≡ w.next_address
  pub tables : (zone uid : ℕ) → find_session w' zone uid ≡ find_session w zone uid
  pub up :
      (a : ℕ) (s : Session)
      → lookup a w.store ≡ some s
      → (s' : Session) × (lookup a w'.store ≡ some s') × Same s s'

abbrev pub Good : World.World → World.World → Type 0
Good w w' = IsWell w' × Keeps w w'

pub Keeps-refl : (w : World.World) → Keeps w w
Keeps-refl w = record { next = refl; tables = λ zone uid. refl; up = λ a s e. (s, e, Same-refl s) }

pub Keeps-trans : (u v w : World.World) → Keeps u v → Keeps v w → Keeps u w
Keeps-trans u v w p q = record {
  next = q.next ∙ p.next;
  tables = λ zone uid. q.tables zone uid ∙ p.tables zone uid;
  up = λ a s e.
      let (s1, e1, (i1, z1, g1, h1)) = p.up a s e in
      let (s2, e2, (i2, z2, g2, h2)) = q.up a s1 e1 in
      (s2, e2, (i2 ∙ i1, z2 ∙ z1, g2 ∙ g1, λ t. h2 (h1 t)));
}

pub Good-trans : (u v w : World.World) → Good u v → Good v w → Good u w
Good-trans u v w (_, p) (well, q) = (well, Keeps-trans u v w p q)

-- A session of a table is found under its own zone and role id.
pub find_session-own :
    (w : World.World) (zone uid a : ℕ) (s : Session)
    → s.uid ≡ uid
    → s.zone ≡ zone
    → find_session w zone uid ≡ some a
    → find_session w s.zone s.uid ≡ some a
find_session-own w zone uid a s of_uid of_zone has =
    ap (λ z. find_session w z s.uid) of_zone ∙ ap (find_session w zone) of_uid ∙ has
