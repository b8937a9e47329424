-- ===== src/Zone/SessionMgr.antt =====
-- rgtd/zone/account/SessionMgr.cpp: the table of sessions of one zone. A null SessionPtr is not
-- found.
use playground.Prelude.{ℕ, ◌+◌, Bool, ◌&&◌, [], Option, none, some, ◌==◌, if◌then◌else◌}
use playground.Prelude.Map.{Map, lookup, insert, erase}
use playground.Prelude.Words.{minus_one}
use playground.GateMsg.{GateSsMsg}
use playground.Zone.World
use playground.Zone.World.{Session, Env, Step}
use playground.Zone.Session
use playground.Zone.Session.{new_session, get_idx, put}
use playground.Zone.Login.{kick, login}

-- `m_mpSessions` of the SessionMgr of the zone.
unfoldable pub sessions : World.World → ℕ → Map (Option ℕ)
sessions w zone = elim (lookup zone w.agents) [ none ↦ [] | some table ↦ table ]

abbrev pub set_sessions : World.World → ℕ → Map (Option ℕ) → World.World
set_sessions w zone table = record w { agents = insert zone table w.agents }

unfoldable pub find_session : World.World → ℕ → ℕ → Option ℕ
find_session w zone uid = elim (lookup uid (sessions w zone)) [ none ↦ none | some ptr ↦ ptr ]

-- DeleteSession. The session itself lives on, since a coroutine may hold its SessionPtr.
unfoldable pub delete_session : World.World → ℕ → ℕ → World.World
delete_session w zone uid = set_sessions w zone (erase uid (sessions w zone))

abbrev pub is_of : Session → ℕ → ℕ → Bool
is_of s gateid idx = (get_idx s == idx) && (s.gate == gateid)

unfoldable pub stop_session : Env → ℕ → ℕ → ℕ → ℕ → Step
stop_session env zone gateid idx uid w = elim (find_session w zone uid) [
  | none ↦ some (minus_one, w)
  | some a ↦ elim (lookup a w.store) [
    | none ↦ none
    | some s ↦
        if is_of s gateid idx
        then (elim (kick env w a) [
          | none ↦ none
          | some (ret, w') ↦ some (ret, delete_session w' zone uid)
        ])
        else some (minus_one, w)
  ]
]

-- The branch of CreateSession for an old session: it keeps its gate.
unfoldable pub renew : Env → ℕ → ℕ → GateSsMsg → Step
renew env a uid ggc w = elim (kick env w a) [
  | none ↦ none
  | some (_, w') ↦ elim (lookup a w'.store) [
    | none ↦ none
    | some s ↦ login env (put w' a (Session.init uid ggc s)) a
  ]
]

unfoldable pub create_session : Env → ℕ → ℕ → ℕ → GateSsMsg → Step
create_session env zone uid gateid ggc w = elim (find_session w zone uid) [
  | some a ↦ renew env a uid ggc w
  | none ↦
      let a = w.next_address in
      let made =
        put (record w { next_address = a + 1 }) a
          (Session.init uid ggc (new_session zone gateid)) in
      login env (set_sessions made zone (insert uid (some a) (sessions made zone))) a
]
