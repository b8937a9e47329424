-- ===== src/Zone/Login.antt =====
-- rgtd/zone/account/LoginLogic.cpp and Session::Kick: the coroutines that log a session in and out.
-- A coroutine runs until it waits for the database; `resume_role` takes it on with the answer. The
-- requests are those of rgtd/zone/DBProxy.cpp.
use playground.Prelude.{
  ℕ, ◌-◌, Bool, true, false, [], ◌∷◌, ◌++◌, Option, none, some, ltb, ◌==◌, if◌then◌else◌,
}
use playground.Prelude.Map.{lookup, insert, erase}
use playground.Prelude.Words.{ℤ, pos, negsuc, minus_one}
use playground.GateMsg.{event_close, close_by_default}
use playground.Zone.World
use playground.Zone.World.{
  SessionState, loading, creating, playing, offline, kicking, Role, fresh, PlayerAgent, Session,
  Waiting, running, getting_role, inserting_role, saving_role, Effect, detached, born, got,
  inserted, updated, Env, Step,
}
use playground.Zone.Session.{set_state, attach_player_agent, response_client}

-- DATA_OK and DATA_NO_EXISTS
abbrev pub data_ok : ℕ
data_ok = 0

abbrev pub data_no_exists : ℕ
data_no_exists = 1

abbrev pub wait : World.World → ℕ → Waiting → World.World
wait w coid k = record w { coroutines = insert coid k w.coroutines }

abbrev pub finish : World.World → ℕ → World.World
finish w coid = record w { coroutines = erase coid w.coroutines }

abbrev pub do_out : World.World → Effect → World.World
do_out w e = record w { out = w.out ++ e ∷ [] }

-- GetSession: where there is none, `m_mpSessions[0]`, which may make a null entry.
unfoldable pub get_session : World.World → ℕ → ℕ → Option ℕ × World.World
get_session w zone uid = elim (lookup zone w.agents) [
  | none ↦ (none, w)
  | some table ↦ elim (lookup uid table) [
    | some ptr ↦ (ptr, w)
    | none ↦ elim (lookup 0 table) [
      | some ptr ↦ (ptr, w)
      | none ↦ (none, record w { agents = insert zone (insert 0 none table) w.agents })
    ]
  ]
]

-- The coroutine Logout from TRY_SAVE_PLAYER on: it waits, or it ends.
unfoldable pub try_save : Env → World.World → ℕ → ℕ → ℕ → Option World.World
try_save env w a coid retry = elim (lookup a w.store) [
  | none ↦ none
  | some s ↦ elim s.player [
    | none ↦ none
    | some player ↦
        if env.accepts_update
        then some (wait (do_out w (updated player.role)) coid (saving_role a retry))
        else some (finish w coid)
  ]
]

-- Logout of a session in a state.
unfoldable pub logout_in : Env → World.World → ℕ → Session → SessionState → Option World.World
logout_in env w a s playing =
    let coid = env.co.create w.coroutines in
    try_save env (wait (set_state w a s offline) coid running) a coid 3
logout_in env w a s SessionState.init = some w
logout_in env w a s loading = some w
logout_in env w a s creating = some w
logout_in env w a s offline = some w
logout_in env w a s kicking = some w

-- LoginLogic::Logout.
unfoldable pub logout : Env → World.World → Option ℕ → Option World.World
logout env w none = none
logout env w (some a) = elim (lookup a w.store) [
  | none ↦ none
  | some s ↦ logout_in env w a s s.state
]

abbrev pub is_kicking : SessionState → Bool
is_kicking kicking = true
is_kicking _ = false

abbrev pub detach : World.World → Session → World.World
detach w s = elim s.player [ none ↦ w | some player ↦ do_out w (detached player.role) ]

-- The end of Kick, which reads the session again: the logout may have changed it.
unfoldable pub kicked : Env → World.World → ℕ → Option (ℤ × World.World)
kicked env w a = elim (lookup a w.store) [
  | none ↦ none
  | some s ↦
      let (_, w') = response_client env w s event_close close_by_default [] in
      some (pos 0, set_state w' a s kicking)
]

-- Session::Kick
unfoldable pub kick : Env → World.World → ℕ → Option (ℤ × World.World)
kick env w a = elim (lookup a w.store) [
  | none ↦ none
  | some s ↦
      if is_kicking s.state
      then some (minus_one, w)
      else (let (ptr, w') = get_session (detach w s) s.zone s.uid in
          elim (logout env w' ptr) [ none ↦ none | some w'' ↦ kicked env w'' a ])
]

abbrev pub kick_and_finish : Env → World.World → ℕ → ℕ → Option World.World
kick_and_finish env w a coid = elim (kick env w a) [
  | none ↦ none
  | some (_, w') ↦ some (finish w' coid)
]

-- The branch of the coroutine Login for DATA_OK, with the role that is found or not.
unfoldable pub login_ok : Env → World.World → ℕ → ℕ → Option Role → Option World.World
login_ok env w a coid none = kick_and_finish env w a coid
login_ok env w a coid (some role) = elim (lookup a w.store) [
  | none ↦ none
  | some s ↦
      let player : PlayerAgent = record { role = role; from_db = true } in
      some (finish (attach_player_agent w a (record s { state = playing }) player) coid)
]

-- The branch for DATA_NO_EXISTS: CreateRole, and the request to insert it.
unfoldable pub login_new : Env → World.World → ℕ → ℕ → Option World.World
login_new env w a coid = elim (lookup a w.store) [
  | none ↦ none
  | some s ↦
      let role = fresh s.uid in
      let player : PlayerAgent = record { role = role; from_db = false } in
      let w1 =
        do_out (attach_player_agent w a (record s { state = creating }) player) (born role) in
      if env.accepts_insert
      then some (wait (do_out w1 (inserted role)) coid (inserting_role a))
      else kick_and_finish env w1 a coid
]

-- The coroutine Login up to the answer of the database.
unfoldable pub login_co : Env → World.World → ℕ → ℕ → Option World.World
login_co env w a coid = elim (lookup a w.store) [
  | none ↦ none
  | some s ↦
      let w1 = set_state w a s loading in
      elim (env.find_role_object s.uid) [
        | some role ↦ login_ok env w1 a coid (some role)
        | none ↦
            if env.accepts_get
            then some (wait (do_out w1 (got s.uid)) coid (getting_role a))
            else some (finish w1 coid)
      ]
]

-- LoginLogic::Login
unfoldable pub login : Env → World.World → ℕ → Option (ℤ × World.World)
login env w a =
    let coid = env.co.create w.coroutines in
    elim (login_co env (wait w coid running) a coid) [
      | none ↦ none
      | some w' ↦ some (env.co.resumed coid, w')
    ]

-- The coroutine Login from the answer to GetRole on.
unfoldable pub got_role : Env → World.World → ℕ → ℕ → ℤ → Option World.World
got_role env w a coid (negsuc n) = some (finish w coid)
got_role env w a coid (pos ret) =
    let found = elim (lookup a w.store) as (λ _. Option Role) [
      | none ↦ none
      | some s ↦ env.find_role_object s.uid
    ] in
    if ret == data_ok
    then login_ok env w a coid found
    else if ret == data_no_exists
    then login_new env w a coid
    else kick_and_finish env w a coid

-- The coroutine Login from the answer to InsertRole on.
unfoldable pub inserted_role : Env → World.World → ℕ → ℕ → ℤ → Option World.World
inserted_role env w a coid ret = elim ret [
  | negsuc _ ↦ kick_and_finish env w a coid
  | pos n ↦
      if n == data_ok
      then (elim (lookup a w.store) [
        | none ↦ none
        | some s ↦ some (finish (set_state w a s playing) coid)
      ])
      else kick_and_finish env w a coid
]

-- The coroutine Logout from the answer to UpdateRole on.
unfoldable pub saved_role : Env → World.World → ℕ → ℕ → ℕ → ℤ → Option World.World
saved_role env w a coid retry (negsuc n) = some (finish w coid)
saved_role env w a coid retry (pos n) =
    let left = retry - 1 in
    if n == data_ok
    then some (finish w coid)
    else if ltb 0 left
    then try_save env w a coid left
    else some (finish w coid)

unfoldable pub resume_role : Env → World.World → ℕ → ℤ → Waiting → Option World.World
resume_role env w coid ret running = some w
resume_role env w coid ret (getting_role a) = got_role env w a coid ret
resume_role env w coid ret (inserting_role a) = inserted_role env w a coid ret
resume_role env w coid ret (saving_role a retry) = saved_role env w a coid retry ret

-- DBProxy::CommonCoroutineResume
unfoldable pub common_coroutine_resume : Env → World.World → ℤ → ℕ → Option (ℤ × World.World)
common_coroutine_resume env w ret coid = elim (lookup coid w.coroutines) [
  | none ↦ some (minus_one, w)
  | some k ↦ elim (resume_role env (wait w coid running) coid ret k) [
    | none ↦ none
    | some w' ↦ some (env.co.resumed coid, w')
  ]
]
