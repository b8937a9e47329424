-- ===== src/Zone/Dangling.antt =====
-- What becomes of the role of a player who logs in while playing (CreateSession of
-- rgtd/zone/account/SessionMgr.cpp, AttachPlayerAgent of rgtd/zone/account/Session.cpp).
use playground.Prelude.{
  ℕ, ◌≡◌, refl, sym, ap, ◌∙◌, true, List, [], ◌∷◌, ◌++◌, Option, none, some, arith, Bool-cases, inl,
  inr,
}
use playground.Prelude.Map.{lookup, lookup-insert}
use playground.Prelude.Words.{ℤ, pos}
use playground.GateMsg.{GateSsMsg, event_close, close_by_default}
use playground.Zone.World
use playground.Zone.World.{
  SessionState, loading, creating, playing, offline, kicking, Role, PlayerAgent, Session, running,
  saving_role, Effect, attached, detached, released, updated, Env,
}
use playground.Zone.Session
use playground.Zone.Session.{put, set_state, response_client, let_go, attach_player_agent}
use playground.Zone.Login.{
  wait, finish, do_out, try_save, logout, logout_in, detach, kicked, kick, login_ok, login_co,
  login,
}
use playground.Zone.SessionMgr.{find_session, renew, create_session}
use playground.Zone.Kept.{find_session-own, IsWell}
use playground.Zone.Keeping.{detach-Good}
use playground.Zone.Total.{get_session-find_session}

module _ (env : Env) where
  try_save-store :
      (w : World.World) (a coid retry : ℕ) (s : Session) (player : PlayerAgent)
      → lookup a w.store ≡ some s
      → s.player ≡ some player
      → (w' : World.World) × (try_save env w a coid retry ≡ some w') × (w'.store ≡ w.store)
  unfolding try_save
  try_save-store w a coid retry s player found has = elim (Bool-cases env.accepts_update) [
    | inl t ↦ (
      wait (do_out w (updated player.role)) coid (saving_role a retry),
      rw (found, try_save, has, t) refl,
      refl,
    )
    | inr f ↦ (finish w coid, rw (found, try_save, has, f) refl, refl)
  ]

  -- A session that plays has nothing but its state changed by Logout.
  logout-playing :
      (w : World.World) (a : ℕ) (s : Session) (player : PlayerAgent)
      → lookup a w.store ≡ some s
      → s.state ≡ playing
      → s.player ≡ some player
      → (w' : World.World) × (logout env w (some a) ≡ some w')
        × (lookup a w'.store ≡ some (record s { state = offline }))
  unfolding logout logout_in
  logout-playing w a s player found at has =
      let coid = env.co.create w.coroutines in
      let s' = record s { state = offline } in
      let wb = wait (set_state w a s offline) coid running in
      let here : lookup a wb.store ≡ some s' = ground (arith, lookup-insert a a s' w.store) in
      let (w', saves, same) = try_save-store wb a coid 3 s' player here has in
      (w', rw (found, logout) (ap (logout_in env w a s) at ∙ saves), ap (lookup a) same ∙ here)

  kicked-state :
      (w : World.World) (a : ℕ) (s : Session)
      → lookup a w.store ≡ some s
      → (w' : World.World) × (kicked env w a ≡ some (pos 0, w'))
        × (lookup a w'.store ≡ some (record s { state = kicking }))
  unfolding kicked
  kicked-state w a s found =
      let w1 = (response_client env w s event_close close_by_default []).1 in
      let s' = record s { state = kicking } in
      (
        set_state w1 a s kicking,
        rw (found, kicked) refl,
        ground (arith, lookup-insert a a s' w1.store),
      )

  -- Kick keeps the player of a session.
  kick-playing :
      (w : World.World) (a : ℕ) (s : Session) (player : PlayerAgent)
      → IsWell w
      → lookup a w.store ≡ some s
      → find_session w s.zone s.uid ≡ some a
      → s.state ≡ playing
      → s.player ≡ some player
      → (w' : World.World) × (kick env w a ≡ some (pos 0, w'))
        × (lookup a w'.store ≡ some (record s { state = kicking }))
  unfolding kick
  kick-playing w a s player well found own at has =
      let w1 = do_out w (detached player.role) in
      let is : detach w s ≡ w1 =
        ap (λ p. elim p as (λ _. World.World) [ none ↦ w | some q ↦ do_out w (detached q.role) ])
          has in
      let got =
        get_session-find_session (detach w s) s.zone s.uid a
          ((detach-Good w s well).1.tables s.zone s.uid ∙ own) in
      let (w2, logs, found2) = logout-playing w1 a s player found at has in
      let (w3, ends, found3) = kicked-state w2 a (record s { state = offline }) found2 in
      (
        w3,
        simp (found, kick, at)
            (ap
                (λ (p : Option ℕ × World.World).
                  elim (logout env p.1 p.0) as (λ _. Option (ℤ × World.World)) [
                    | none ↦ none
                    | some v ↦ kicked env v a
                  ])
                (got ∙ ap (λ x. (some a, x)) is)
              ∙ rw logs ends),
        found3,
      )

  -- A login whose role is in the cache.
  login-cached :
      (w : World.World) (a : ℕ) (s : Session) (player : PlayerAgent) (role : Role)
      → lookup a w.store ≡ some s
      → s.player ≡ some player
      → env.find_role_object s.uid ≡ some role
      → let coid = env.co.create w.coroutines in
        (w' : World.World) × (login env w a ≡ some (env.co.resumed coid, w'))
        × (w'.out ≡ w.out ++ released player.role ∷ attached role ∷ [])
        × (lookup a w'.store
            ≡ some (record s {
              state = playing;
              player = some (record { role = role; from_db = true });
            }))
  unfolding login login_co login_ok
  login-cached w a s player role found has cached =
      let coid = env.co.create w.coroutines in
      let s1 = record s { state = loading } in
      let w1 = set_state (wait w coid running) a s loading in
      let here : lookup a w1.store ≡ some s1 = ground (arith, lookup-insert a a s1 w.store) in
      let new : PlayerAgent = record { role = role; from_db = true } in
      let s2 = record s { state = playing; player = some new } in
      (
        finish (attach_player_agent w1 a (record s1 { state = playing }) new) coid,
        simp (found, login, login_co, cached) (simp (here, login_ok) refl),
        simp has refl,
        ground (arith, lookup-insert a a s2 w1.store),
      )

  -- In a well-formed world, where a session that plays is found under a role id and the database
  -- agent has the role of its player in its cache, CreateSession for that role id ends. Its last
  -- effects are that the session lets go of its player, whose destructor frees that role unless
  -- the event centre holds the player as well, and that a new player is attached with the very
  -- same role: the session plays with it.
  pub create_session-released :
      (w : World.World) (zone uid gateid a : ℕ) (ggc : GateSsMsg) (s : Session)
      (player : PlayerAgent)
      → IsWell w
      → find_session w zone uid ≡ some a
      → lookup a w.store ≡ some s
      → s.state ≡ playing
      → s.player ≡ some player
      → env.find_role_object uid ≡ some player.role
      → (ret : ℤ) × (w' : World.World) × (s' : Session) × (before : List Effect) × (create_session
            env zone uid gateid ggc w
          ≡ some (ret, w'))
        × (w'.out ≡ before ++ released player.role ∷ attached player.role ∷ [])
        × (lookup a w'.store ≡ some s')
        × (s'.state ≡ playing)
        × (s'.player ≡ some (record { role = player.role; from_db = true }))
  unfolding create_session renew
  create_session-released w zone uid gateid a ggc s player well has found at plays cached =
      let (t, there, of_uid, of_zone) = well.found zone uid a has in
      let same : t ≡ s = cc (there, found) in
      let own =
        find_session-own w zone uid a s (ap (λ (x : Session). x.uid) (sym same) ∙ of_uid)
          (ap (λ (x : Session). x.zone) (sym same) ∙ of_zone) has in
      let (w1, kicks, found1) = kick-playing w a s player well found own at plays in
      let s1 = Session.init uid ggc (record s { state = kicking }) in
      let w2 = put w1 a s1 in
      let here : lookup a w2.store ≡ some s1 = ground (arith, lookup-insert a a s1 w1.store) in
      let (w3, logs, outs, found3) = login-cached w2 a s1 player player.role here plays cached in
      (
        env.co.resumed (env.co.create w2.coroutines),
        w3,
        record s1 {
          state = playing;
          player = some (record { role = player.role; from_db = true });
        },
        w2.out,
        rw (has, create_session) (rw (kicks, renew, found1) logs),
        outs,
        found3,
        refl,
        refl,
      )
