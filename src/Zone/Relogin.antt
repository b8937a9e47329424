-- ===== src/Zone/Relogin.antt =====
-- A client that logs in (CreateSession of rgtd/zone/account/SessionMgr.cpp, and the coroutine of
-- rgtd/zone/account/LoginLogic.cpp): for the first time, and again over another gate.
use playground.Prelude.{ℕ, ◌≡◌, ◌≢◌, refl, ap, ◌∙◌, true, false, none, some, arith}
use playground.Prelude.Map.{lookup, insert, lookup-insert}
use playground.Prelude.Words.{ℤ, pos, minus_one}
use playground.GateMsg.{GateSsMsg}
use playground.Zone.World
use playground.Zone.World.{
  SessionState, loading, creating, playing, offline, kicking, Role, PlayerAgent, Session, running,
  getting_role, got, detached, Env, Step,
}
use playground.Zone.Session
use playground.Zone.Session.{put, set_state, new_session, response_client, attach_player_agent}
use playground.Zone.Login.{wait, finish, do_out, login, login_co, login_ok}
use playground.Zone.SessionMgr.{
  sessions, find_session, set_sessions, is_of, stop_session, create_session,
}
use playground.Zone.Kept.{find_session-own, IsWell}
use playground.Zone.Tables.{made, renew-Good}
use playground.Zone.Login.{common_coroutine_resume, got_role, resume_role, data_ok}
use playground.Zone.Tables.{find_session-set_sessions}
use playground.Zone.Stopping.{renew_total}

-- In a well-formed world, where a session is found under a role id and its gate is another than
-- that of a new connection of the same role, CreateSession ends, and afterwards StopSession from
-- the new gate is refused with -1 for every index and changes nothing.
pub create_session-relogin :
    (env : Env) (w : World.World) (zone uid gateid a : ℕ) (ggc : GateSsMsg) (s : Session)
    → IsWell w
    → find_session w zone uid ≡ some a
    → lookup a w.store ≡ some s
    → s.gate ≢ gateid
    → (ret : ℤ) × (w' : World.World) × (create_session env zone uid gateid ggc w ≡ some (ret, w'))
      × ((later : Env) (idx : ℕ) → stop_session later zone gateid idx uid w' ≡ some (minus_one, w'))
unfolding create_session stop_session
create_session-relogin env w zone uid gateid a ggc s well has found other =
    let (t, there, of_uid, of_zone) = well.found zone uid a has in
    let same : t ≡ s = cc (there, found) in
    let own = find_session-own w zone uid a t of_uid of_zone has in
    let (ret, w', e) = renew_total env w a uid ggc t well there own in
    let (_, keeps) = renew-Good env w w' a uid ggc ret (t, there, of_uid) well e in
    let (s', found', (_, _, gates, _)) = keeps.up a t there in
    let gates' : s'.gate ≡ s.gate = gates ∙ ap (λ (x : Session). x.gate) same in
    (
      ret,
      w',
      rw (has, create_session) e,
      λ later idx.
          let off : is_of s' gateid idx ≡ false = ground (arith, gates', other) in
          rw (keeps.tables zone uid ∙ has, stop_session, found', off) refl,
    )

login_co-asks :
    (env : Env) (w : World.World) (a coid : ℕ) (s : Session)
    → lookup a w.store ≡ some s
    → env.find_role_object s.uid ≡ none
    → env.accepts_get ≡ true
    → login_co env w a coid
      ≡ some (wait (do_out (set_state w a s loading) (got s.uid)) coid (getting_role a))
unfolding login_co
login_co-asks env w a coid s found none_yet asks = rw (found, login_co, none_yet) (rw asks refl)

-- Where the role is not in the cache, the coroutine asks the database for it.
login-asks :
    (env : Env) (w : World.World) (a : ℕ) (s : Session)
    → lookup a w.store ≡ some s
    → env.find_role_object s.uid ≡ none
    → env.accepts_get ≡ true
    → let coid = env.co.create w.coroutines in
      login env w a
      ≡ some (
        env.co.resumed coid,
        wait
            (do_out (set_state (wait w coid running) a s loading) (got s.uid))
            coid
            (getting_role a),
      )
unfolding login
login-asks env w a s found none_yet asks =
    let coid = env.co.create w.coroutines in
    rw (login_co-asks env (wait w coid running) a coid s found none_yet asks, login) refl

-- The answer that it is there makes the session play.
resume-plays :
    (env : Env) (w : World.World) (a coid : ℕ) (s : Session) (role : Role)
    → lookup coid w.coroutines ≡ some (getting_role a)
    → lookup a w.store ≡ some s
    → env.find_role_object s.uid ≡ some role
    → common_coroutine_resume env w (pos data_ok) coid
      ≡ some (
        env.co.resumed coid,
        finish
            (attach_player_agent
              (wait w coid running)
              a
              (record s { state = playing })
              (record { role = role; from_db = true }))
            coid,
      )
unfolding common_coroutine_resume resume_role got_role login_ok
resume-plays env w a coid s role waits found has =
    simp (waits, common_coroutine_resume, found, has, login_ok) refl

-- For a role id with no session whose role is not in the cache, if the database takes the request,
-- CreateSession makes a session and lets its coroutine wait; once the database answers that the
-- role is there and it is in the cache, the session is found under the role id, plays, has the
-- role as its player, and has the gate, index and account of the message.
pub create_session-playing :
    (env answer : Env) (w : World.World) (zone uid gateid : ℕ) (ggc : GateSsMsg) (role : Role)
    → find_session w zone uid ≡ none
    → env.find_role_object uid ≡ none
    → env.accepts_get ≡ true
    → answer.find_role_object uid ≡ some role
    → let coid = env.co.create w.coroutines in
      (w1 w2 : World.World) × (create_session env zone uid gateid ggc w
        ≡ some (env.co.resumed coid, w1))
      × (common_coroutine_resume answer w1 (pos data_ok) coid ≡ some (answer.co.resumed coid, w2))
      × (find_session w2 zone uid ≡ some w.next_address)
      × (lookup w.next_address w2.store
          ≡ some (record (Session.init uid ggc (new_session zone gateid)) {
            state = playing;
            player = some record { role = role; from_db = true };
          }))
unfolding create_session find_session sessions
create_session-playing env answer w zone uid gateid ggc role new none_yet asks has =
    let coid = env.co.create w.coroutines in
    let a = w.next_address in
    let s = Session.init uid ggc (new_session zone gateid) in
    let s1 = record s { state = loading } in
    let player : PlayerAgent = record { role = role; from_db = true } in
    let s2 = record s { state = playing; player = some player } in
    let w0 = made w s in
    let wa = set_sessions w0 zone (insert uid (some a) (sessions w0 zone)) in
    let wc = set_state (wait wa coid running) a s loading in
    let w1 = wait (do_out wc (got uid)) coid (getting_role a) in
    let wd = wait w1 coid running in
    let w2 = finish (attach_player_agent wd a (record s1 { state = playing }) player) coid in
    let here : lookup a wa.store ≡ some s = ground (arith, lookup-insert a a s w.store) in
    let here1 : lookup a w1.store ≡ some s1 = ground (arith, lookup-insert a a s1 wa.store) in
    let here2 : lookup a w2.store ≡ some s2 = ground (arith, lookup-insert a a s2 w1.store) in
    let waits : lookup coid w1.coroutines ≡ some (getting_role a) =
      ground (arith, lookup-insert coid coid (getting_role a) wc.coroutines) in
    (
      w1,
      w2,
      rw (new, create_session) (login-asks env wa a s here none_yet asks),
      resume-plays answer w1 a coid s1 role waits here1 has,
      find_session-set_sessions w0 zone uid a zone uid ∙ ground arith,
      here2,
    )
