-- ===== src/Zone/Stopping.antt =====
-- StopSession and CreateSession of rgtd/zone/account/SessionMgr.cpp, and the messages of a gate
-- (rgtd/zone/ZoneAgentMgr.cpp), end in a well-formed world: no null pointer and no
-- SessionPtr of a missing session is followed.
use playground.Prelude.{
  ℕ, ◌≡◌, refl, sym, ap, ◌∙◌, true, false, ◌&&◌, none, some, arith, ◌==◌, if◌then◌else◌, Bool-cases,
  Option-cases, inl, inr, ◌⊎◌,
}
use playground.Prelude.Map.{lookup, insert, lookup-insert}
use playground.Prelude.Words.{ℤ, minus_one}
use playground.GateMsg.{GateSsMsg}
use playground.Zone.World
use playground.Zone.World.{
  SessionState, loading, creating, playing, offline, kicking, Role, PlayerAgent, Session, running,
  getting_role, got, detached, Env, Step,
}
use playground.Zone.Session
use playground.Zone.Session.{put, set_state, new_session, response_client, attach_player_agent}
use playground.Zone.Login.{wait, finish, do_out, login, login_co, login_ok}
use playground.Zone.SessionMgr.{
  sessions, find_session, set_sessions, is_of, stop_session, renew, create_session, delete_session,
}
use playground.Zone.Kept.{find_session-own, IsWell}
use playground.Zone.Keeping.{kick-Good}
use playground.Zone.Total.{IsKicked, kick_total}
use playground.Zone.Tables.{find_session-delete_session, made}

login_ok_total :
    (env : Env) (w : World.World) (a coid : ℕ) (role : Role) (s : Session)
    → lookup a w.store ≡ some s
    → (w' : World.World) × (login_ok env w a coid (some role) ≡ some w')
unfolding login_ok
login_ok_total env w a coid role s found =
    let player : PlayerAgent = record { role = role; from_db = true } in
    (
      finish (attach_player_agent w a (record s { state = playing }) player) coid,
      rw (found, login_ok) refl,
    )

login_co_total :
    (env : Env) (w : World.World) (a coid : ℕ) (s : Session)
    → lookup a w.store ≡ some s
    → (w' : World.World) × (login_co env w a coid ≡ some w')
unfolding login_co
login_co_total env w a coid s found =
    let s' = record s { state = loading } in
    let w1 = set_state w a s loading in
    let here : lookup a w1.store ≡ some s' = ground (arith, lookup-insert a a s' w.store) in
    elim (Option-cases (env.find_role_object s.uid)) [
      | inr (role, e) ↦
          let (w', ok) = login_ok_total env w1 a coid role s' here in
          (w', rw (found, login_co, e) ok)
      | inl n ↦ elim (Bool-cases env.accepts_get) [
        | inl t ↦
            (wait (do_out w1 (got s.uid)) coid (getting_role a), rw (found, login_co, n, t) refl)
        | inr f ↦ (finish w1 coid, rw (found, login_co, n, f) refl)
      ]
    ]

pub login_total :
    (env : Env) (w : World.World) (a : ℕ) (s : Session)
    → lookup a w.store ≡ some s
    → (ret : ℤ) × (w' : World.World) × (login env w a ≡ some (ret, w'))
unfolding login
login_total env w a s found =
    let coid = env.co.create w.coroutines in
    let (w', e) = login_co_total env (wait w coid running) a coid s found in
    (env.co.resumed coid, w', rw (e, login) refl)

delete_session-IsKicked :
    (w : World.World) (zone uid a : ℕ) → IsKicked w a → IsKicked (delete_session w zone uid) a
unfolding delete_session
delete_session-IsKicked w zone uid a is = is

-- In a well-formed world StopSession ends. It returns -1 and changes nothing, and no session under
-- the role id is of this gate and index, or there is such a session, and afterwards that session
-- is being kicked, no session is found under the role id, and under every other role id and in
-- every other zone the same session is found as before.
pub stop_session_lem :
    (env : Env) (w : World.World) (zone gateid idx uid : ℕ)
    → IsWell w
    → ((stop_session env zone gateid idx uid w ≡ some (minus_one, w))
        × ((a : ℕ) (s : Session)
            → find_session w zone uid ≡ some a
            → lookup a w.store ≡ some s
            → is_of s gateid idx ≡ false))
      ⊎ ((a : ℕ) × (s : Session) × (ret : ℤ) × (w' : World.World) × (find_session w zone uid
            ≡ some a)
          × (lookup a w.store ≡ some s)
          × (is_of s gateid idx ≡ true)
          × (stop_session env zone gateid idx uid w ≡ some (ret, w'))
          × IsKicked w' a
          × ((z u : ℕ)
              → find_session w' z u
                ≡ (if (zone == z) && (uid == u) then none else find_session w z u)))
unfolding stop_session
stop_session_lem env w zone gateid idx uid well = elim (Option-cases (find_session w zone uid)) [
  | inl n ↦ inl (rw (n, stop_session) refl, λ a s e _. absurd (cc (n, e)))
  | inr (a, has) ↦
      let (s, found, of_uid, of_zone) = well.found zone uid a has in
      elim (Bool-cases (is_of s gateid idx)) [
        | inr f ↦ inl (
          rw (has, stop_session, found, f) refl,
          λ b t e l.
              let same_a : a ≡ b = cc (has, e) in
              let same : s ≡ t = cc (found, l, same_a) in
              ap (λ x. is_of x gateid idx) (sym same) ∙ f,
        )
        | inl t ↦
            let own = find_session-own w zone uid a s of_uid of_zone has in
            let (ret, w1, kicks, is) = kick_total env w a s well found own in
            let good1 = kick-Good env w w1 a ret well kicks in
            inr (
              a,
              s,
              ret,
              delete_session w1 zone uid,
              has,
              found,
              t,
              rw (has, stop_session, found, t, kicks) refl,
              delete_session-IsKicked w1 zone uid a is,
              λ z u.
                  find_session-delete_session w1 zone uid z u
                  ∙ ap (λ x. if (zone == z) && (uid == u) then none else x) (good1.1.tables z u),
            )
      ]
]

pub renew_total :
    (env : Env) (w : World.World) (a uid : ℕ) (ggc : GateSsMsg) (s : Session)
    → IsWell w
    → lookup a w.store ≡ some s
    → find_session w s.zone s.uid ≡ some a
    → (ret : ℤ) × (w' : World.World) × (renew env a uid ggc w ≡ some (ret, w'))
unfolding renew
renew_total env w a uid ggc s well found has =
    let (r, w1, kicks, (s1, found1, _)) = kick_total env w a s well found has in
    let s' = Session.init uid ggc s1 in
    let here : lookup a (insert a s' w1.store) ≡ some s' =
      ground (arith, lookup-insert a a s' w1.store) in
    let (ret, w', e) = login_total env (put w1 a s') a s' here in
    (ret, w', rw (kicks, renew, found1) e)

pub create_session_total :
    (env : Env) (w : World.World) (zone uid gateid : ℕ) (ggc : GateSsMsg)
    → IsWell w
    → (ret : ℤ) × (w' : World.World) × (create_session env zone uid gateid ggc w ≡ some (ret, w'))
unfolding create_session
create_session_total env w zone uid gateid ggc well =
    elim (Option-cases (find_session w zone uid)) [
      | inr (a, has) ↦
          let (s, found, of_uid, of_zone) = well.found zone uid a has in
          let own = find_session-own w zone uid a s of_uid of_zone has in
          let (ret, w', e) = renew_total env w a uid ggc s well found own in
          (ret, w', rw (has, create_session) e)
      | inl n ↦
          let a = w.next_address in
          let s = Session.init uid ggc (new_session zone gateid) in
          let w1 = made w s in
          let here : lookup a w1.store ≡ some s = ground (arith, lookup-insert a a s w.store) in
          let (ret, w', e) =
            login_total env (set_sessions w1 zone (insert uid (some a) (sessions w1 zone))) a s
              here in
          (ret, w', rw (n, create_session) e)
    ]
