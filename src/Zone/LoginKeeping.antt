-- ===== src/Zone/LoginKeeping.antt =====
-- What the coroutine Login (rgtd/zone/account/LoginLogic.cpp) and the answers of the database keep
-- of a well-formed world.
use mathlib.Core.Path.{subst}
use playground.Prelude.{
  ◌++◌, [], ◌∷◌, ℕ, ◌≡◌, refl, true, false, Option, none, some, arith, Bool-cases, Option-cases,
  inl, inr,
}
use playground.Prelude.Map.{lookup, lookup-insert}
use playground.Prelude.Words.{ℤ}
use playground.Zone.World
use playground.Zone.World.{
  SessionState, loading, creating, playing, offline, kicking, Role, fresh, PlayerAgent, Session,
  Waiting, running, getting_role, inserting_role, saving_role, Effect, born, got, inserted, updated,
  attached, detached, posted, Env,
}
use playground.Zone.Session.{set_state, put, let_go, attach_player_agent}
use playground.Zone.Login.{wait, finish, do_out, login_ok, login_new, login_co, login}
use playground.Zone.Kept.{IsWell, Good, has_player, needs_player, Good-trans}
use playground.Zone.Primitives.{do_out-Good, outs-Good, finish-Good, wait-Good, put-Good}
use playground.Zone.Keeping.{kick_and_finish-Good, wait_running-Good}

-- A session's player may be attached when the session needs one or not.
attach_player_agent-Good :
    (w : World.World) (a : ℕ) (s : Session) (st : SessionState) (player : PlayerAgent)
    → lookup a w.store ≡ some s
    → IsWell w
    → Good w (attach_player_agent w a (record s { state = st }) player)
unfolding has_player
attach_player_agent-Good w a s st player found well =
    let s' = record s { state = st; player = some player } in
    let w1 = put w a s' in
    let seen = let_go s ++ attached player.role ∷ [] in
    let good1 = put-Good w a s s' found (refl, refl, refl, λ p. refl) (λ p. refl) well in
    Good-trans w w1 (record w1 { out = w1.out ++ seen }) good1 (outs-Good w1 seen good1.0)

pub login_ok-Good :
    (env : Env) (w w' : World.World) (a coid : ℕ) (role : Option Role)
    → IsWell w
    → login_ok env w a coid role ≡ some w'
    → Good w w'
unfolding login_ok
login_ok-Good env w w' a coid none well e = kick_and_finish-Good env w w' a coid well e
login_ok-Good env w w' a coid (some role) well e = elim (Option-cases (lookup a w.store)) [
  | inl n ↦ absurd (cc (rw (n, login_ok) at e))
  | inr (s, found) ↦
      let player : PlayerAgent = record { role = role; from_db = true } in
      let w1 = attach_player_agent w a (record s { state = playing }) player in
      let good1 = attach_player_agent-Good w a s playing player found well in
      subst (Good w) (cc (rw (found, login_ok) at e))
        (Good-trans w w1 (finish w1 coid) good1 (finish-Good w1 coid good1.0))
]

pub login_new-Good :
    (env : Env) (w w' : World.World) (a coid : ℕ)
    → IsWell w
    → login_new env w a coid ≡ some w'
    → Good w w'
unfolding login_new has_player
login_new-Good env w w' a coid well e = elim (Option-cases (lookup a w.store)) [
  | inl n ↦ absurd (cc (rw (n, login_new) at e))
  | inr (s, found) ↦
      let role = fresh s.uid in
      let player : PlayerAgent = record { role = role; from_db = false } in
      let w0 = attach_player_agent w a (record s { state = creating }) player in
      let w1 = do_out w0 (born role) in
      let good0 = attach_player_agent-Good w a s creating player found well in
      let good1 = Good-trans w w0 w1 good0 (do_out-Good w0 (born role) good0.0) in
      elim (Bool-cases env.accepts_insert) [
        | inr f ↦
            Good-trans w w1 w' good1
              (kick_and_finish-Good env w1 w' a coid good1.0 (simp (found, login_new, f) at e))
        | inl t ↦
            let w2 = do_out w1 (inserted role) in
            let good2 = do_out-Good w1 (inserted role) good1.0 in
            let s' = record s { state = creating; player = some player } in
            let there : lookup a w2.store ≡ some s' =
              ground (arith, lookup-insert a a s' w.store) in
            let good3 =
              wait-Good w2 coid (inserting_role a) (λ b at. (s', cc (there, at), λ p. refl))
                good2.0 in
            subst (Good w) (cc (rw (found, login_new, t) at e)) (
              Good-trans w w1 (wait w2 coid (inserting_role a)) good1
                (Good-trans w1 w2 (wait w2 coid (inserting_role a)) good2 good3))
      ]
]

login_co-Good :
    (env : Env) (w w' : World.World) (a coid : ℕ)
    → IsWell w
    → login_co env w a coid ≡ some w'
    → Good w w'
unfolding login_co needs_player has_player
login_co-Good env w w' a coid well e = elim (Option-cases (lookup a w.store)) [
  | inl n ↦ absurd (cc (rw (n, login_co) at e))
  | inr (s, found) ↦
      let w1 = set_state w a s loading in
      let good1 =
        put-Good w a s (record s { state = loading }) found (refl, refl, refl, λ p. p)
          (λ p. absurd (cc p)) well in
      elim (Option-cases (env.find_role_object s.uid)) [
        | inr (role, has) ↦
            Good-trans w w1 w' good1
              (login_ok-Good env w1 w' a coid (some role) good1.0 (rw (found, login_co, has) at e))
        | inl none_yet ↦ elim (Bool-cases env.accepts_get) [
          | inr f ↦
              subst (Good w) (cc (rw (found, login_co, none_yet, f) at e))
                (Good-trans w w1 (finish w1 coid) good1 (finish-Good w1 coid good1.0))
          | inl t ↦
              let w2 = do_out w1 (got s.uid) in
              let good2 = do_out-Good w1 (got s.uid) good1.0 in
              let s' = record s { state = loading } in
              let there : lookup a w2.store ≡ some s' =
                ground (arith, lookup-insert a a s' w.store) in
              let good3 =
                wait-Good w2 coid (getting_role a)
                  (λ b at. (s', cc (there, at), λ p. absurd (cc p))) good2.0 in
              subst (Good w) (cc (rw (found, login_co, none_yet, t) at e)) (
                Good-trans w w1 (wait w2 coid (getting_role a)) good1
                  (Good-trans w1 w2 (wait w2 coid (getting_role a)) good2 good3))
        ]
      ]
]

pub login-Good :
    (env : Env) (w w' : World.World) (a : ℕ) (ret : ℤ)
    → IsWell w
    → login env w a ≡ some (ret, w')
    → Good w w'
unfolding login
login-Good env w w' a ret well e =
    let coid = env.co.create w.coroutines in
    let w1 = wait w coid running in
    let good1 = wait_running-Good w coid well in
    elim (Option-cases (login_co env w1 a coid)) [
      | inl n ↦ absurd (cc (rw (n, login) at e))
      | inr (w2, goes) ↦
          subst (Good w) (cc (rw (goes, login) at e))
            (Good-trans w w1 w2 good1 (login_co-Good env w1 w2 a coid good1.0 goes))
    ]
