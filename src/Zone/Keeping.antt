-- ===== src/Zone/Keeping.antt =====
-- What the coroutines that log a session in and out (rgtd/zone/account/LoginLogic.cpp and
-- Session::Kick) keep of a well-formed world.
use mathlib.Core.Path.{subst}
use playground.Prelude.{
  ℕ, ◌≡◌, refl, ap, ◌∙◌, true, List, [], ◌∷◌, Option, none, some, length, Bool-cases, Option-cases,
  inl, inr,
}
use playground.Prelude.Map.{lookup}
use playground.Prelude.Words.{ℤ}
use playground.Channel.{send_to_agent}
use playground.GateMsg.{EventType, event_close, close_by_default}
use playground.Zone.World
use playground.Zone.World.{
  SessionState, loading, creating, playing, offline, kicking, Role, fresh, PlayerAgent, Session,
  Waiting, running, getting_role, inserting_role, saving_role, Effect, born, got, inserted, updated,
  attached, detached, posted, Env,
}
use playground.Zone.Session.{set_state, response, response_client}
use playground.Zone.Login.{
  wait, finish, do_out, get_session, try_save, logout_in, logout, kicked, kick, detach,
  kick_and_finish, is_kicking,
}
use playground.Zone.Kept.{IsWell, Good, has_player, needs_player, Keeps-refl, Good-trans}
use playground.Zone.Primitives.{do_out-Good, finish-Good, wait-Good, put-Good, get_session-Good}

pub response_client-Good :
    (env : Env) (w : World.World) (s : Session) (event : EventType) (param : ℕ)
    (payload : List (List ℕ))
    → IsWell w
    → Good w (response_client env w s event param payload).1
unfolding response_client
response_client-Good env w s event param payload well =
    let head = env.codec.encode (response s event param) in
    elim (Option-cases (send_to_agent env.channels s.gate (head ∷ payload) (length head))) [
      | inl e ↦ rw (e, response_client) (well, Keeps-refl w)
      | inr (bytes, e) ↦ rw (e, response_client) (do_out-Good w (posted s.gate bytes) well)
    ]

response_client-store :
    (env : Env) (w : World.World) (s : Session) (event : EventType) (param : ℕ)
    (payload : List (List ℕ))
    → (response_client env w s event param payload).1.store ≡ w.store
unfolding response_client
response_client-store env w s event param payload =
    let head = env.codec.encode (response s event param) in
    elim (Option-cases (send_to_agent env.channels s.gate (head ∷ payload) (length head))) [
      | inl e ↦ rw (e, response_client) refl
      | inr (bytes, e) ↦ rw (e, response_client) refl
    ]

pub wait_running-Good : (w : World.World) (coid : ℕ) → IsWell w → Good w (wait w coid running)
wait_running-Good w coid = wait-Good w coid running (λ a e. absurd (cc e))

pub try_save-Good :
    (env : Env) (w w' : World.World) (a coid retry : ℕ)
    → IsWell w
    → try_save env w a coid retry ≡ some w'
    → Good w w'
unfolding try_save has_player
try_save-Good env w w' a coid retry well e = elim (Option-cases (lookup a w.store)) [
  | inl n ↦ absurd (cc (rw (n, try_save) at e))
  | inr (s, found) ↦ elim (Option-cases s.player) [
    | inl n ↦ absurd (cc (rw (found, try_save, n) at e))
    | inr (player, has) ↦ elim (Bool-cases env.accepts_update) [
      | inr f ↦
          let same : finish w coid ≡ w' = cc (rw (found, try_save, has, f) at e) in
          subst (Good w) same (finish-Good w coid well)
      | inl t ↦
          let asked = do_out w (updated player.role) in
          let same : wait asked coid (saving_role a retry) ≡ w' =
            cc (rw (found, try_save, has, t) at e) in
          let good = do_out-Good w (updated player.role) well in
          subst (Good w) same (
            Good-trans w asked (wait asked coid (saving_role a retry)) good (
              wait-Good asked coid (saving_role a retry)
                (λ b at. (s, cc (found, at), λ p. rw (has, has_player) refl)) good.0))
    ]
  ]
]

logout_in-Good :
    (env : Env) (w w' : World.World) (a : ℕ) (s : Session) (st : SessionState)
    → IsWell w
    → lookup a w.store ≡ some s
    → s.state ≡ st
    → logout_in env w a s st ≡ some w'
    → Good w w'
unfolding logout_in needs_player has_player
logout_in-Good env w w' a s playing well found at e =
    let coid = env.co.create w.coroutines in
    let w1 = set_state w a s offline in
    let has : has_player s ≡ true = well.players a s found (ap needs_player at) in
    let good1 =
      put-Good w a s (record s { state = offline }) found (refl, refl, refl, λ p. p) (λ _. has)
        well in
    let good2 = wait_running-Good w1 coid good1.0 in
    let good3 = try_save-Good env (wait w1 coid running) w' a coid 3 good2.0 e in
    Good-trans w w1 w' good1 (Good-trans w1 (wait w1 coid running) w' good2 good3)
logout_in-Good env w w' a s SessionState.init well found at e =
    subst (Good w) (cc e) (well, Keeps-refl w)
logout_in-Good env w w' a s loading well found at e = subst (Good w) (cc e) (well, Keeps-refl w)
logout_in-Good env w w' a s creating well found at e = subst (Good w) (cc e) (well, Keeps-refl w)
logout_in-Good env w w' a s offline well found at e = subst (Good w) (cc e) (well, Keeps-refl w)
logout_in-Good env w w' a s kicking well found at e = subst (Good w) (cc e) (well, Keeps-refl w)

pub logout-Good :
    (env : Env) (w w' : World.World) (ptr : Option ℕ)
    → IsWell w
    → logout env w ptr ≡ some w'
    → Good w w'
unfolding logout
logout-Good env w w' none well e = absurd (cc e)
logout-Good env w w' (some a) well e = elim (Option-cases (lookup a w.store)) [
  | inl n ↦ absurd (cc (rw (n, logout) at e))
  | inr (s, found) ↦ logout_in-Good env w w' a s s.state well found refl (rw (found, logout) at e)
]

pub detach-Good : (w : World.World) (s : Session) → IsWell w → Good w (detach w s)
detach-Good w s well = elim (Option-cases s.player) [
  | inl n ↦ rw n (well, Keeps-refl w)
  | inr (player, has) ↦ rw has (do_out-Good w (detached player.role) well)
]

kicked-Good :
    (env : Env) (w w' : World.World) (a : ℕ) (ret : ℤ)
    → IsWell w
    → kicked env w a ≡ some (ret, w')
    → Good w w'
unfolding kicked needs_player has_player
kicked-Good env w w' a ret well e = elim (Option-cases (lookup a w.store)) [
  | inl n ↦ absurd (cc (rw (n, kicked) at e))
  | inr (s, found) ↦
      let w1 = (response_client env w s event_close close_by_default []).1 in
      let good1 = response_client-Good env w s event_close close_by_default [] well in
      let same : set_state w1 a s kicking ≡ w' = cc (rw (found, kicked) at e) in
      let still =
        ap (lookup a) (response_client-store env w s event_close close_by_default []) ∙ found in
      let good2 =
        put-Good w1 a s (record s { state = kicking }) still (refl, refl, refl, λ p. p)
          (λ p. absurd (cc p)) good1.0 in
      subst (Good w) same (Good-trans w w1 (set_state w1 a s kicking) good1 good2)
]

pub kick-Good :
    (env : Env) (w w' : World.World) (a : ℕ) (ret : ℤ)
    → IsWell w
    → kick env w a ≡ some (ret, w')
    → Good w w'
unfolding kick
kick-Good env w w' a ret well e = elim (Option-cases (lookup a w.store)) [
  | inl n ↦ absurd (cc (rw (n, kick) at e))
  | inr (s, found) ↦ elim (Bool-cases (is_kicking s.state)) [
    | inl t ↦ subst (Good w) (cc (rw (found, kick, t) at e)) (well, Keeps-refl w)
    | inr f ↦
        let w1 = detach w s in
        let (ptr, w2) = get_session w1 s.zone s.uid in
        let good1 = detach-Good w s well in
        let good2 = get_session-Good w1 s.zone s.uid good1.0 in
        elim (Option-cases (logout env w2 ptr)) [
          | inl n ↦ absurd (cc (rw (found, kick, f, n) at e))
          | inr (w3, left) ↦
              let good3 = logout-Good env w2 w3 ptr good2.0 left in
              let good4 = kicked-Good env w3 w' a ret good3.0 (rw (found, kick, f, left) at e) in
              Good-trans w w1 w' good1 (Good-trans w1 w2 w' good2 (Good-trans w2 w3 w' good3 good4))
        ]
  ]
]

pub kick_and_finish-Good :
    (env : Env) (w w' : World.World) (a coid : ℕ)
    → IsWell w
    → kick_and_finish env w a coid ≡ some w'
    → Good w w'
kick_and_finish-Good env w w' a coid well e = elim (Option-cases (kick env w a)) [
  | inl n ↦ absurd (cc (rw (n, kick_and_finish) at e))
  | inr ((ret, w1), kicks) ↦
      let good1 = kick-Good env w w1 a ret well kicks in
      subst (Good w) (cc (rw (kicks, kick_and_finish) at e))
        (Good-trans w w1 (finish w1 coid) good1 (finish-Good w1 coid good1.0))
]
