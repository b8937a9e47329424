-- ===== src/Zone/Total.antt =====
-- The messages of a gate (rgtd/zone/ZoneAgentMgr.cpp) do not fault in a well-formed world: no null
-- pointer and no SessionPtr of a missing session is followed.
use playground.Prelude.{
  ℕ, ◌≡◌, refl, ap, ◌∙◌, true, [], Option, none, some, arith, Bool-cases, Option-cases, inl, inr,
}
use playground.Prelude.Map.{lookup, insert, lookup-insert}
use playground.Prelude.Words.{ℤ, pos, minus_one}
use playground.GateMsg.{event_close, close_by_default}
use playground.Zone.World
use playground.Zone.World.{
  SessionState, loading, creating, playing, offline, kicking, Role, PlayerAgent, Session, running,
  detached, Env, Step,
}
use playground.Zone.Session.{set_state, response_client}
use playground.Zone.Login.{wait, get_session, logout, logout_in, kicked, kick, detach, is_kicking}
use playground.Zone.SessionMgr.{sessions, find_session}
use playground.Zone.Saving.{try_save_lem}
use playground.Zone.Kept.{IsWell, has_player, needs_player}
use playground.Zone.Keeping.{logout-Good, detach-Good}

pub player_of :
    (s : Session) → has_player s ≡ true → (player : PlayerAgent) × (s.player ≡ some player)
unfolding has_player
player_of s has = elim (Option-cases s.player) [
  | inl n ↦ absurd (cc (rw n at has))
  | inr (player, e) ↦ (player, e)
]

logout_in_total :
    (env : Env) (w : World.World) (a : ℕ) (s : Session) (st : SessionState)
    → IsWell w
    → lookup a w.store ≡ some s
    → s.state ≡ st
    → (w' : World.World) × (logout_in env w a s st ≡ some w')
unfolding logout_in needs_player
logout_in_total env w a s playing well found at =
    let (player, has) = player_of s (well.players a s found (ap needs_player at)) in
    let coid = env.co.create w.coroutines in
    let s' = record s { state = offline } in
    let here : lookup a (insert a s' w.store) ≡ some s' =
      ground (arith, lookup-insert a a s' w.store) in
    let (w', e, _) =
      try_save_lem env (wait (set_state w a s offline) coid running) a coid 3 s' player here has in
    (w', e)
logout_in_total env w a s SessionState.init well found at = (w, refl)
logout_in_total env w a s loading well found at = (w, refl)
logout_in_total env w a s creating well found at = (w, refl)
logout_in_total env w a s offline well found at = (w, refl)
logout_in_total env w a s kicking well found at = (w, refl)

-- A session of a table is the one that GetSession gives.
pub get_session-find_session :
    (w : World.World) (zone uid a : ℕ)
    → find_session w zone uid ≡ some a
    → get_session w zone uid ≡ (some a, w)
unfolding get_session find_session sessions lookup
get_session-find_session w zone uid a e = elim (Option-cases (lookup zone w.agents)) [
  | inl n ↦ absurd (cc (rw (n, find_session, sessions) at e))
  | inr (table, t) ↦ elim (Option-cases (lookup uid table)) [
    | inl n ↦ absurd (cc (rw (t, find_session, sessions, n) at e))
    | inr (ptr, p) ↦
        let same : ptr ≡ some a = rw (t, find_session, sessions, p) at e in
        rw (t, get_session, p) (ap (λ x. (x, w)) same)
  ]
]

-- After a Kick the session is being kicked.
abbrev pub IsKicked : World.World → ℕ → Type 0
IsKicked w a = (s : Session) × (lookup a w.store ≡ some s) × (s.state ≡ kicking)

kicked_total :
    (env : Env) (w : World.World) (a : ℕ) (s : Session)
    → lookup a w.store ≡ some s
    → (w' : World.World) × (kicked env w a ≡ some (pos 0, w')) × IsKicked w' a
unfolding kicked
kicked_total env w a s found =
    let w1 = (response_client env w s event_close close_by_default []).1 in
    let s' = record s { state = kicking } in
    (
      set_state w1 a s kicking,
      rw (found, kicked) refl,
      (s', ground (arith, lookup-insert a a s' w1.store), refl),
    )

is_kicking_lem : (st : SessionState) → is_kicking st ≡ true → st ≡ kicking
is_kicking_lem kicking e = refl
is_kicking_lem SessionState.init e = absurd (cc e)
is_kicking_lem loading e = absurd (cc e)
is_kicking_lem creating e = absurd (cc e)
is_kicking_lem playing e = absurd (cc e)
is_kicking_lem offline e = absurd (cc e)

logout_total :
    (env : Env) (w : World.World) (a : ℕ) (s : Session)
    → IsWell w
    → lookup a w.store ≡ some s
    → (w' : World.World) × (logout env w (some a) ≡ some w')
unfolding logout
logout_total env w a s well found =
    let (w', e) = logout_in_total env w a s s.state well found refl in (w', rw (found, logout) e)

-- Kick of a session of a table ends.
pub kick_total :
    (env : Env) (w : World.World) (a : ℕ) (s : Session)
    → IsWell w
    → lookup a w.store ≡ some s
    → find_session w s.zone s.uid ≡ some a
    → (ret : ℤ) × (w' : World.World) × (kick env w a ≡ some (ret, w')) × IsKicked w' a
unfolding kick
kick_total env w a s well found has = elim (Bool-cases (is_kicking s.state)) [
  | inl t ↦ (minus_one, w, rw (found, kick, t) refl, (s, found, is_kicking_lem s.state t))
  | inr f ↦
      let w1 = detach w s in
      let good1 = detach-Good w s well in
      let got = get_session-find_session w1 s.zone s.uid a (good1.1.tables s.zone s.uid ∙ has) in
      let (s1, found1, _) = good1.1.up a s found in
      let (w2, logs) = logout_total env w1 a s1 good1.0 found1 in
      let (s2, found2, _) = (logout-Good env w1 w2 (some a) good1.0 logs).1.up a s1 found1 in
      let (w3, ends, is) = kicked_total env w2 a s2 found2 in
      (
        pos 0,
        w3,
        rw (found, kick, f)
            (ap
                (λ (p : Option ℕ × World.World).
                  elim (logout env p.1 p.0) as (λ _. Option (ℤ × World.World)) [
                    | none ↦ none
                    | some v ↦ kicked env v a
                  ])
                got
              ∙ rw logs ends),
        is,
      )
]
