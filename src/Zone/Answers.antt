-- ===== src/Zone/Answers.antt =====
-- What an answer of the database (DBProxy::CommonCoroutineResume of rgtd/zone/DBProxy.cpp) keeps of
-- a well-formed world.
use mathlib.Core.Path.{subst}
use playground.Prelude.{
  ℕ, ◌-◌, ◌≡◌, refl, true, some, ltb, ◌==◌, Bool-cases, Option-cases, inl, inr,
}
use playground.Prelude.Map.{lookup}
use playground.Prelude.Words.{ℤ, pos, negsuc}
use playground.Zone.World
use playground.Zone.World.{
  SessionState, loading, creating, playing, offline, kicking, Role, fresh, PlayerAgent, Session,
  Waiting, running, getting_role, inserting_role, saving_role, Effect, born, got, inserted, updated,
  attached, detached, posted, Env,
}
use playground.Zone.Session.{set_state}
use playground.Zone.Login.{
  wait, finish, got_role, inserted_role, saved_role, resume_role, common_coroutine_resume, data_ok,
  data_no_exists,
}
use playground.Zone.Kept.{IsWell, Good, has_player, address, awaits_player, Keeps-refl, Good-trans}
use playground.Zone.Primitives.{finish-Good, put-Good}
use playground.Zone.Keeping.{try_save-Good, kick_and_finish-Good, wait_running-Good}
use playground.Zone.LoginKeeping.{login_ok-Good, login_new-Good}

got_role-Good :
    (env : Env) (w w' : World.World) (a coid : ℕ) (ret : ℤ)
    → IsWell w
    → got_role env w a coid ret ≡ some w'
    → Good w w'
unfolding got_role
got_role-Good env w w' a coid (negsuc n) well e = subst (Good w) (cc e) (finish-Good w coid well)
got_role-Good env w w' a coid (pos ret) well e = elim (Bool-cases (ret == data_ok)) [
  | inl t ↦ login_ok-Good env w w' a coid _ well (simp (t, got_role) at e)
  | inr f ↦ elim (Bool-cases (ret == data_no_exists)) [
    | inl t ↦ login_new-Good env w w' a coid well (simp (f, got_role, t) at e)
    | inr g ↦ kick_and_finish-Good env w w' a coid well (simp (f, got_role, g) at e)
  ]
]

-- Its player is there by then.
inserted_role-Good :
    (env : Env) (w w' : World.World) (a coid : ℕ) (ret : ℤ)
    → ((s : Session) → lookup a w.store ≡ some s → has_player s ≡ true)
    → IsWell w
    → inserted_role env w a coid ret ≡ some w'
    → Good w w'
unfolding inserted_role has_player
inserted_role-Good env w w' a coid (negsuc n) has well e =
    kick_and_finish-Good env w w' a coid well e
inserted_role-Good env w w' a coid (pos n) has well e = elim (Bool-cases (n == data_ok)) [
  | inr f ↦ kick_and_finish-Good env w w' a coid well (simp (f, inserted_role) at e)
  | inl t ↦ elim (Option-cases (lookup a w.store)) [
    | inl n ↦ absurd (cc (rw (t, inserted_role, n) at e))
    | inr (s, found) ↦
        let w1 = set_state w a s playing in
        let good1 =
          put-Good w a s (record s { state = playing }) found (refl, refl, refl, λ p. p)
            (λ p. has s found) well in
        subst (Good w) (cc (rw (t, inserted_role, found) at e))
          (Good-trans w w1 (finish w1 coid) good1 (finish-Good w1 coid good1.0))
  ]
]

saved_role-Good :
    (env : Env) (w w' : World.World) (a coid retry : ℕ) (ret : ℤ)
    → IsWell w
    → saved_role env w a coid retry ret ≡ some w'
    → Good w w'
unfolding saved_role
saved_role-Good env w w' a coid retry (negsuc n) well e =
    subst (Good w) (cc e) (finish-Good w coid well)
saved_role-Good env w w' a coid retry (pos n) well e = elim (Bool-cases (n == data_ok)) [
  | inl t ↦ subst (Good w) (cc (rw (t, saved_role) at e)) (finish-Good w coid well)
  | inr f ↦ elim (Bool-cases (ltb 0 (retry - 1))) [
    | inl t ↦ try_save-Good env w w' a coid (retry - 1) well (simp (f, saved_role, t) at e)
    | inr g ↦ subst (Good w) (cc (rw (f, saved_role, g) at e)) (finish-Good w coid well)
  ]
]

-- The player that a coroutine waits with is still there.
resume_role-Good :
    (env : Env) (w w' : World.World) (coid : ℕ) (ret : ℤ) (k : Waiting)
    → ((a : ℕ) (s : Session)
        → address k ≡ some a
        → awaits_player k ≡ true
        → lookup a w.store ≡ some s
        → has_player s ≡ true)
    → IsWell w
    → resume_role env w coid ret k ≡ some w'
    → Good w w'
unfolding resume_role
resume_role-Good env w w' coid ret running has well e = subst (Good w) (cc e) (well, Keeps-refl w)
resume_role-Good env w w' coid ret (getting_role a) has well e =
    got_role-Good env w w' a coid ret well e
resume_role-Good env w w' coid ret (inserting_role a) has well e =
    inserted_role-Good env w w' a coid ret (λ s found. has a s refl refl found) well e
resume_role-Good env w w' coid ret (saving_role a retry) has well e =
    saved_role-Good env w w' a coid retry ret well e

pub common_coroutine_resume-Good :
    (env : Env) (w w' : World.World) (coid : ℕ) (ret ret' : ℤ)
    → IsWell w
    → common_coroutine_resume env w ret coid ≡ some (ret', w')
    → Good w w'
unfolding common_coroutine_resume
common_coroutine_resume-Good env w w' coid ret ret' well e =
    elim (Option-cases (lookup coid w.coroutines)) [
      | inl n ↦ subst (Good w) (cc (rw (n, common_coroutine_resume) at e)) (well, Keeps-refl w)
      | inr (k, waits) ↦
          let w1 = wait w coid running in
          let good1 = wait_running-Good w coid well in
          elim (Option-cases (resume_role env w1 coid ret k)) [
            | inl n ↦ absurd (cc (rw (waits, common_coroutine_resume, n) at e))
            | inr (w2, goes) ↦
                let has : (a : ℕ) (s : Session)
                    → address k ≡ some a
                    → awaits_player k ≡ true
                    → lookup a w.store ≡ some s
                    → has_player s ≡ true =
                  λ a s at awaits found.
                    let (t, l, h) = well.awaited coid k a waits at in
                    let same : t ≡ s = cc (l, found) in
                    subst (λ x. has_player x ≡ true) same (h awaits) in
                subst (Good w) (cc (rw (waits, common_coroutine_resume, goes) at e)) (
                  Good-trans w w1 w2 good1 (resume_role-Good env w1 w2 coid ret k has good1.0 goes))
          ]
    ]
