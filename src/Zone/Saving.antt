-- ===== src/Zone/Saving.antt =====
-- The tries of the coroutine Logout (rgtd/zone/account/LoginLogic.cpp) to save a role.
use playground.Prelude.{
  ◌≢◌, ℕ, ◌-◌, ◌<◌, ◌≡◌, ◌⊎◌, inl, inr, refl, [], ◌∷◌, ◌++◌, none, some, arith, ltb, ◌==◌,
  Bool-cases,
}
use playground.Prelude.Map.{lookup, lookup-insert, lookup-erase}
use playground.Prelude.Words.{ℤ, pos, negsuc}
use playground.Zone.World
use playground.Zone.World.{Session, PlayerAgent, Waiting, saving_role, updated, Env}
use playground.Zone.Login.{wait, finish, do_out, try_save, saved_role, data_ok}

-- The coroutine has ended and has said nothing more.
abbrev pub IsEnded : World.World → World.World → ℕ → Type 0
IsEnded w w' coid = (lookup coid w'.coroutines ≡ none) × (w'.out ≡ w.out)

-- The coroutine has asked once more to save a role, and has `left` tries when the answer comes.
abbrev pub IsAsking : World.World → World.World → PlayerAgent → ℕ → ℕ → ℕ → Type 0
IsAsking w w' player a coid left =
    (lookup coid w'.coroutines ≡ some (saving_role a left))
    × (w'.out ≡ w.out ++ updated player.role ∷ [])

finish-IsEnded : (w : World.World) (coid : ℕ) → IsEnded w (finish w coid) coid
finish-IsEnded w coid = (ground (arith, lookup-erase coid coid w.coroutines), refl)

waiting :
    (w : World.World) (coid : ℕ) (k : Waiting) → lookup coid (wait w coid k).coroutines ≡ some k
waiting w coid k = ground (arith, lookup-insert coid coid k w.coroutines)

pub try_save_lem :
    (env : Env) (w : World.World) (a coid retry : ℕ) (s : Session) (player : PlayerAgent)
    → lookup a w.store ≡ some s
    → s.player ≡ some player
    → (w' : World.World) × (try_save env w a coid retry ≡ some w')
      × (IsEnded w w' coid ⊎ IsAsking w w' player a coid retry)
unfolding try_save
try_save_lem env w a coid retry s player found has = elim (Bool-cases env.accepts_update) [
  | inl t ↦
      let asked = do_out w (updated player.role) in
      (
        wait asked coid (saving_role a retry),
        rw (found, try_save, has, t) refl,
        inr (waiting asked coid (saving_role a retry), refl),
      )
  | inr f ↦ (finish w coid, rw (found, try_save, has, f) refl, inl (finish-IsEnded w coid))
]

-- For a session with a player, the coroutine Logout takes any answer of the database without a
-- fault. It ends and asks nothing more, or, only if the answer is not that the role is saved, it
-- asks once more to save this player's role and has fewer tries left than before, and at least
-- one.
pub saved_role_lem :
    (env : Env) (w : World.World) (a coid retry : ℕ) (ret : ℤ) (s : Session) (player : PlayerAgent)
    → lookup a w.store ≡ some s
    → s.player ≡ some player
    → (w' : World.World) × (saved_role env w a coid retry ret ≡ some w')
      × (IsEnded w w' coid
          ⊎ ((left : ℕ) × (left < retry)
              × (0 < left)
              × (ret ≢ pos data_ok)
              × IsAsking w w' player a coid left))
unfolding saved_role
saved_role_lem env w a coid retry (negsuc n) s player found has =
    (finish w coid, refl, inl (finish-IsEnded w coid))
saved_role_lem env w a coid retry (pos n) s player found has = elim (Bool-cases (n == data_ok)) [
  | inl t ↦ (finish w coid, rw (t, saved_role) refl, inl (finish-IsEnded w coid))
  | inr f ↦ elim (Bool-cases (ltb 0 (retry - 1))) [
    | inr g ↦ (finish w coid, rw (f, saved_role, g) refl, inl (finish-IsEnded w coid))
    | inl g ↦
        let (w', e, what) = try_save_lem env w a coid (retry - 1) s player found has in
        (
          w',
          rw (f, saved_role, g) e,
          elim what [
            | inl ends ↦ inl ends
            | inr asks ↦ inr (retry - 1, ground arith, ground arith, λ z. ground arith, asks)
          ],
        )
  ]
]
