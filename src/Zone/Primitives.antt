-- ===== src/Zone/Primitives.antt =====
-- The primitive steps of rgtd/zone/account and what they keep of a well-formed world.
use mathlib.Core.Path.{subst}
use playground.Prelude.{
  List, ◌++◌, [], ◌∷◌, ℕ, ◌≡◌, refl, sym, ap, ◌∙◌, true, Option, none, some, arith, ◌==◌,
  Bool-cases, Option-cases, inl, inr,
}
use playground.Prelude.Map.{Map, lookup, insert, lookup-insert, lookup-erase}
use playground.Zone.World
use playground.Zone.World.{
  SessionState, loading, creating, playing, offline, kicking, PlayerAgent, Session, Waiting,
  running, getting_role, inserting_role, saving_role, Effect, Env,
}
use playground.Zone.Session.{put}
use playground.Zone.Login.{wait, finish, do_out, get_session}
use playground.Zone.SessionMgr.{find_session, sessions}
use playground.Zone.Kept.{
  IsWell, Same, Same-refl, Keeps-refl, Good, has_player, needs_player, address, awaits_player,
}

pub outs-Good :
    (w : World.World) (es : List Effect) → IsWell w → Good w (record w { out = w.out ++ es })
unfolding find_session sessions
outs-Good w es well = (
  record { found = well.found; players = well.players; awaited = well.awaited; fresh = well.fresh },
  record { next = refl; tables = λ zone uid. refl; up = λ a s e. (s, e, Same-refl s) },
)

pub do_out-Good : (w : World.World) (e : Effect) → IsWell w → Good w (do_out w e)
do_out-Good w e well = outs-Good w (e ∷ []) well

pub finish-Good : (w : World.World) (coid : ℕ) → IsWell w → Good w (finish w coid)
unfolding find_session sessions
finish-Good w coid well = (
  record {
    found = well.found;
    players = well.players;
    awaited = λ c k a e. elim (Bool-cases (coid == c)) [
      | inl t ↦ absurd (cc (rw t at (sym (lookup-erase coid c w.coroutines) ∙ e)))
      | inr f ↦ well.awaited c k a (rw f at (sym (lookup-erase coid c w.coroutines) ∙ e))
    ];
    fresh = well.fresh;
  },
  record { next = refl; tables = λ zone uid. refl; up = λ a s e. (s, e, Same-refl s) },
)

-- A coroutine may wait for a session that is there.
pub wait-Good :
    (w : World.World) (coid : ℕ) (k : Waiting)
    → ((a : ℕ)
        → address k ≡ some a
        → (s : Session) × (lookup a w.store ≡ some s)
          × (awaits_player k ≡ true → has_player s ≡ true))
    → IsWell w
    → Good w (wait w coid k)
unfolding find_session sessions
wait-Good w coid k there well = (
  record {
    found = well.found;
    players = well.players;
    awaited = λ c j a e. elim (Bool-cases (coid == c)) [
      | inl t ↦
          let same : k ≡ j = cc (rw t at (sym (lookup-insert coid c k w.coroutines) ∙ e)) in
          λ at.
            let (s, l, h) = there a (ap address same ∙ at) in
            (s, l, λ p. h (ap awaits_player same ∙ p))
      | inr f ↦ well.awaited c j a (rw f at (sym (lookup-insert coid c k w.coroutines) ∙ e))
    ];
    fresh = well.fresh;
  },
  record { next = refl; tables = λ zone uid. refl; up = λ a s e. (s, e, Same-refl s) },
)

put-up :
    (w : World.World) (a : ℕ) (s s' : Session)
    → lookup a w.store ≡ some s
    → Same s s'
    → (b : ℕ) (t : Session) → lookup b w.store ≡ some t
    → (t' : Session) × (lookup b (insert a s' w.store) ≡ some t') × Same t t'
put-up w a s s' here same b t e = elim (Bool-cases (a == b)) [
  | inl eq ↦
      let a_is : a ≡ b = ground arith in
      let t_is : s ≡ t = cc (here, e, a_is) in
      (s', lookup-insert a b s' w.store ∙ rw eq refl, subst (λ x. Same x s') t_is same)
  | inr ne ↦ (t, lookup-insert a b s' w.store ∙ rw ne e, Same-refl t)
]

-- A session may be set to one that is the same and has a player if it needs one.
pub put-Good :
    (w : World.World) (a : ℕ) (s s' : Session)
    → lookup a w.store ≡ some s
    → Same s s'
    → (needs_player s'.state ≡ true → has_player s' ≡ true)
    → IsWell w
    → Good w (put w a s')
unfolding find_session sessions
put-Good w a s s' here same has well = (
  record {
    found = λ zone uid b e.
        let (t, l, i, z) = well.found zone uid b e in
        let (t', l', (i', z', _, _)) = put-up w a s s' here same b t l in (t', l', i' ∙ i, z' ∙ z);
    players = λ b t e. elim (Bool-cases (a == b)) [
      | inl eq ↦
          let t_is : s' ≡ t = cc (rw eq at (sym (lookup-insert a b s' w.store) ∙ e)) in
          subst (λ x. needs_player x.state ≡ true → has_player x ≡ true) t_is has
      | inr ne ↦ well.players b t (rw ne at (sym (lookup-insert a b s' w.store) ∙ e))
    ];
    awaited = λ coid k b e at.
        let (t, l, h) = well.awaited coid k b e at in
        let (t', l', (_, _, _, h')) = put-up w a s s' here same b t l in (t', l', λ p. h' (h p));
    fresh = λ b t e. elim (Bool-cases (a == b)) [
      | inl eq ↦ let a_is : a ≡ b = ground arith in omega (arith, well.fresh a s here)
      | inr ne ↦ well.fresh b t (rw ne at (sym (lookup-insert a b s' w.store) ∙ e))
    ];
  },
  record { next = refl; tables = λ zone uid. refl; up = put-up w a s s' here same },
)

pub tables-Good :
    (w : World.World) (agents : Map (Map (Option ℕ)))
    → ((zone uid : ℕ)
        → find_session (record w { agents = agents }) zone uid ≡ find_session w zone uid)
    → IsWell w
    → Good w (record w { agents = agents })
tables-Good w agents tables well = (
  record {
    found = λ zone uid a e. well.found zone uid a (sym (tables zone uid) ∙ e);
    players = well.players;
    awaited = well.awaited;
    fresh = well.fresh;
  },
  record { next = refl; tables = tables; up = λ a s e. (s, e, Same-refl s) },
)

null_entry :
    (w : World.World) (zone : ℕ) (table : Map (Option ℕ)) (z u : ℕ)
    → lookup zone w.agents ≡ some table
    → lookup 0 table ≡ none
    → find_session (record w { agents = insert zone (insert 0 none table) w.agents }) z u
      ≡ find_session w z u
unfolding find_session sessions
null_entry w zone table z u e f =
    ground
      (arith, lookup-insert zone z (insert 0 none table) w.agents, lookup-insert 0 u none table)

-- GetSession may leave a null entry under the uid 0: no session is found there before or after.
pub get_session-Good :
    (w : World.World) (zone uid : ℕ) → IsWell w → Good w (get_session w zone uid).1
unfolding get_session
get_session-Good w zone uid well = elim (Option-cases (lookup zone w.agents)) [
  | inl e ↦ rw (e, get_session) (well, Keeps-refl w)
  | inr (table, e) ↦ elim (Option-cases (lookup uid table)) [
    | inr (ptr, f) ↦ rw (e, get_session, f) (well, Keeps-refl w)
    | inl f ↦ elim (Option-cases (lookup 0 table)) [
      | inr (ptr, g) ↦ rw (e, get_session, f, g) (well, Keeps-refl w)
      | inl g ↦
          rw (e, get_session, f, g)
            (tables-Good w (insert zone (insert 0 none table) w.agents)
              (λ z u. null_entry w zone table z u e g) well)
    ]
  ]
]
