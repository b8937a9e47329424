-- ===== src/Zone/Tables.antt =====
-- The table of sessions of rgtd/zone/account/SessionMgr.cpp: what CreateSession and StopSession
-- leave in it.
use mathlib.Core.Path.{subst}
use playground.Prelude.{
  ℕ, ◌+◌, ◌≡◌, refl, sym, ap, ◌∙◌, false, ◌&&◌, none, some, arith, ◌==◌, if◌then◌else◌, Bool-cases,
  Option-cases, inl, inr,
}
use playground.Prelude.Map.{lookup, insert, erase, lookup-insert, lookup-erase}
use playground.Prelude.Words.{ℤ}
use playground.GateMsg.{GateSsMsg}
use playground.Zone.World
use playground.Zone.World.{SessionState, Session, Env}
use playground.Zone.Session
use playground.Zone.Session.{put, new_session}
use playground.Zone.Login.{kick}
use playground.Zone.SessionMgr.{
  sessions, set_sessions, find_session, delete_session, is_of, stop_session, renew, create_session,
}
use playground.Zone.Kept.{IsWell, Good, has_player, needs_player, Good-trans}
use playground.Zone.Primitives.{put-Good}
use playground.Zone.Keeping.{kick-Good}
use playground.Zone.LoginKeeping.{login-Good}

pub find_session-delete_session :
    (w : World.World) (zone uid z u : ℕ)
    → find_session (delete_session w zone uid) z u
      ≡ (if (zone == z) && (uid == u) then none else find_session w z u)
unfolding find_session sessions delete_session
find_session-delete_session w zone uid z u = ground (
  arith,
  lookup-insert zone z (erase uid (sessions w zone)) w.agents,
  lookup-erase uid u (sessions w zone),
)

pub find_session-set_sessions :
    (w : World.World) (zone uid a z u : ℕ)
    → find_session (set_sessions w zone (insert uid (some a) (sessions w zone))) z u
      ≡ (if (zone == z) && (uid == u) then some a else find_session w z u)
unfolding find_session sessions
find_session-set_sessions w zone uid a z u = ground (
  arith,
  lookup-insert zone z (insert uid (some a) (sessions w zone)) w.agents,
  lookup-insert uid u (some a) (sessions w zone),
)

pub delete_session-IsWell :
    (w : World.World) (zone uid : ℕ) → IsWell w → IsWell (delete_session w zone uid)
unfolding delete_session
delete_session-IsWell w zone uid well = record {
  found = λ z u a e. elim (Bool-cases ((zone == z) && (uid == u))) [
    | inl t ↦ absurd (cc (rw t at (sym (find_session-delete_session w zone uid z u) ∙ e)))
    | inr f ↦ well.found z u a (rw f at (sym (find_session-delete_session w zone uid z u) ∙ e))
  ];
  players = well.players;
  awaited = well.awaited;
  fresh = well.fresh;
}

-- The world with a new session at the next address, which is in no table.
abbrev pub made : World.World → Session → World.World
made w s = put (record w { next_address = w.next_address + 1 }) w.next_address s

made-up :
    (w : World.World) (s : Session) (a : ℕ) (t : Session)
    → IsWell w
    → lookup a w.store ≡ some t
    → lookup a (made w s).store ≡ some t
made-up w s a t well e =
    let other : (w.next_address == a) ≡ false = ground (arith, well.fresh a t e) in
    lookup-insert w.next_address a s w.store ∙ rw other e

made-IsWell :
    (w : World.World) (s : Session) → needs_player s.state ≡ false → IsWell w → IsWell (made w s)
unfolding find_session sessions
made-IsWell w s idle well = record {
  found = λ zone uid a e.
      let (t, l, of_uid, of_zone) = well.found zone uid a e in
      (t, made-up w s a t well l, of_uid, of_zone);
  players = λ a t e need. elim (Bool-cases (w.next_address == a)) [
    | inl eq ↦
        let t_is : s ≡ t = cc (rw eq at (sym (lookup-insert w.next_address a s w.store) ∙ e)) in
        absurd (cc (need, ap (λ (x : Session). needs_player x.state) (sym t_is) ∙ idle))
    | inr ne ↦ well.players a t (rw ne at (sym (lookup-insert w.next_address a s w.store) ∙ e)) need
  ];
  awaited =
      λ coid k a e at. let (t, l, h) = well.awaited coid k a e at in (t, made-up w s a t well l, h);
  fresh = λ a t e. elim (Bool-cases (w.next_address == a)) [
    | inl eq ↦ ground arith
    | inr ne ↦
        omega
          (arith, well.fresh a t (rw ne at (sym (lookup-insert w.next_address a s w.store) ∙ e)))
  ];
}

-- A table may get an entry for a session that has its key.
set_sessions-IsWell :
    (w : World.World) (zone uid a : ℕ) (s : Session)
    → lookup a w.store ≡ some s
    → s.uid ≡ uid
    → s.zone ≡ zone
    → IsWell w
    → IsWell (set_sessions w zone (insert uid (some a) (sessions w zone)))
set_sessions-IsWell w zone uid a s here of_uid of_zone well = record {
  found = λ z u b e. elim (Bool-cases ((zone == z) && (uid == u))) [
    | inl t ↦
        let same : a ≡ b = cc (rw t at (sym (find_session-set_sessions w zone uid a z u) ∙ e)) in
        let zones : zone ≡ z = ground arith in
        let uids : uid ≡ u = ground arith in
        (s, ap (λ x. lookup x w.store) (sym same) ∙ here, of_uid ∙ uids, of_zone ∙ zones)
    | inr f ↦ well.found z u b (rw f at (sym (find_session-set_sessions w zone uid a z u) ∙ e))
  ];
  players = well.players;
  awaited = well.awaited;
  fresh = well.fresh;
}

pub renew-Good :
    (env : Env) (w w' : World.World) (a uid : ℕ) (ggc : GateSsMsg) (ret : ℤ)
    → (t : Session) × (lookup a w.store ≡ some t) × (t.uid ≡ uid)
    → IsWell w
    → renew env a uid ggc w ≡ some (ret, w')
    → Good w w'
unfolding renew has_player
renew-Good env w w' a uid ggc ret (t, there, of_uid) well e = elim (Option-cases (kick env w a)) [
  | inl n ↦ absurd (cc (rw (n, renew) at e))
  | inr ((r, w1), kicks) ↦
      let good1 = kick-Good env w w1 a r well kicks in
      elim (Option-cases (lookup a w1.store)) [
        | inl n ↦ absurd (cc (rw (kicks, renew, n) at e))
        | inr (s, found) ↦
            let s' = Session.init uid ggc s in
            let w2 = put w1 a s' in
            let (t', there', (kept, _, _, _)) = good1.1.up a t there in
            let same : t' ≡ s = cc (there', found) in
            let was : uid ≡ s.uid = sym of_uid ∙ sym kept ∙ ap (λ (x : Session). x.uid) same in
            let good2 =
              put-Good w1 a s s' found (was, refl, refl, λ p. p) (good1.0.players a s found)
                good1.0 in
            let good3 = login-Good env w2 w' a ret good2.0 (rw (kicks, renew, found) at e) in
            Good-trans w w1 w' good1 (Good-trans w1 w2 w' good2 good3)
      ]
]

pub stop_session-IsWell :
    (env : Env) (w w' : World.World) (zone gateid idx uid : ℕ) (ret : ℤ)
    → IsWell w
    → stop_session env zone gateid idx uid w ≡ some (ret, w')
    → IsWell w'
unfolding stop_session
stop_session-IsWell env w w' zone gateid idx uid ret well e =
    elim (Option-cases (find_session w zone uid)) [
      | inl n ↦ subst IsWell (cc (rw (n, stop_session) at e)) well
      | inr (a, has) ↦ elim (Option-cases (lookup a w.store)) [
        | inl n ↦ absurd (cc (rw (has, stop_session, n) at e))
        | inr (s, found) ↦ elim (Bool-cases (is_of s gateid idx)) [
          | inr f ↦ subst IsWell (cc (rw (has, stop_session, found, f) at e)) well
          | inl t ↦ elim (Option-cases (kick env w a)) [
            | inl n ↦ absurd (cc (rw (has, stop_session, found, t, n) at e))
            | inr ((r, w1), kicks) ↦
                subst IsWell (cc (rw (has, stop_session, found, t, kicks) at e))
                  (delete_session-IsWell w1 zone uid (kick-Good env w w1 a r well kicks).0)
          ]
        ]
      ]
    ]

pub create_session-IsWell :
    (env : Env) (w w' : World.World) (zone uid gateid : ℕ) (ggc : GateSsMsg) (ret : ℤ)
    → IsWell w
    → create_session env zone uid gateid ggc w ≡ some (ret, w')
    → IsWell w'
unfolding create_session needs_player
create_session-IsWell env w w' zone uid gateid ggc ret well e =
    elim (Option-cases (find_session w zone uid)) [
      | inr (a, has) ↦
          let (s, found, of_uid, _) = well.found zone uid a has in
          (renew-Good env w w' a uid ggc ret (s, found, of_uid) well
            (rw (has, create_session) at e)).0
      | inl n ↦
          let a = w.next_address in
          let s = Session.init uid ggc (new_session zone gateid) in
          let w1 = made w s in
          let here : lookup a w1.store ≡ some s = ground (arith, lookup-insert a a s w.store) in
          let w2 = set_sessions w1 zone (insert uid (some a) (sessions w1 zone)) in
          let well2 =
            set_sessions-IsWell w1 zone uid a s here refl refl (made-IsWell w s refl well) in
          (login-Good env w2 w' a ret well2 (rw (n, create_session) at e)).0
    ]
