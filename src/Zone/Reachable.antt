-- ===== src/Zone/Reachable.antt =====
-- The worlds that a zone server gets into (rgtd/zone/ZoneAgentMgr.cpp): it starts with none of its
-- zones, adds zones, and takes the messages of gates and the answers of the database in any order.
use mathlib.Core.Path.{subst}
use playground.Prelude.{ℕ, ◌≡◌, List, [], some, arith, Option-cases, inl, inr}
use playground.Prelude.Map.{lookup, insert, lookup-insert}
use playground.Prelude.Words.{ℤ}
use playground.GateMsg.{GateSsMsg, EventType, event_connected, event_close, event_data, unpack}
use playground.Zone.World
use playground.Zone.World.{
  SessionState, loading, creating, playing, offline, kicking, Session, Env, Step,
}
use playground.Zone.RoleId.{get_role_id}
use playground.Zone.Login.{common_coroutine_resume}
use playground.Zone.SessionMgr.{sessions, find_session, create_session}
use playground.Zone.Messages.{
  CsMsg, CsMsgHandler, Dispatcher, get_msg_handler, handle, dispatch, add_zone, attach_player_agent,
  detach_player_agent, dispatch_player_agent_msg, on_gate_event, on_gate_message,
}
use playground.Zone.Kept.{IsWell}
use playground.Zone.Primitives.{tables-Good}
use playground.Zone.Answers.{common_coroutine_resume-Good}
use playground.Zone.Tables.{stop_session-IsWell, create_session-IsWell}

-- A handler that leaves a well-formed world.
abbrev pub IsFair : CsMsgHandler → Type 0
IsFair h =
    (a : ℕ) (msg : CsMsg) (w w' : World.World) (ret : ℤ)
    → IsWell w
    → ((h.on_creating_msg a msg w ≡ some (ret, w')) → IsWell w')
      × ((h.on_playing_msg a msg w ≡ some (ret, w')) → IsWell w')

abbrev pub AreFair : Dispatcher → Type 0
AreFair d = (cmd : ℕ) (h : CsMsgHandler) → get_msg_handler d cmd ≡ some h → IsFair h

abbrev pub start : World.World
start = record { agents = []; store = []; next_address = 0; coroutines = []; out = [] }

pub data Reached (d : Dispatcher) : World.World → Type 0 where
  started : Reached d start
  zone_added : {w : World.World} → (zone : ℕ) → Reached d w → Reached d (add_zone zone w).1
  told :
      {w w' : World.World} (env : Env) (src : ℕ) (bytes : List ℕ) (ret : ℤ)
      → Reached d w
      → on_gate_message env d src bytes w ≡ some (ret, w')
      → Reached d w'
  answered :
      {w w' : World.World} (env : Env) (coid : ℕ) (answer ret : ℤ)
      → Reached d w
      → common_coroutine_resume env w answer coid ≡ some (ret, w')
      → Reached d w'

add_zone-IsWell : (w : World.World) (zone : ℕ) → IsWell w → IsWell (add_zone zone w).1
unfolding add_zone find_session sessions
add_zone-IsWell w zone well = elim (Option-cases (lookup zone w.agents)) [
  | inr (table, e) ↦ rw (e, add_zone) well
  | inl n ↦
      rw (n, add_zone)
        (tables-Good w (insert zone [] w.agents)
          (λ z u. ground (arith, lookup-insert zone z [] w.agents)) well).0
]

handle-IsWell :
    (h : CsMsgHandler) (st : SessionState) (a : ℕ) (msg : CsMsg) (w w' : World.World) (ret : ℤ)
    → IsFair h
    → IsWell w
    → handle h st a msg w ≡ some (ret, w')
    → IsWell w'
unfolding handle
handle-IsWell h creating a msg w w' ret fair well e = (fair a msg w w' ret well).0 e
handle-IsWell h playing a msg w w' ret fair well e = (fair a msg w w' ret well).1 e
handle-IsWell h SessionState.init a msg w w' ret fair well e = subst IsWell (cc e) well
handle-IsWell h loading a msg w w' ret fair well e = subst IsWell (cc e) well
handle-IsWell h offline a msg w w' ret fair well e = subst IsWell (cc e) well
handle-IsWell h kicking a msg w w' ret fair well e = subst IsWell (cc e) well

module _ (d : Dispatcher) (fair : AreFair d) where
  dispatch-IsWell :
      (a : ℕ) (msg : CsMsg) (w w' : World.World) (ret : ℤ)
      → IsWell w
      → dispatch d a msg w ≡ some (ret, w')
      → IsWell w'
  unfolding dispatch
  dispatch-IsWell a msg w w' ret well e = elim (Option-cases (lookup a w.store)) [
    | inl n ↦ absurd (cc (rw (n, dispatch) at e))
    | inr (s, found) ↦ elim (Option-cases (get_msg_handler d msg.cmd)) [
      | inl n ↦ subst IsWell (cc (rw (found, dispatch, n) at e)) well
      | inr (h, has) ↦
          handle-IsWell h s.state a msg w w' ret (fair msg.cmd h has) well
            (rw (found, dispatch, has) at e)
    ]
  ]

  on_gate_event-IsWell :
      (env : Env) (src : ℕ) (ggc : GateSsMsg) (payload : List ℕ) (event : EventType)
      (w w' : World.World) (ret : ℤ)
      → IsWell w
      → on_gate_event env d src ggc payload event w ≡ some (ret, w')
      → IsWell w'
  unfolding on_gate_event attach_player_agent detach_player_agent dispatch_player_agent_msg
  on_gate_event-IsWell env src ggc payload event_connected w w' ret well e =
      let uid = get_role_id ggc.uid ggc.area in
      elim (Option-cases (create_session env ggc.area uid src ggc w)) [
        | inl n ↦ absurd (cc (rw (n, on_gate_event, attach_player_agent) at e))
        | inr ((r, w1), made) ↦
            subst IsWell (cc (rw (made, on_gate_event, attach_player_agent) at e))
              (create_session-IsWell env w w1 ggc.area uid src ggc r well made)
      ]
  on_gate_event-IsWell env src ggc payload event_close w w' ret well e =
      stop_session-IsWell env w w' ggc.area src ggc.idx (get_role_id ggc.uid ggc.area) ret well e
  on_gate_event-IsWell env src ggc payload event_data w w' ret well e =
      elim (Option-cases (d.parse payload)) [
        | inl n ↦ subst IsWell (cc (rw (n, on_gate_event) at e)) well
        | inr (msg, parsed) ↦
            elim (Option-cases (find_session w ggc.area (get_role_id ggc.uid ggc.area))) [
              | inl n ↦
                  subst IsWell (cc (rw (parsed, on_gate_event, n, dispatch_player_agent_msg) at e))
                    well
              | inr (a, has) ↦
                  dispatch-IsWell a msg w w' ret well
                    (rw (parsed, on_gate_event, has, dispatch_player_agent_msg) at e)
            ]
      ]

  pub on_gate_message-IsWell :
      (env : Env) (src : ℕ) (bytes : List ℕ) (w w' : World.World) (ret : ℤ)
      → IsWell w
      → on_gate_message env d src bytes w ≡ some (ret, w')
      → IsWell w'
  unfolding on_gate_message
  on_gate_message-IsWell env src bytes w w' ret well e =
      elim (Option-cases (unpack env.codec bytes)) [
        | inl n ↦ absurd (cc (rw (n, on_gate_message) at e))
        | inr (m, read) ↦ elim (Option-cases m) [
          | inl n ↦ subst IsWell (cc (rw (read, on_gate_message, n) at e)) well
          | inr ((ggc, payload), is) ↦ elim (Option-cases (lookup ggc.area w.agents)) [
            | inl n ↦ subst IsWell (cc (rw (read, on_gate_message, is, n) at e)) well
            | inr (table, zone) ↦
                on_gate_event-IsWell env src ggc payload ggc.event w w' ret well
                  (rw (read, on_gate_message, is, zone) at e)
          ]
        ]
      ]

  -- Where the handlers of client messages leave well-formed worlds well-formed, every world that a
  -- zone server reaches is well-formed: it starts with no zones and takes added zones, messages of
  -- gates and answers of the database in any order. Well-formed means: a session that the table of
  -- a zone has under a role id exists, is of that zone and has that role id; a session that is
  -- creating its role, playing or being logged out has a player; the session that a waiting
  -- coroutine will use exists, and has a player where the coroutine inserts or saves a role; every
  -- session lies below the next address.
  pub Reached-IsWell : (w : World.World) → Reached d w → IsWell w
  unfolding find_session sessions lookup
  Reached-IsWell w started = record {
    found = λ zone uid a e. absurd (cc e);
    players = λ a s e. absurd (cc e);
    awaited = λ coid k a e. absurd (cc e);
    fresh = λ a s e. absurd (cc e);
  }
  Reached-IsWell w (zone_added zone r) = add_zone-IsWell _ zone (Reached-IsWell _ r)
  Reached-IsWell w (told env src bytes ret r e) =
      on_gate_message-IsWell env src bytes _ w ret (Reached-IsWell _ r) e
  Reached-IsWell w (answered env coid answer ret r e) =
      (common_coroutine_resume-Good env _ w coid answer ret (Reached-IsWell _ r) e).0
