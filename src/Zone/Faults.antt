-- ===== src/Zone/Faults.antt =====
-- Where the messages of a gate and the answers of the database make a zone server follow a null
-- pointer (rgtd/zone/ZoneAgentMgr.cpp, rgtd/zone/account/LoginLogic.cpp), and where they do not.
use playground.Prelude.{
  ℕ, ◌≡◌, ◌≤◌, refl, ap, false, List, Option, none, some, arith, if◌then◌else◌, length,
  Option-cases, inl, inr,
}
use playground.Prelude.Map.{Map, lookup, lookup-insert}
use playground.Prelude.Words.{ℤ, pos, minus_one, is_zero_ℤ}
use playground.GateMsg.{GateSsMsg, EventType, event_connected, event_close, event_data, unpack}
use playground.GateMsg.Unpacked.{unpack-none}
use playground.Zone.World
use playground.Zone.World.{
  SessionState, loading, creating, playing, offline, kicking, fresh, PlayerAgent, Session, running,
  getting_role, born, Env, Step,
}
use playground.Zone.RoleId.{get_role_id}
use playground.Zone.Session.{attach_player_agent}
use playground.Zone.Login.{
  wait, finish, do_out, get_session, logout, kick, detach, login_new, got_role, resume_role,
  common_coroutine_resume, data_no_exists,
}
use playground.Zone.SessionMgr.{find_session, stop_session}
use playground.Zone.Messages
use playground.Zone.Messages.{
  CsMsg, CsMsgHandler, Dispatcher, get_msg_handler, handle, dispatch, detach_player_agent,
  dispatch_player_agent_msg, on_gate_event, on_gate_message, unknown_cmd,
}
use playground.Zone.Kept.{IsWell}
use playground.Zone.Reachable.{AreFair, Reached, Reached-IsWell}
use playground.Zone.Stopping.{stop_session_lem, create_session_total}

-- A step that does not fault.
abbrev pub Ends : Option (ℤ × World.World) → Type 0
Ends r = (ret : ℤ) × (w' : World.World) × (r ≡ some (ret, w'))

-- Handlers that do not fault in a well-formed world, for a session in the state of the call.
abbrev pub AreTotal : Dispatcher → Type 0
AreTotal d =
    (cmd : ℕ) (h : CsMsgHandler)
    → get_msg_handler d cmd ≡ some h
    → (a : ℕ) (msg : CsMsg) (w : World.World) (s : Session) → IsWell w
    → lookup a w.store ≡ some s
    → (s.state ≡ creating → Ends (h.on_creating_msg a msg w))
      × (s.state ≡ playing → Ends (h.on_playing_msg a msg w))

stop_session_total :
    (env : Env) (w : World.World) (zone gateid idx uid : ℕ)
    → IsWell w
    → Ends (stop_session env zone gateid idx uid w)
stop_session_total env w zone gateid idx uid well =
    elim (stop_session_lem env w zone gateid idx uid well) [
      | inl (e, _) ↦ (minus_one, w, e)
      | inr (a, s, ret, w', _, _, _, e, _, _) ↦ (ret, w', e)
    ]

handle_total :
    (h : CsMsgHandler) (st : SessionState) (a : ℕ) (msg : CsMsg) (w : World.World)
    → (st ≡ creating → Ends (h.on_creating_msg a msg w))
      × (st ≡ playing → Ends (h.on_playing_msg a msg w))
    → Ends (handle h st a msg w)
unfolding handle
handle_total h creating a msg w (c, p) = c refl
handle_total h playing a msg w (c, p) = p refl
handle_total h SessionState.init a msg w (c, p) = (minus_one, w, refl)
handle_total h loading a msg w (c, p) = (minus_one, w, refl)
handle_total h offline a msg w (c, p) = (minus_one, w, refl)
handle_total h kicking a msg w (c, p) = (minus_one, w, refl)

module _ (d : Dispatcher) (total : AreTotal d) where
  dispatch_player_agent_msg_total :
      (zone : ℕ) (ggc : GateSsMsg) (msg : CsMsg) (w : World.World)
      → IsWell w
      → Ends (dispatch_player_agent_msg d zone ggc msg w)
  unfolding dispatch_player_agent_msg dispatch
  dispatch_player_agent_msg_total zone ggc msg w well =
      let uid = get_role_id ggc.uid ggc.area in
      elim (Option-cases (find_session w zone uid)) [
        | inl n ↦ (minus_one, w, rw (n, dispatch_player_agent_msg) refl)
        | inr (a, has) ↦
            let (s, found, _, _) = well.found zone uid a has in
            elim (Option-cases (get_msg_handler d msg.cmd)) [
              | inl n ↦
                  (unknown_cmd, w, rw (has, dispatch_player_agent_msg, found, dispatch, n) refl)
              | inr (h, is) ↦
                  let (ret, w', e) =
                    handle_total h s.state a msg w (total msg.cmd h is a msg w s well found) in
                  (ret, w', rw (has, dispatch_player_agent_msg, found, dispatch, is) e)
            ]
      ]

  on_gate_event_total :
      (env : Env) (src : ℕ) (ggc : GateSsMsg) (payload : List ℕ) (event : EventType)
      (w : World.World)
      → IsWell w
      → Ends (on_gate_event env d src ggc payload event w)
  unfolding on_gate_event Messages.attach_player_agent detach_player_agent
  on_gate_event_total env src ggc payload event_connected w well =
      let (ret, w', e) =
        create_session_total env w ggc.area (get_role_id ggc.uid ggc.area) src ggc well in
      (
        if is_zero_ℤ ret then pos 0 else minus_one,
        w',
        rw (e, on_gate_event, Messages.attach_player_agent) refl,
      )
  on_gate_event_total env src ggc payload event_close w well =
      stop_session_total env w ggc.area src ggc.idx (get_role_id ggc.uid ggc.area) well
  on_gate_event_total env src ggc payload event_data w well =
      elim (Option-cases (d.parse payload)) [
        | inl n ↦ (minus_one, w, rw (n, on_gate_event) refl)
        | inr (msg, parsed) ↦
            let (ret, w', e) = dispatch_player_agent_msg_total ggc.area ggc msg w well in
            (ret, w', rw (parsed, on_gate_event) e)
      ]

  -- Where the handlers of client messages leave well-formed worlds well-formed and do not fault
  -- there for a session that exists and is in the state of the call, no message of two bytes or
  -- more from a gate makes a zone server follow a null pointer, or the SessionPtr of a session
  -- that is not there, in a world that it has reached: OnGateMessage ends with a result. What lies
  -- behind the pointers to roles, which the destructor of a PlayerAgent frees, is not part of
  -- this.
  pub on_gate_message-total :
      (env : Env) (src : ℕ) (bytes : List ℕ) (w : World.World)
      → AreFair d
      → Reached d w
      → 2 ≤ length bytes
      → Ends (on_gate_message env d src bytes w)
  unfolding on_gate_message
  on_gate_message-total env src bytes w fair r long =
      let well = Reached-IsWell d fair w r in
      elim (Option-cases (unpack env.codec bytes)) [
        | inl n ↦ absurd (unpack-none env.codec bytes long n)
        | inr (m, read) ↦ elim (Option-cases m) [
          | inl n ↦ (minus_one, w, rw (read, on_gate_message, n) refl)
          | inr ((ggc, payload), is) ↦ elim (Option-cases (lookup ggc.area w.agents)) [
            | inl n ↦ (minus_one, w, rw (read, on_gate_message, is, n) refl)
            | inr (table, zone) ↦
                let (ret, w', e) = on_gate_event_total env src ggc payload ggc.event w well in
                (ret, w', rw (read, on_gate_message, is, zone) e)
          ]
        ]
      ]

-- GetSession of a uid under which there is no session, where there is none under 0 either.
get_session-none :
    (w : World.World) (zone uid : ℕ) (table : Map (Option ℕ))
    → lookup zone w.agents ≡ some table
    → lookup uid table ≡ none
    → lookup 0 table ≡ none
    → (get_session w zone uid).0 ≡ none
unfolding get_session
get_session-none w zone uid table zones gone zero = rw (zones, get_session, gone, zero) refl

kick-fault :
    (env : Env) (w : World.World) (a : ℕ) (s : Session)
    → lookup a w.store ≡ some s
    → s.state ≡ creating
    → (get_session (detach w s) s.zone s.uid).0 ≡ none
    → kick env w a ≡ none
unfolding kick logout
kick-fault env w a s found at gone = rw (found, kick, at) (rw (gone, logout) refl)

-- Where a coroutine waits for the role of a session, the zone has no session under its role id and
-- none under 0, and the database takes no insertion, the answer that the role does not exist makes
-- the zone server follow a null pointer.
pub common_coroutine_resume-fault :
    (env : Env) (w : World.World) (coid a : ℕ) (s : Session) (table : Map (Option ℕ))
    → lookup coid w.coroutines ≡ some (getting_role a)
    → lookup a w.store ≡ some s
    → lookup s.zone w.agents ≡ some table
    → lookup s.uid table ≡ none
    → lookup 0 table ≡ none
    → env.accepts_insert ≡ false
    → common_coroutine_resume env w (pos data_no_exists) coid ≡ none
unfolding common_coroutine_resume resume_role got_role login_new
common_coroutine_resume-fault env w coid a s table waits found zones gone zero refused =
    let role = fresh s.uid in
    let player : PlayerAgent = record { role = role; from_db = false } in
    let s' = record s { state = creating; player = some player } in
    let w1 =
      do_out (attach_player_agent (wait w coid running) a (record s { state = creating }) player)
        (born role) in
    let here : lookup a w1.store ≡ some s' = ground (arith, lookup-insert a a s' w.store) in
    let falls : kick env w1 a ≡ none =
      kick-fault env w1 a s' here refl
        (get_session-none (detach w1 s') s.zone s.uid table zones gone zero) in
    simp (waits, common_coroutine_resume, found, login_new, refused)
      (ap
        (λ (x : Option (ℤ × World.World)).
          elim (elim x as (λ _. Option World.World) [
            | none ↦ none
            | some y ↦ some (finish y.1 coid)
          ])
            as (λ _. Option (ℤ × World.World)) [
              | none ↦ none
              | some v ↦ some (env.co.resumed coid, v)
            ])
        falls)
