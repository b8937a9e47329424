-- ===== src/Zone/Messages.antt =====
-- The messages from a gate: rgtd/zone/ZoneAgentMgr.cpp and rgtd/zone/ZoneAgent.cpp, with the
-- dispatch of a client's message by rgtd/zone/logic/CSMsgDispatcher.cpp and
-- rgtd/zone/cs_handler/CSMsgHandler.cpp. The handlers, also the one in Lua, are parameters.
use playground.Prelude.{ℕ, Bool, List, [], Option, none, some, if◌then◌else◌}
use playground.Prelude.Map.{Map, lookup, insert}
use playground.Prelude.Words.{ℤ, pos, negsuc, minus_one, is_zero_ℤ}
use playground.GateMsg.{GateSsMsg, EventType, event_connected, event_close, event_data, unpack}
use playground.Zone.World
use playground.Zone.World.{
  SessionState, loading, creating, playing, offline, kicking, PlayerAgent, Session, Env, Step,
}
use playground.Zone.RoleId.{get_role_id, get_area_from_role_id, get_zone_id_from_area}
use playground.Zone.SessionMgr.{find_session, stop_session, create_session}

pub record CsMsg : Type 0 where
  pub cmd : ℕ
  pub body : List ℕ

-- What a class derived from CSMsgHandler does with a message for the session at an address.
pub record CsMsgHandler : Type 0 where
  pub on_creating_msg : ℕ → CsMsg → Step
  pub on_playing_msg : ℕ → CsMsg → Step

pub record Dispatcher : Type 0 where
  pub handlers : Map CsMsgHandler
  pub lua_handler : CsMsgHandler
  pub is_listening_msg : ℕ → Bool
  pub parse : List ℕ → Option CsMsg

unfoldable pub register_cs_msg_handler : Dispatcher → ℕ → CsMsgHandler → ℤ × Dispatcher
register_cs_msg_handler d cmd handler = elim (lookup cmd d.handlers) [
  | some _ ↦ (minus_one, d)
  | none ↦ (pos 0, record d { handlers = insert cmd handler d.handlers })
]

unfoldable pub get_msg_handler : Dispatcher → ℕ → Option CsMsgHandler
get_msg_handler d cmd = elim (lookup cmd d.handlers) [
  | some handler ↦ some handler
  | none ↦ if d.is_listening_msg cmd then some d.lua_handler else none
]

-- CSMsgHandler::Handle, with the session's state.
unfoldable pub handle : CsMsgHandler → SessionState → ℕ → CsMsg → Step
handle handler creating a msg w = handler.on_creating_msg a msg w
handle handler playing a msg w = handler.on_playing_msg a msg w
handle handler SessionState.init a msg w = some (minus_one, w)
handle handler loading a msg w = some (minus_one, w)
handle handler offline a msg w = some (minus_one, w)
handle handler kicking a msg w = some (minus_one, w)

-- The error of Dispatch: -100.
abbrev pub unknown_cmd : ℤ
unknown_cmd = negsuc 99

unfoldable pub dispatch : Dispatcher → ℕ → CsMsg → Step
dispatch d a msg w = elim (lookup a w.store) [
  | none ↦ none
  | some s ↦ elim (get_msg_handler d msg.cmd) [
    | none ↦ some (unknown_cmd, w)
    | some handler ↦ handle handler s.state a msg w
  ]
]

-- AddZone of a zone that has no session yet.
unfoldable pub add_zone : ℕ → World.World → ℤ × World.World
add_zone zone w = elim (lookup zone w.agents) [
  | some _ ↦ (minus_one, w)
  | none ↦ (pos 0, record w { agents = insert zone [] w.agents })
]

unfoldable pub attach_player_agent : Env → ℕ → ℕ → GateSsMsg → Step
attach_player_agent env zone gateid ggc w =
    elim (create_session env zone (get_role_id ggc.uid ggc.area) gateid ggc w) [
      | none ↦ none
      | some (ret, w') ↦ some (if is_zero_ℤ ret then pos 0 else minus_one, w')
    ]

unfoldable pub detach_player_agent : Env → ℕ → ℕ → GateSsMsg → Step
detach_player_agent env zone gateid ggc w =
    stop_session env zone gateid ggc.idx (get_role_id ggc.uid ggc.area) w

unfoldable pub dispatch_player_agent_msg : Dispatcher → ℕ → GateSsMsg → CsMsg → Step
dispatch_player_agent_msg d zone ggc msg w =
    elim (find_session w zone (get_role_id ggc.uid ggc.area)) [
      | none ↦ some (minus_one, w)
      | some a ↦ dispatch d a msg w
    ]

-- The `switch` of OnGateMessage.
unfoldable pub on_gate_event : Env → Dispatcher → ℕ → GateSsMsg → List ℕ → EventType → Step
on_gate_event env d src ggc payload event_connected w = attach_player_agent env ggc.area src ggc w
on_gate_event env d src ggc payload event_close w = detach_player_agent env ggc.area src ggc w
on_gate_event env d src ggc payload event_data w = elim (d.parse payload) [
  | none ↦ some (minus_one, w)
  | some msg ↦ dispatch_player_agent_msg d ggc.area ggc msg w
]

-- OnGateMessage of a message from the channel `src`; `none` is a fault.
unfoldable pub on_gate_message : Env → Dispatcher → ℕ → List ℕ → Step
on_gate_message env d src bytes w = elim (unpack env.codec bytes) [
  | none ↦ none
  | some none ↦ some (minus_one, w)
  | some (some (ggc, payload)) ↦ elim (lookup ggc.area w.agents) [
    | none ↦ some (minus_one, w)
    | some _ ↦ on_gate_event env d src ggc payload ggc.event w
  ]
]

-- GetZonePlayerAgentPtr; a dangling SessionPtr does not occur and has no player here.
unfoldable pub get_zone_player_agent : World.World → ℕ → Option PlayerAgent
get_zone_player_agent w uid =
    elim (find_session w (get_zone_id_from_area (get_area_from_role_id uid)) uid) [
      | none ↦ none
      | some a ↦ elim (lookup a w.store) [ none ↦ none | some s ↦ s.player ]
    ]
