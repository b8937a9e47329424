-- ===== src/Tests/ZoneTests.antt =====
-- The theorems of the zone server and of its messages, applied to a zone with one session.
use playground.Prelude.{
  ℕ, ◌<◌, ◌≡◌, ◌≢◌, ◌⊎◌, refl, true, false, ◌&&◌, List, [], ◌∷◌, ◌++◌, Option, none, some, arith,
  if◌then◌else◌, ◌==◌, length,
}
use playground.Prelude.Map.{Map, lookup}
use playground.Prelude.Words.{ℤ, pos, minus_one}
use playground.Bytes.{be16}
use playground.Channel.{send_to_agent, get_channel, total_length, join}
use playground.GateMsg.{GateSsMsg, event_data, unpack}
use playground.GateMsg.Unpacked.{unpack-send_to_agent}
use playground.Zone.World
use playground.Zone.World.{
  SessionState, loading, creating, playing, offline, kicking, Role, stored, fresh, PlayerAgent,
  Session, Waiting, running, getting_role, saving_role, posted, Effect, attached, released,
  Coroutines, Env,
}
use playground.Zone.RoleId.{
  get_role_id, get_uid_from_role_id, get_area_from_role_id, get_zone_id_from_area, get_role_id_lem,
}
use playground.Gate.Server
use playground.Gate.Server.{Gate, sent, at, conn_at, get_connection_by_idx}
use playground.Gate.Agent.{on_agent_message}
use playground.Gate.Removal.{close_effects}
use playground.Zone.Session.{response_client, send}
use playground.Zone.Login.{saved_role, common_coroutine_resume}
use playground.Zone.SessionMgr.{find_session, is_of, stop_session}
use playground.Zone.Messages.{on_gate_message}
use playground.Zone.Send.{on_agent_message-send}
use playground.Zone.Saving.{IsEnded, IsAsking, saved_role_lem}
use playground.Zone.Stale.{on_gate_message-close_effects}
use playground.Zone.Kept.{IsWell}
use playground.Zone.Total.{IsKicked}
use playground.Zone.Reachable.{Reached-IsWell}
use playground.Zone.Stopping.{stop_session_lem}
use playground.Zone.Faults.{Ends, on_gate_message-total, common_coroutine_resume-fault}
use playground.Tests.ZoneWorlds.{
  surroundings, dispatcher, dispatcher-AreFair, dispatcher-AreTotal, empty_zone, player, in_play,
  empty_zone-Reached, role_id, session, one_session, one_session-IsWell, one_session-found,
  one_session-stored,
}
use playground.Tests.GateTests
use playground.Tests.GateTests.{list_codec, encode_list, code_of, gate, client}

get_role_id_lem_example :
    (get_uid_from_role_id (get_role_id 9 65537) ≡ 9)
    × (get_area_from_role_id (get_role_id 9 65537) ≡ get_zone_id_from_area 65537)
    × (get_role_id 9 65537 < 281474976710656)
get_role_id_lem_example = get_role_id_lem 9 65537

-- User 9 on the zone 1 sends a byte.
abbrev message : GateSsMsg
message = record { event = event_data; idx = 1; uid = 9; area = 1; ip = 0; port = 0; reason = 0 }

abbrev message_bytes : List ℕ
message_bytes = 0 ∷ 7 ∷ 3 ∷ 1 ∷ 9 ∷ 1 ∷ 0 ∷ 0 ∷ 0 ∷ 65 ∷ []

message-send_to_agent :
    send_to_agent gate.channels 7
      (list_codec.encode message ∷ (65 ∷ []) ∷ [])
      (length (list_codec.encode message))
    ≡ some message_bytes
unfolding send_to_agent get_channel lookup total_length join encode_list code_of
message-send_to_agent = refl

unpack-send_to_agent_example : unpack list_codec message_bytes ≡ some (some (message, 65 ∷ []))
unpack-send_to_agent_example =
    unpack-send_to_agent list_codec gate.channels 7 message (65 ∷ []) message_bytes
      message-send_to_agent

abbrev near : Session
near = record in_play { idx = pos 1 }

abbrev sent_bytes : List ℕ
sent_bytes = 0 ∷ 7 ∷ 3 ∷ 1 ∷ 9 ∷ 1 ∷ 0 ∷ 0 ∷ 0 ∷ 65 ∷ []

abbrev has_sent : World.World
has_sent = record one_session { out = one_session.out ++ posted 7 sent_bytes ∷ [] }

send-sent : send surroundings one_session near (65 ∷ []) ≡ (pos 0, has_sent)
unfolding send response_client send_to_agent get_channel lookup total_length join encode_list
    code_of
send-sent = refl

client_here : get_connection_by_idx gate 1 ≡ some 1
unfolding get_connection_by_idx conn_at
client_here = refl

on_agent_message-send_example :
    (bytes : List ℕ) × (g' : Gate) × (has_sent.out ≡ one_session.out ++ posted 7 bytes ∷ [])
    × (on_agent_message GateTests.env gate bytes ≡ some (pos 0, g'))
    × (g'.out ≡ gate.out ++ sent (at gate 1).fd (be16 1) ∷ sent (at gate 1).fd (65 ∷ []) ∷ [])
on_agent_message-send_example =
    on_agent_message-send surroundings one_session near (65 ∷ []) has_sent GateTests.env gate 1
      send-sent refl client_here (λ b. refl)

-- The session of user 9 is being saved for the third time.
abbrev saving : World.World
saving = record one_session {
  store = (0, record in_play { state = offline }) ∷ [];
  coroutines = (1, saving_role 0 2) ∷ [];
}

saving-stored : lookup 0 saving.store ≡ some (record in_play { state = offline })
unfolding lookup
saving-stored = refl

saved_role_lem_example :
    (w' : World.World) × (saved_role surroundings saving 0 1 2 minus_one ≡ some w')
    × (IsEnded saving w' 1
        ⊎ ((left : ℕ) × (left < 2)
            × (0 < left)
            × (minus_one ≢ pos 0)
            × IsAsking saving w' player 0 1 left))
saved_role_lem_example =
    saved_role_lem surroundings saving 0 1 2 minus_one (record in_play { state = offline }) player
      saving-stored refl

-- What the gate reports when it closes the connection of user 9.
abbrev close_bytes : List ℕ
close_bytes = 0 ∷ 7 ∷ 2 ∷ 0 ∷ 9 ∷ 1 ∷ 0 ∷ 0 ∷ 0 ∷ []

closes : close_effects GateTests.env gate.channels client 0 ≡ Server.posted 7 close_bytes ∷ []
unfolding send_to_agent get_channel lookup total_length join encode_list code_of
closes = refl

zone_there : lookup 1 one_session.agents ≡ some ((role_id, some 0) ∷ [])
unfolding lookup
zone_there = refl

on_gate_message-close_effects_example :
    on_gate_message surroundings dispatcher 7 close_bytes one_session
    ≡ some (minus_one, one_session)
unfolding get_role_id
on_gate_message-close_effects_example =
    on_gate_message-close_effects GateTests.env gate.channels client 0 7 close_bytes surroundings
      dispatcher one_session 7 0 session ((role_id, some 0) ∷ []) closes refl zone_there
      one_session-found one_session-stored (λ e. omega (arith, e))

Reached-IsWell_example : IsWell empty_zone
Reached-IsWell_example = Reached-IsWell dispatcher dispatcher-AreFair empty_zone empty_zone-Reached

stop_session_lem_example :
    ((stop_session surroundings 1 7 5 role_id one_session ≡ some (minus_one, one_session))
      × ((a : ℕ) (s : Session)
          → find_session one_session 1 role_id ≡ some a
          → lookup a one_session.store ≡ some s
          → is_of s 7 5 ≡ false))
    ⊎ ((a : ℕ) × (s : Session) × (ret : ℤ) × (w' : World.World) × (find_session one_session 1
            role_id
          ≡ some a)
        × (lookup a one_session.store ≡ some s)
        × (is_of s 7 5 ≡ true)
        × (stop_session surroundings 1 7 5 role_id one_session ≡ some (ret, w'))
        × IsKicked w' a
        × ((z u : ℕ)
            → find_session w' z u
              ≡ (if (1 == z) && (role_id == u) then none else find_session one_session z u)))
stop_session_lem_example =
    stop_session_lem surroundings one_session 1 7 5 role_id one_session-IsWell

on_gate_message-total_example :
    Ends (on_gate_message surroundings dispatcher 7 close_bytes empty_zone)
on_gate_message-total_example =
    on_gate_message-total dispatcher dispatcher-AreTotal surroundings 7 close_bytes empty_zone
      dispatcher-AreFair empty_zone-Reached (omega arith)

-- The client has gone while its role is looked up, and the database takes no insertion.
abbrev orphan : World.World
orphan = record one_session { agents = (1, []) ∷ [] }

abbrev full_db : Env
full_db = record surroundings { accepts_insert = false }

orphan-waits : lookup 1 orphan.coroutines ≡ some (getting_role 0)
unfolding lookup
orphan-waits = refl

orphan-zone : lookup 1 orphan.agents ≡ some []
unfolding lookup
orphan-zone = refl

abbrev no_sessions : Map (Option ℕ)
no_sessions = []

nobody : (uid : ℕ) → lookup uid no_sessions ≡ none
unfolding lookup
nobody uid = refl

common_coroutine_resume-fault_example : common_coroutine_resume full_db orphan (pos 1) 1 ≡ none
common_coroutine_resume-fault_example =
    common_coroutine_resume-fault full_db orphan 1 0 session no_sessions orphan-waits
      one_session-stored orphan-zone (nobody role_id) (nobody 0) refl
