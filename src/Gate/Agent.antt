-- ===== src/Gate/Agent.antt =====
-- gate/GateAgentChannelMsgHandler.cpp: what a gate does with a message of a zone server.
use playground.Prelude.{ℕ, ◌+◌, List, Option, none, some}
use playground.Prelude.Words.{ℤ, pos, minus_one}
use playground.GateMsg.{GateSsMsg, EventType, event_connected, event_close, event_data, unpack}
use playground.Gate.Server.{Env, Gate, get_connection_by_idx, remove_connection}
use playground.Gate.Client.{send_frame_to_client}

-- The `switch` of DispatchMessage, for the connection at the index `i`.
unfoldable pub on_agent_event : Env → Gate → ℕ → GateSsMsg → List ℕ → EventType → ℤ × Gate
on_agent_event env g i msg payload event_close = (pos 0, remove_connection env g i msg.reason)
on_agent_event env g i msg payload event_data = (
  pos 0,
  (send_frame_to_client env (record g { downpkgs = g.downpkgs + 1; rsppkgs = g.rsppkgs + 1 }) i
      payload).1,
)
on_agent_event env g i msg payload event_connected = (minus_one, g)

-- `none` is a read beyond the message's end.
unfoldable pub on_agent_message : Env → Gate → List ℕ → Option (ℤ × Gate)
on_agent_message env g bytes = elim (unpack env.codec bytes) [
  | none ↦ none
  | some none ↦ some (minus_one, g)
  | some (some (msg, payload)) ↦ elim (get_connection_by_idx g msg.idx) [
    | none ↦ some (minus_one, g)
    | some i ↦ some (on_agent_event env g i msg payload msg.event)
  ]
]
