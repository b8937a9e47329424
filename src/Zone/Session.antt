-- ===== src/Zone/Session.antt =====
-- rgtd/zone/account/Session.cpp but for Kick, which logs the session out. A session is named by its
-- address; `none` is a dangling one.
use playground.Prelude.{
  ℕ, Bool, true, false, ◌||◌, List, [], ◌∷◌, ◌++◌, none, some, leb, ◌==◌, if◌then◌else◌, length,
}
use playground.Prelude.Map.{insert}
use playground.Prelude.Words.{ℤ, pos, minus_one, to_int, to_u32}
use playground.Channel.{send_to_agent, max_channel_message_size}
use playground.GateMsg.{GateSsMsg, EventType, event_connected, event_close, event_data}
use playground.Zone.World
use playground.Zone.World.{
  SessionState, loading, creating, playing, Role, PlayerAgent, Session, Effect, posted, attached,
  released, born, Env, Step,
}

-- The constructor's values.
abbrev pub new_session : ℕ → ℕ → Session
new_session zone src = record {
  uid = 0;
  accountid = 0;
  area = 0;
  gate = src;
  idx = minus_one;
  port = pos 0;
  state = SessionState.init;
  player = none;
  zone = zone;
}

abbrev pub init : ℕ → GateSsMsg → Session → Session
init uid ggc s = record s {
  uid = uid;
  accountid = ggc.uid;
  port = to_int ggc.port;
  idx = to_int ggc.idx;
  area = ggc.area;
}

-- GetIdx
abbrev pub get_idx : Session → ℕ
get_idx s = to_u32 s.idx

abbrev pub put : World.World → ℕ → Session → World.World
put w a s = record w { store = insert a s w.store }

abbrev pub set_state : World.World → ℕ → Session → SessionState → World.World
set_state w a s st = put w a (record s { state = st })

-- The message of ResponseClient.
abbrev pub response : Session → EventType → ℕ → GateSsMsg
response s event param = record {
  event = event;
  idx = get_idx s;
  uid = s.accountid;
  area = s.area;
  ip = 0;
  port = 0;
  reason = elim event [ event_close ↦ param | event_connected ↦ 0 | event_data ↦ 0 ];
}

unfoldable pub response_client :
    Env → World.World → Session → EventType → ℕ → List (List ℕ) → ℤ × World.World
response_client env w s event param payload =
    let head = env.codec.encode (response s event param) in
    elim (send_to_agent env.channels s.gate (head ∷ payload) (length head)) [
      | none ↦ (minus_one, w)
      | some bytes ↦
          (env.post_message s.gate bytes, record w { out = w.out ++ posted s.gate bytes ∷ [] })
    ]

-- A player that the session had before is let go.
abbrev pub let_go : Session → List Effect
let_go s = elim s.player [ none ↦ [] | some old ↦ released old.role ∷ [] ]

-- AttachPlayerAgent
abbrev pub attach_player_agent : World.World → ℕ → Session → PlayerAgent → World.World
attach_player_agent w a s player = record (put w a (record s { player = some player })) {
  out = w.out ++ (let_go s ++ attached player.role ∷ []);
}

abbrev pub may_send : SessionState → Bool
may_send loading = true
may_send creating = true
may_send playing = true
may_send _ = false

-- Send of a message that protobuf encodes as `bytes`, with PackCSMsg.
unfoldable pub send : Env → World.World → Session → List ℕ → ℤ × World.World
send env w s bytes =
    if may_send s.state
    then (if (length bytes == 0) || leb max_channel_message_size (length bytes)
        then (minus_one, w)
        else response_client env w s event_data 0 (bytes ∷ []))
    else (minus_one, w)
