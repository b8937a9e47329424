-- ===== src/Gate/Client.antt =====
-- gate/GateServerHandler.cpp: what a gate sends to its clients, and the handling of one message of
-- a client by the state of its connection.
use playground.Prelude.{
  ℕ, ◌+◌, true, false, List, [], ◌∷◌, Option, none, some, ltb, ◌==◌, if◌then◌else◌, length, take,
}
use playground.Prelude.Map.{lookup}
use playground.Prelude.Words.{ℤ, pos, negsuc, u16, minus_one}
use playground.Bytes.{be16}
use playground.GateMsg.{event_connected, event_data, AuthReq, GateCsMsg, auth_rsp, close_exception}
use playground.Gate.Connection.{ConnState, invalid, connected, authing, authorized, update_stat}
use playground.Gate.Server.{Env, Gate, sent, at, modify, emit, report_event, remove_connection}

-- A frame's size is a `uint16_t`: its low half and so many bytes are sent.
unfoldable pub send_frame_to_client : Env → Gate → ℕ → List ℕ → ℤ × Gate
send_frame_to_client env g i bytes =
    let size = u16 (length bytes) in
    let frame = take size bytes in
    let fd = (at g i).fd in
    let g1 = modify g i (update_stat false env.now) in
    let g2 = record (emit g1 (sent fd (be16 size))) { downloadsize = g.downloadsize + size } in
    if env.sends fd (be16 size)
    then (if env.sends fd frame then (pos 0, emit g2 (sent fd frame)) else (minus_one, g2))
    else (minus_one, g1)

-- `none` is the failed `assert` on the size of the message.
unfoldable pub send_to_client : Env → Gate → ℕ → GateCsMsg → Option (ℤ × Gate)
send_to_client env g i msg =
    let bytes = env.encode_cs msg in
    if ltb (length bytes) 65535
    then (if env.allocates then some (send_frame_to_client env g i bytes) else some (minus_one, g))
    else none

unfoldable pub authorizing : Env → Gate → ℕ → AuthReq → ℤ × Gate
authorizing env g i auth = elim (lookup auth.area env.area_channel) [
  | none ↦ (minus_one, g)
  | some channel ↦ (
    if env.needs_auth then pos 1 else pos 0,
    modify g i λ c. record c {
      area = auth.area;
      dst_channel = channel;
      uid = auth.uid;
      token = auth.token;
      last_act_time = env.now;
    },
  )
]

unfoldable pub forward_data : Env → Gate → ℕ → List ℕ → Gate
forward_data env g i bytes =
    let g1 = report_event env (record g { reqpkgs = g.reqpkgs + 1 }) i event_data 0 (bytes ∷ []) in
    if env.test_mode then (send_frame_to_client env g1 i env.test_frame).1 else g1

abbrev pub set_state : Gate → ℕ → ConnState → Gate
set_state g i s = modify g i λ c. record c { state = s }

-- The branch of a client that is connected and not authorised: its message is its request.
unfoldable pub on_auth_message : Env → Gate → ℕ → List ℕ → Option (ℤ × Gate)
on_auth_message env g i bytes = elim (env.parse_auth bytes) [
  | none ↦ some (minus_one, g)
  | some auth ↦
      let (ret, g1) = authorizing env g i auth in
      elim ret [
        | pos n ↦
            if n == 0
            then elim (send_to_client env g1 i (auth_rsp 0)) [
              | none ↦ none
              | some (_, g2) ↦
                  some (pos 0, report_event env (set_state g2 i authorized) i event_connected 0 [])
            ]
            else some (pos 0, set_state g1 i authing)
        | negsuc _ ↦ some (minus_one, remove_connection env g1 i close_exception)
      ]
]

unfoldable pub on_message_in : Env → Gate → ℕ → List ℕ → ConnState → Option (ℤ × Gate)
on_message_in env g i bytes connected = on_auth_message env g i bytes
on_message_in env g i bytes authing = some (pos 0, g)
on_message_in env g i bytes authorized = some (pos 0, forward_data env g i bytes)
on_message_in env g i bytes invalid = some (minus_one, remove_connection env g i close_exception)

unfoldable pub on_client_message : Env → Gate → ℕ → List ℕ → Option (ℤ × Gate)
on_client_message env g i bytes =
    let g1 = modify (record g { uppkgs = g.uppkgs + 1 }) i (update_stat true env.now) in
    on_message_in env g1 i bytes (at g i).state
