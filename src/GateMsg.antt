-- ===== src/GateMsg.antt =====
-- The messages between a gate and a zone server (proto/gate/GateSSMsg.proto) and between a client
-- and a gate (proto/gate/GateCSMsg.proto). protobuf's encoding is a parameter: what is decoded from
-- an encoded message is that message.
pub mod Unpacked
use playground.Prelude.{
  ℕ, ◌+◌, ◌≡◌, List, Option, none, some, ltb, if◌then◌else◌, length, take, drop,
}
use playground.Bytes.{read_be16}

pub data EventType : Type 0 where
  event_connected event_close event_data : EventType

pub record GateSsMsg : Type 0 where
  pub event : EventType
  pub idx : ℕ
  pub uid : ℕ
  pub area : ℕ
  pub ip : ℕ
  pub port : ℕ
  pub reason : ℕ

-- GateSSMsg.ConnectionCloseReason
abbrev pub close_by_default : ℕ
close_by_default = 0

abbrev pub close_by_client : ℕ
close_by_client = 1

abbrev pub close_stop_svr : ℕ
close_stop_svr = 2

abbrev pub close_exception : ℕ
close_exception = 3

pub record AuthReq : Type 0 where
  pub uid : ℕ
  pub auth : ℕ
  pub token : List ℕ
  pub area : ℕ

-- What a gate says to a client before the session starts.
pub data GateCsMsg : Type 0 where
  need_auth : GateCsMsg
  auth_rsp : ℕ → GateCsMsg

pub record SsCodec : Type 0 where
  pub encode : GateSsMsg → List ℕ
  pub decode : List ℕ → Option GateSsMsg
  pub decode-encode : (m : GateSsMsg) → decode (encode m) ≡ some m

-- The head of a message between a gate and a zone server, and what stands behind it. `none` is a
-- read beyond the message's end, `some none` the return value -1.
unfoldable pub unpack : SsCodec → List ℕ → Option (Option (GateSsMsg × List ℕ))
unpack codec bytes = elim (read_be16 bytes) [
  | none ↦ none
  | some len ↦
      if ltb (length bytes) (len + 2)
      then some none
      else elim (codec.decode (take len (drop 2 bytes))) [
        | none ↦ some none
        | some msg ↦ some (some (msg, drop len (drop 2 bytes)))
      ]
]
