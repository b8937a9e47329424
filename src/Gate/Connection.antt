-- ===== src/Gate/Connection.antt =====
-- GateServerHandler::Connection of gate/GateServerHandler.cpp.
use playground.Prelude.{ℕ, ◌+◌, ◌/◌, Bool, true, false, List, [], Option, none, leb, if◌then◌else◌}
use playground.Prelude.Words.{u32, sub_u32}

pub data ConnState : Type 0 where
  invalid connected authing authorized : ConnState

pub record Stat : Type 0 where
  pub recv_num : ℕ
  pub send_num : ℕ
  pub last_recv_num : ℕ
  pub last_send_num : ℕ
  pub last_period_time : ℕ
  pub recv_speed : ℕ
  pub send_speed : ℕ

-- `idx` is `none` for -1. `has_buffer`: the receive buffer is allocated; `buffer` holds its bytes
-- and `used` its `iUsed`.
pub record Connection : Type 0 where
  pub idx : Option ℕ
  pub fd : ℕ
  pub has_buffer : Bool
  pub buffer : List ℕ
  pub used : ℕ
  pub dst_channel : ℕ
  pub msg_len : ℕ
  pub state : ConnState
  pub uid : ℕ
  pub token : List ℕ
  pub area : ℕ
  pub last_act_time : ℕ
  pub stat : Stat
  pub timer_id : ℕ
  pub last_check_time : ℕ

abbrev pub no_stat : Stat
no_stat = record {
  recv_num = 0;
  send_num = 0;
  last_recv_num = 0;
  last_send_num = 0;
  last_period_time = 0;
  recv_speed = 0;
  send_speed = 0;
}

-- Init() leaves the socket, the buffer's memory and the area as they are.
unfoldable pub init : Connection → Connection
init c = record c {
  idx = none;
  dst_channel = 0;
  msg_len = 0;
  state = invalid;
  uid = 0;
  used = 0;
  last_act_time = 0;
  token = [];
  stat = no_stat;
  timer_id = 0;
  last_check_time = 0;
}

-- The state of a slot of the vector before its first connection.
abbrev pub blank : Connection
blank = record {
  idx = none;
  fd = 0;
  has_buffer = false;
  buffer = [];
  used = 0;
  dst_channel = 0;
  msg_len = 0;
  state = invalid;
  uid = 0;
  token = [];
  area = 0;
  last_act_time = 0;
  stat = no_stat;
  timer_id = 0;
  last_check_time = 0;
}

-- CONNECTION_STAT_PERIOD_TIME
abbrev pub stat_period : ℕ
stat_period = 5

count : Bool → Stat → Stat
count true s = record s { recv_num = u32 (s.recv_num + 1) }
count false s = record s { send_num = u32 (s.send_num + 1) }

roll : ℕ → Stat → Stat
roll now s =
    if leb (s.last_period_time + stat_period) now
    then record s {
      recv_speed = sub_u32 s.recv_num s.last_recv_num / stat_period;
      send_speed = sub_u32 s.send_num s.last_send_num / stat_period;
      last_recv_num = s.recv_num;
      last_send_num = s.send_num;
      last_period_time = now;
    }
    else s

unfoldable pub update_stat : Bool → ℕ → Connection → Connection
unfolding count roll
update_stat recv now c = record c { last_act_time = now; stat = roll now (count recv c.stat) }

-- Whether Close() closes the socket.
abbrev pub is_open : ConnState → Bool
is_open invalid = false
is_open _ = true

unfoldable pub close : Connection → Connection
close c = record c { state = invalid; idx = none }
