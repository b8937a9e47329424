-- ===== src/Gate/Server.antt =====
-- gate/GateServerHandler.cpp: the table of client connections of a gate, and what it tells the zone
-- servers. A connection is named by its index in the vector, as the source's pointers are. `out`
-- lists what the gate did to sockets and channels, in order.
use playground.Prelude.{
  ℕ, zero, suc, Bool, ◌||◌, List, [], ◌∷◌, ◌++◌, Option, none, some, leb, ◌==◌, if◌then◌else◌,
  length, get_elem?, set, get_elem?-set_self, ◌<◌, ◌≡◌, refl,
}
use playground.Prelude.Map.{Map, lookup, insert, erase}
use playground.Prelude.Words.{ℤ, pos}
use playground.Channel.{Channels, send_to_agent}
use playground.GateMsg.{
  GateSsMsg, EventType, event_connected, event_close, event_data, AuthReq, GateCsMsg, SsCodec,
}
use playground.Timer.{TimerMgr, cancel_timer}
use playground.Gate.Connection
use playground.Gate.Connection.{
  Connection, ConnState, invalid, connected, authing, authorized, blank, update_stat, is_open,
}

pub data Effect : Type 0 where
  closed : ℕ → Effect
  sent : ℕ → List ℕ → Effect
  posted : ℕ → List ℕ → Effect

-- What the gate reads of its context and of the libraries: the clock, the configuration, the result
-- of a socket's Send, a peer's address, protobuf's encodings, and the allocation of a buffer.
pub record Env : Type 0 where
  pub now : ℕ
  pub area_channel : Map ℕ
  pub needs_auth : Bool
  pub test_mode : Bool
  pub idle_check_period : ℕ
  pub sends : ℕ → List ℕ → Bool
  pub peer : ℕ → ℕ × ℕ
  pub allocates : Bool
  pub codec : SsCodec
  pub encode_cs : GateCsMsg → List ℕ
  pub test_frame : List ℕ
  pub parse_auth : List ℕ → Option AuthReq

pub record Gate : Type 0 where
  pub conns : List Connection
  pub fds : Map ℕ
  pub max_connection : ℕ
  pub alived : ℤ
  pub closing : ℕ
  pub last_closing_idx : ℕ
  pub max_idle_time : ℕ
  pub downloadsize : ℕ
  pub uploadsize : ℕ
  pub reqpkgs : ℕ
  pub rsppkgs : ℕ
  pub downpkgs : ℕ
  pub uppkgs : ℕ
  pub channels : Channels
  pub timers : TimerMgr
  pub out : List Effect

unfoldable pub conn_at : List Connection → ℕ → Connection
conn_at cs i = elim (get_elem? cs i) [ none ↦ blank | some c ↦ c ]

abbrev pub at : Gate → ℕ → Connection
at g i = conn_at g.conns i

pub conn_at-set :
    (cs : List Connection) (i : ℕ) (c : Connection) → i < length cs → conn_at (set cs i c) i ≡ c
unfolding conn_at
conn_at-set cs i c h = rw (get_elem?-set_self cs i c h, conn_at) refl

abbrev pub modify : Gate → ℕ → (Connection → Connection) → Gate
modify g i f = record g { conns = set g.conns i (f (at g i)) }

abbrev pub emit : Gate → Effect → Gate
emit g e = record g { out = g.out ++ e ∷ [] }

-- `none` is NULL.
unfoldable pub get_connection_by_idx : Gate → ℕ → Option ℕ
get_connection_by_idx g i =
    if (i == 0) || leb (length g.conns) i
    then none
    else if is_open (at g i).state
    then some i
    else none

unfoldable pub get_connection_by_fd : Gate → ℕ → Option ℕ
get_connection_by_fd g fd = elim (lookup fd g.fds) [
  | none ↦ none
  | some i ↦ get_connection_by_idx g i
]

-- `m_mpConnections[fd]`, which makes a new entry 0 where there is none.
unfoldable pub index_of_fd : Gate → ℕ → ℕ × Gate
index_of_fd g fd = elim (lookup fd g.fds) [
  | some i ↦ (i, g)
  | none ↦ (0, record g { fds = insert fd 0 g.fds })
]

abbrev pub ss_msg : Env → Connection → EventType → ℕ → ℕ → GateSsMsg
ss_msg env c event_connected param i =
    let (ip, port) = env.peer c.fd in
    record {
      event = event_connected;
      idx = i;
      uid = c.uid;
      area = c.area;
      ip = ip;
      port = port;
      reason = 0;
    }
ss_msg env c event_close param i = record {
  event = event_close;
  idx = i;
  uid = c.uid;
  area = c.area;
  ip = 0;
  port = 0;
  reason = param;
}
ss_msg env c event_data param i = record {
  event = event_data;
  idx = i;
  uid = c.uid;
  area = c.area;
  ip = 0;
  port = 0;
  reason = 0;
}

-- ReportEvent drops what SendToAgent returns. `payload` has one buffer, or none for NULL.
unfoldable pub report_event : Env → Gate → ℕ → EventType → ℕ → List (List ℕ) → Gate
report_event env g i event param payload =
    let c = at g i in
    let (k, g') = index_of_fd g c.fd in
    let head = env.codec.encode (ss_msg env c event param k) in
    elim (send_to_agent g.channels c.dst_channel (head ∷ payload) (length head)) [
      | none ↦ g'
      | some bytes ↦ emit g' (posted c.dst_channel bytes)
    ]

abbrev pub close_connection : Gate → ℕ → Gate
close_connection g i =
    let c = at g i in
    let g' = if is_open c.state then emit g (closed c.fd) else g in modify g' i Connection.close

unfoldable pub remove_connection : Env → Gate → ℕ → ℕ → Gate
remove_connection env g i reason =
    let fd = (at g i).fd in
    let g1 = record g { fds = erase fd g.fds } in
    let g2 = report_event env g1 i event_close reason [] in
    let timers = record g2.timers { core = cancel_timer g2.timers.core (at g2 i).timer_id } in
    close_connection (record g2 { timers = timers }) i

unfoldable pub empty_slots : ℕ → List Connection
empty_slots zero = []
empty_slots (suc n) = blank ∷ empty_slots n

-- The constructor of GateServerHandler.
unfoldable pub new_gate : Env → ℕ → Channels → TimerMgr → Gate
unfolding empty_slots
new_gate env max_connections channels timers = record {
  conns = empty_slots max_connections;
  fds = [];
  max_connection = max_connections;
  alived = pos 0;
  closing = 0;
  last_closing_idx = 0;
  max_idle_time = env.idle_check_period;
  downloadsize = 0;
  uploadsize = 0;
  reqpkgs = 0;
  rsppkgs = 0;
  downpkgs = 0;
  uppkgs = 0;
  channels = channels;
  timers = timers;
  out = [];
}
