-- ===== src/Tests/GateTests.antt =====
-- The theorems of the gate, applied to a gate with one client.
use playground.Prelude.{
  ℕ, zero, suc, ◌≤◌, ◌≡◌, refl, List, [], ◌∷◌, ◌++◌, Option, none, some, arith, ◌↔◌, if◌then◌else◌,
  true, false,
}
use playground.Prelude.Map.{lookup}
use playground.Prelude.Words.{ℤ, pos}
use playground.GateMsg.{GateSsMsg, EventType, event_connected, event_close, event_data, SsCodec}
use playground.Gate.Connection.{Connection, blank, authorized, is_open}
use playground.Gate.Server.{
  Env, Gate, closed, at, conn_at, get_connection_by_idx, get_connection_by_fd, new_gate,
  empty_slots, remove_connection,
}
use playground.Gate.Client.{send_to_client, send_frame_to_client}
use playground.Gate.Receive.{
  on_new_connection, free_slot, start_idle_timer, on_client_data_recv, get_next_idx,
}
use playground.Gate.Pieces.{IsReady, frames}
use playground.Gate.Closing.{on_closing}
use playground.Gate.Shutdown.{on_closing_lem}
use playground.Bytes.{be16}
use playground.Gate.Broken.{on_client_data_recv_broken}
use playground.Gate.Removal.{IsGone, close_effects, remove_connection_lem}
use playground.Gate.Sound.{IsSound}
use playground.Gate.Sound.Found.{get_connection_by_fd_lem}
use playground.Gate.Sound.Reachable.{Reached, started, came, Reached-IsSound}
use playground.Gate.Posting.{reports}
use playground.Gate.Framing.{on_client_data_recv_lem}

unfoldable pub code_of : EventType → ℕ
code_of event_connected = 1
code_of event_close = 2
code_of event_data = 3

unfoldable pub event_of : ℕ → EventType
event_of zero = event_data
event_of (suc zero) = event_connected
event_of (suc (suc zero)) = event_close
event_of (suc (suc (suc n))) = event_data

unfoldable pub encode_list : GateSsMsg → List ℕ
encode_list m = code_of m.event ∷ m.idx ∷ m.uid ∷ m.area ∷ m.ip ∷ m.port ∷ m.reason ∷ []

unfoldable pub decode_list : List ℕ → Option GateSsMsg
decode_list (e ∷ i ∷ u ∷ a ∷ ip ∷ port ∷ r ∷ []) =
    some
      (record { event = event_of e; idx = i; uid = u; area = a; ip = ip; port = port; reason = r })
decode_list _ = none

event_of-code_of : (e : EventType) → event_of (code_of e) ≡ e
unfolding event_of code_of
event_of-code_of event_connected = refl
event_of-code_of event_close = refl
event_of-code_of event_data = refl

pub decode_list-encode_list : (m : GateSsMsg) → decode_list (encode_list m) ≡ some m
unfolding decode_list encode_list
decode_list-encode_list m = rw (event_of-code_of m.event) refl

abbrev pub list_codec : SsCodec
list_codec = record {
  encode = encode_list;
  decode = decode_list;
  decode-encode = decode_list-encode_list;
}

abbrev pub env : Env
env = record {
  now = 100;
  area_channel = (1, 7) ∷ [];
  needs_auth = false;
  test_mode = false;
  idle_check_period = 60;
  sends = λ _ _. true;
  peer = λ _. (0, 0);
  allocates = true;
  codec = list_codec;
  encode_cs = λ _. [];
  test_frame = [];
  parse_auth = λ _. none;
}

-- The client of socket 4 is user 9, on the zone server of channel 7.
abbrev pub client : Connection
client = record blank {
  idx = some 1;
  fd = 4;
  has_buffer = true;
  state = authorized;
  uid = 9;
  area = 1;
  dst_channel = 7;
  timer_id = 1;
}

abbrev pub gate : Gate
gate = record {
  conns = blank ∷ client ∷ [];
  fds = (4, 1) ∷ [];
  max_connection = 2;
  alived = pos 1;
  closing = 0;
  last_closing_idx = 0;
  max_idle_time = 60;
  downloadsize = 0;
  uploadsize = 0;
  reqpkgs = 0;
  rsppkgs = 0;
  downpkgs = 0;
  uppkgs = 0;
  channels = record { agents = (7, []) ∷ []; next_gen_id = 8 };
  timers = record {
    core = record { cur_ms = 0; events = []; listeners = []; next_id = 2 };
    timers = [];
  };
  out = [];
}

pub gate-IsReady : IsReady gate 4 1
unfolding lookup conn_at
gate-IsReady = record {
  mapped = refl;
  used_slot = omega arith;
  in_range = omega arith;
  socket = refl;
  state = refl;
  no_prefix = refl;
  no_bytes = refl;
}

on_client_data_recv_lem_example :
    (g' : Gate) × (on_client_data_recv env gate 4 (frames ((65 ∷ []) ∷ (66 ∷ 67 ∷ []) ∷ []))
      ≡ some (pos 0, g'))
    × IsReady g' 4 1
    × (g'.out
        ≡ gate.out ++ reports env gate.channels (at gate 1) 1 ((65 ∷ []) ∷ (66 ∷ 67 ∷ []) ∷ []))
on_client_data_recv_lem_example =
    on_client_data_recv_lem env gate 4 1 (65 ∷ []) ((66 ∷ 67 ∷ []) ∷ []) refl gate-IsReady
      (omega arith, omega arith) ((omega arith, omega arith), tt)

remove_connection_lem_example : IsGone gate (remove_connection env gate 1 3) 1 (
    close_effects env gate.channels (at gate 1) 3
    ++ (if is_open (at gate 1).state then closed (at gate 1).fd ∷ [] else []))
remove_connection_lem_example = remove_connection_lem env gate 1 3 (omega arith)

on_closing_lem_example :
    let (ret, g') = on_closing env gate 2 200 in
    (ret ≡ pos 1)
    × ((j : ℕ) → 0 ≤ j → get_connection_by_idx g' j ≡ none)
    × ((j : ℕ) → get_connection_by_idx gate j ≡ none → get_connection_by_idx g' j ≡ none)
on_closing_lem_example = on_closing_lem env gate 2 200 (omega arith)

on_client_data_recv_broken_example :
    (g' : Gate) × (on_client_data_recv env gate 4 (be16 3 ++ 65 ∷ []) ≡ some (pos 0, g'))
    × (g'.out ≡ gate.out)
    × ((at g' 1).msg_len ≡ 3)
    × ((at g' 1).used ≡ 0)
on_client_data_recv_broken_example =
    on_client_data_recv_broken env gate 4 1 3 (65 ∷ []) gate-IsReady (omega arith) (omega arith)

-- A gate with one slot for clients and no idle check, before its first client and with it.
abbrev patient : Env
patient = record env { idle_check_period = 0 }

abbrev first_gate : Gate
first_gate = new_gate patient 2 gate.channels gate.timers

abbrev outcome : Option (ℤ × Gate) → Gate
outcome none = first_gate
outcome (some (ret, g)) = g

abbrev served : Gate
served = outcome (on_new_connection patient first_gate 4)

served-Reached : Reached served
unfolding new_gate empty_slots on_new_connection get_connection_by_fd lookup get_next_idx free_slot
    conn_at send_to_client send_frame_to_client start_idle_timer
served-Reached = came patient 4 (pos 0) (started patient 2 gate.channels gate.timers) refl refl

Reached-IsSound_example : IsSound served.conns served.fds
Reached-IsSound_example = Reached-IsSound served served-Reached

get_connection_by_fd_lem_example :
    (get_connection_by_fd served 4 ≡ some 1)
    ↔ ((is_open (at served 1).state ≡ true) × ((at served 1).fd ≡ 4))
get_connection_by_fd_lem_example = get_connection_by_fd_lem served 4 1 served-Reached
