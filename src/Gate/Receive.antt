-- ===== src/Gate/Receive.antt =====
-- gate/GateServerHandler.cpp: the events of the TCP server (a client connects, sends, closes), the
-- idle check, and the shutdown of a gate.
use playground.Prelude.{
  ℕ, zero, suc, ◌+◌, ◌-◌, ◌*◌, not, ◌&&◌, ◌||◌, List, [], ◌∷◌, Option, none, some, ltb, leb, ◌==◌,
  if◌then◌else◌, length, take, drop,
}
use playground.Prelude.Map.{insert}
use playground.Prelude.Words.{u32, to_int, to_u64, ℤ, pos, is_zero_ℤ, ◌+ℤ◌, ◌-ℤ◌, minus_one, ltb_ℤ}
use playground.Bytes.{read_be16, write}
use playground.GateMsg.{need_auth, close_by_client}
use playground.Timer.{add_timer}
use playground.Gate.Connection
use playground.Gate.Connection.{
  Connection, ConnState, invalid, connected, authing, authorized, blank, update_stat, is_open,
}
use playground.Gate.Server.{
  Env, Gate, closed, at, modify, emit, get_connection_by_fd, remove_connection,
}
use playground.Gate.Client.{send_to_client, on_client_message}

-- The free index that GetNextIdx finds from `i` on.
unfoldable pub free_slot : ℕ → List Connection → Option ℕ
free_slot i [] = none
free_slot i (c ∷ cs) = if is_open c.state then free_slot (suc i) cs else some i

-- `none` is -1. Slot 0 is never used.
unfoldable pub get_next_idx : Gate → Option ℕ
get_next_idx g =
    if ltb_ℤ g.alived (pos g.max_connection) then free_slot 1 (drop 1 g.conns) else none

-- `iConnxMaxIdleTime*1000`, a `uint32_t`, as the `int` that AddTimer takes and adds to the clock.
abbrev pub idle_ms : Gate → ℕ
idle_ms g = to_u64 (to_int (u32 (g.max_idle_time * 1000)))

-- The timer of the idle check, if there is one; `none`: AddTimer does not end.
unfoldable pub start_idle_timer : Gate → ℕ → Option Gate
start_idle_timer g i =
    if ltb 0 g.max_idle_time
    then elim (add_timer g.timers (idle_ms g) i (some 0) 0) [
      | none ↦ none
      | some (id, timers) ↦
          some (modify (record g { timers = timers }) i (λ c. record c { timer_id = id }))
    ]
    else some g

-- The slot's buffer is allocated on first use, and so kept when the connection ends.
abbrev pub with_buffer : Env → Connection → Connection
with_buffer env c = if c.has_buffer then c else record c { has_buffer = env.allocates }

-- OnNewConnection; `none` is a fault: where GetNextIdx says -1 the source writes to
-- `m_vecConnections[-1]`.
unfoldable pub on_new_connection : Env → Gate → ℕ → Option (ℤ × Gate)
on_new_connection env g0 fd =
    let g = record g0 { alived = g0.alived +ℤ pos 1 } in
    elim (get_next_idx g) [
      | none ↦ none
      | some i ↦
          let g1 = modify g i (with_buffer env) in
          if (at g1 i).has_buffer && (g.closing == 0)
          then (let g2 =
                modify g1 i (λ c. record (Connection.init c) { state = connected; fd = fd }) in
              elim (send_to_client env g2 i need_auth) [
                | none ↦ none
                | some (ret, g3) ↦
                    let g4 =
                      modify (record g3 { fds = insert fd i g3.fds }) i
                        (λ c. record c { idx = some i }) in
                    if not (is_zero_ℤ ret)
                    then some (minus_one, modify (emit g3 (closed fd)) i Connection.close)
                    else elim (start_idle_timer g4 i) [ none ↦ none | some g5 ↦ some (pos 0, g5) ]
              ])
          else some (minus_one, emit g1 (closed fd))
    ]

-- What OnClientDataRecv does with the length prefix: the bytes of the read that it used.
abbrev pub prefix_len : ℕ
prefix_len = 2

unfoldable pub take_prefix : Connection → List ℕ → Connection × ℕ
take_prefix c bytes =
    if c.msg_len == 0
    then (let off = prefix_len - c.used in
        if leb prefix_len (c.used + length bytes)
        then (let buffer = write c.used (take off bytes) c.buffer in
            (
              record c {
                buffer = buffer;
                msg_len = elim (read_be16 buffer) [ none ↦ 0 | some n ↦ n ];
                used = 0;
              },
              off,
            ))
        else (record c { buffer = write c.used bytes c.buffer }, 0))
    else (c, 0)

-- What one run of OnClientDataRecv comes to, before its call on the rest of the read: it returns,
-- or it handled a message, with the errors counted so far and the rest.
pub data Progress : Type 0 where
  stopped : ℤ → Gate → Progress
  handled : ℤ → Gate → List ℕ → Progress

-- What is cut off behind the prefix, of which `off` bytes of the read were used: the buffer with the
-- whole message, and the rest of the read. `none`: the message is not whole.
unfoldable pub cut : Connection → ℕ → List ℕ → Option (List ℕ × List ℕ)
cut c off bytes =
    let need = c.msg_len - c.used in
    if (c.msg_len == 0) || ltb (length bytes + c.used - off) c.msg_len
    then none
    else some (write c.used (take need (drop off bytes)) c.buffer, drop (off + need) bytes)

unfoldable pub got_message : Env → Gate → ℕ → List ℕ → List ℕ → Option Progress
got_message env g i msg rest = elim (on_client_message env g i msg) [
  | none ↦ none
  | some (ret, g') ↦ some (
      handled (if is_zero_ℤ ret then pos 0 else pos 1)
        (modify g' i (λ d. record d { msg_len = 0; used = 0 })) rest)
]

unfoldable pub take_message : Env → Gate → ℕ → ℕ → List ℕ → Option Progress
take_message env g i off bytes = elim (cut (at g i) off bytes) [
  | none ↦ some (stopped (pos 0) g)
  | some (buffer, rest) ↦
      got_message env (modify g i (λ d. record d { buffer = buffer })) i
        (take (at g i).msg_len buffer) rest
]

unfoldable pub on_piece : Env → Gate → ℕ → List ℕ → Option Progress
on_piece env g0 i bytes =
    let g = record g0 { uploadsize = g0.uploadsize + length bytes } in
    let c = at g i in
    let (c1, off) = take_prefix c bytes in
    if (c.msg_len == 0) && leb prefix_len c.used
    then some (
        stopped minus_one
          (modify (if is_open c.state then emit g (closed c.fd) else g) i Connection.close))
    else take_message env (modify g i (λ _. c1)) i off bytes

-- The end of OnClientDataRecv: `again` is its call on the rest of the read, whose errors are added.
unfoldable pub go_on : (Gate → List ℕ → Option (ℤ × Gate)) → Option Progress → Option (ℤ × Gate)
go_on again none = none
go_on again (some (stopped ret g)) = some (ret, g)
go_on again (some (handled errors g [])) = some (errors, g)
go_on again (some (handled errors g (b ∷ rest))) = elim (again g (b ∷ rest)) [
  | none ↦ none
  | some (more, g') ↦ some (errors +ℤ more, g')
]

-- OnClientDataRecv with fuel for its call on the rest of the read. `none`: a fault of a callee, or
-- the fuel ran out.
unfoldable pub on_data : ℕ → Env → Gate → ℕ → List ℕ → Option (ℤ × Gate)
on_data zero env g fd bytes = none
on_data (suc fuel) env g fd bytes = elim (get_connection_by_fd g fd) [
  | none ↦ some (minus_one, emit g (closed fd))
  | some i ↦ go_on (λ g' rest. on_data fuel env g' fd rest) (on_piece env g i bytes)
]

unfoldable pub on_client_data_recv : Env → Gate → ℕ → List ℕ → Option (ℤ × Gate)
on_client_data_recv env g fd bytes = on_data (suc (length bytes)) env g fd bytes

unfoldable pub on_connection_closed : Env → Gate → ℕ → ℤ × Gate
on_connection_closed env g0 fd =
    let g = record g0 { alived = g0.alived -ℤ pos 1 } in
    elim (get_connection_by_fd g fd) [
      | none ↦ (minus_one, g)
      | some i ↦ (pos 0, remove_connection env g i close_by_client)
    ]
