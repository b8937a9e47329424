-- ===== src/Gate/Broken.antt =====
-- A read that ends inside a message (OnClientDataRecv of gate/GateServerHandler.cpp).
use playground.Prelude.{
  ℕ, ◌+◌, ◌-◌, ◌<◌, ◌≡◌, ◌∙◌, ◌||◌, Bool, true, List, ◌++◌, Option, none, some, refl, arith, ap,
  ltb, ◌==◌, if◌then◌else◌, length, drop, take,
}
use playground.Prelude.Words.{ℤ, pos, minus_one}
use playground.Bytes.{be16, write}
use playground.Gate.Connection.{Connection}
use playground.Gate.Server.{emit, Env, Gate, closed, at, conn_at-set, modify}
use playground.Gate.Receive.{
  cut, take_message, got_message, Progress, stopped, on_piece, go_on, on_data, on_client_data_recv,
}
use playground.Gate.Pieces.{IsReady, prefixed, prefix_lem}
use playground.Gate.Framing.{get_connection_by_fd-IsReady}

cut-none :
    (c : Connection) (n : ℕ) (part : List ℕ)
    → c.msg_len ≡ n
    → c.used ≡ 0
    → length part < n
    → cut c 2 (be16 n ++ part) ≡ none
unfolding cut
cut-none c n part e u lt =
    let bytes = be16 n ++ part in
    let short : (c.msg_len == 0) || ltb (length bytes + c.used - 2) c.msg_len ≡ true =
      ground arith in
    ap
      (λ (b : Bool).
        if b
        then none
        else some (
          write c.used (take (c.msg_len - c.used) (drop 2 bytes)) c.buffer,
          drop (2 + (c.msg_len - c.used)) bytes,
        ))
      short

-- Where the connection of a socket is authorised and has nothing half received, a read of a length
-- below 2 ^ 16 and of fewer bytes than that length makes OnClientDataRecv return 0 and do nothing
-- outside; the connection then waits for a message of the length, and counts none of its bytes as
-- received.
pub on_client_data_recv_broken :
    (env : Env) (g : Gate) (fd i n : ℕ) (part : List ℕ)
    → IsReady g fd i
    → n < 65536
    → length part < n
    → (g' : Gate) × (on_client_data_recv env g fd (be16 n ++ part) ≡ some (pos 0, g'))
      × (g'.out ≡ g.out)
      × ((at g' i).msg_len ≡ n)
      × ((at g' i).used ≡ 0)
unfolding on_client_data_recv on_data go_on take_message
on_client_data_recv_broken env g fd i n part r h lt =
    let bytes = be16 n ++ part in
    let (buffer, pre) = prefix_lem env g fd i n part r h in
    let g1 = prefixed g i n buffer bytes in
    let here =
      conn_at-set g.conns i (record (at g i) { buffer = buffer; msg_len = n; used = 0 })
        r.in_range in
    let len : (at g1 i).msg_len ≡ n = ap (λ (c : Connection). c.msg_len) here in
    let used : (at g1 i).used ≡ 0 = ap (λ (c : Connection). c.used) here in
    let again : Gate → List ℕ → Option (ℤ × Gate) =
      λ g' rest. on_data (length bytes) env g' fd rest in
    (
      g1,
      ap
            (λ (x : Option ℕ). elim x as (λ _. Option (ℤ × Gate)) [
              | none ↦ some (minus_one, emit g (closed fd))
              | some k ↦ go_on again (on_piece env g k bytes)
            ])
            (get_connection_by_fd-IsReady g fd i r)
          ∙ ap (go_on again) pre
          ∙ ap
              (λ (x : Option (List ℕ × List ℕ)). go_on again (elim x as (λ _. Option Progress) [
                | none ↦ some (stopped (pos 0) g1)
                | some (b, rest) ↦
                    got_message env (modify g1 i (λ d. record d { buffer = b })) i
                      (take (at g1 i).msg_len b) rest
              ]))
              (cut-none (at g1 i) n part len used lt),
      refl,
      len,
      used,
    )
