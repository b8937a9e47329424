-- ===== src/Gate/Cutting.antt =====
-- How a run of OnClientDataRecv (gate/GateServerHandler.cpp) takes the length prefix and the message
-- off a read.
use playground.Prelude.{
  ℕ, suc, ◌+◌, ◌-◌, ◌<◌, ◌≡◌, ◌∙◌, Bool, ◌||◌, false, List, ◌++◌, ◌||◌, Option, none, some, refl,
  arith, ap, ltb, ◌==◌, if◌then◌else◌, length, take, drop, length-append, take-append, drop-append,
}
use playground.Prelude.Words.{pos}
use playground.Bytes.{be16, write, take-write}
use playground.Gate.Connection.{Connection}
use playground.Gate.Server.{Env, Gate, at, modify}
use playground.Gate.Receive.{take_prefix, take_message, cut, got_message, Progress, stopped}

pub take_prefix_lem :
    (c : Connection) (n : ℕ) (bytes : List ℕ)
    → c.msg_len ≡ 0
    → c.used ≡ 0
    → n < 65536
    → (buffer : List ℕ) × (take_prefix c (be16 n ++ bytes)
        ≡ (record c { buffer = buffer; msg_len = n; used = 0 }, 2))
unfolding take_prefix
take_prefix_lem c n bytes e u h = (write 0 (be16 n) c.buffer, rw (e, take_prefix, u) (ground arith))

cut_lem :
    (c : Connection) (m rest : List ℕ)
    → c.msg_len ≡ length m
    → c.used ≡ 0
    → 0 < length m
    → cut c 2 (be16 (length m) ++ (m ++ rest)) ≡ some (write 0 m c.buffer, rest)
unfolding cut
cut_lem c m rest e u h =
    let bytes = be16 (length m) ++ (m ++ rest) in
    let whole : (length m == 0) || ltb (length bytes + 0 - 2) (length m) ≡ false =
      ground (arith, length-append m rest) in
    let need : length m - 0 ≡ length m = omega arith in
    let past : 2 + (length m - 0) ≡ suc (suc (length m)) = omega arith in
    let same : (take (length m - 0) (m ++ rest), drop (2 + (length m - 0)) bytes) ≡ (m, rest) =
      rw (past, need, take-append m rest, drop-append m rest) refl in
    ap
      (λ (n : ℕ).
        if (n == 0) || ltb (length bytes + c.used - 2) n
        then none
        else some (
          write c.used (take (n - c.used) (drop 2 bytes)) c.buffer,
          drop (2 + (n - c.used)) bytes,
        ))
      e
    ∙ ap
        (λ (k : ℕ).
          if (length m == 0) || ltb (length bytes + k - 2) (length m)
          then none
          else some (
            write k (take (length m - k) (drop 2 bytes)) c.buffer,
            drop (2 + (length m - k)) bytes,
          ))
        u
    ∙ ap
        (λ (b : Bool).
          if b
          then none
          else some
              (write 0 (take (length m - 0) (m ++ rest)) c.buffer, drop (2 + (length m - 0)) bytes))
        whole
    ∙ ap (λ (x : List ℕ × List ℕ). some (write 0 x.0 c.buffer, x.1)) same

-- A whole message is handed over, and the rest is kept for the next run.
pub take_message_lem :
    (env : Env) (g : Gate) (i : ℕ) (m rest : List ℕ)
    → (at g i).msg_len ≡ length m
    → (at g i).used ≡ 0
    → 0 < length m
    → take_message env g i 2 (be16 (length m) ++ (m ++ rest))
      ≡ got_message env (modify g i (λ d. record d { buffer = write 0 m d.buffer })) i m rest
unfolding take_message
take_message_lem env g i m rest e u h =
    ap
      (λ (x : Option (List ℕ × List ℕ)). elim x as (λ _. Option Progress) [
        | none ↦ some (stopped (pos 0) g)
        | some (buffer, rest) ↦
            got_message env (modify g i (λ d. record d { buffer = buffer })) i
              (take (at g i).msg_len buffer) rest
      ])
      (cut_lem (at g i) m rest e u h)
    ∙ ap
        (λ x. got_message env (modify g i (λ d. record d { buffer = write 0 m d.buffer })) i x rest)
        (ap (λ n. take n (write 0 m (at g i).buffer)) e ∙ take-write m (at g i).buffer)
