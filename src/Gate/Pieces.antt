-- ===== src/Gate/Pieces.antt =====
-- One run of OnClientDataRecv (gate/GateServerHandler.cpp) on a read that starts with a whole
-- message.
use playground.Prelude.{
  ℕ, ◌+◌, ◌<◌, ◌≡◌, ◌∙◌, Bool, ◌&&◌, true, false, List, [], ◌∷◌, ◌++◌, ◌&&◌, Option, none, some,
  refl, arith, ap, leb, ◌==◌, if◌then◌else◌, length, set, length-set,
}
use playground.Prelude.Map.{lookup}
use playground.Prelude.Words.{ℤ, pos, minus_one, is_zero_ℤ}
use playground.Bytes.{be16, write}
use playground.Gate.Connection
use playground.Gate.Connection.{Connection, authorized, update_stat, is_open}
use playground.Gate.Server.{emit, Env, Gate, Effect, closed, at, conn_at-set, modify}
use playground.Gate.Receive.{
  take_prefix, prefix_len, take_message, got_message, on_piece, Progress, handled, stopped,
}
use playground.Gate.Reports.{data_effects, forward_lem}
use playground.Gate.Cutting.{take_prefix_lem, take_message_lem}

-- A length prefix and a message, as a client sends them.
abbrev pub frame : List ℕ → List ℕ
frame m = be16 (length m) ++ m

abbrev pub frames : List (List ℕ) → List ℕ
frames [] = []
frames (m ∷ ms) = frame m ++ frames ms

-- A message of 1 to 65535 bytes.
abbrev pub IsMessage : List ℕ → Type 0
IsMessage m = (0 < length m) × (length m < 65536)

-- The connection `i` of socket `fd` is authorised, and no message is half received.
pub record IsReady (g : Gate) (fd i : ℕ) : Type 0 where
  pub mapped : lookup fd g.fds ≡ some i
  pub used_slot : 0 < i
  pub in_range : i < length g.conns
  pub socket : (at g i).fd ≡ fd
  pub state : (at g i).state ≡ authorized
  pub no_prefix : (at g i).msg_len ≡ 0
  pub no_bytes : (at g i).used ≡ 0

-- The connection once a message is handled.
abbrev pub served : Env → Connection → List ℕ → Connection
served env c buffer = record (update_stat true env.now (record c { buffer = buffer })) {
  msg_len = 0;
  used = 0;
}

-- What a message of an authorised client leaves: the connection `c`, and what it added to `out`.
abbrev pub Leaves : Gate → Gate → ℕ → Connection → List Effect → Type 0
Leaves g g' i c effects =
    (at g' i ≡ c)
    × (g'.fds ≡ g.fds)
    × (g'.channels ≡ g.channels)
    × (length g'.conns ≡ length g.conns)
    × (g'.out ≡ g.out ++ effects)

got_message_lem :
    (env : Env) (g : Gate) (i : ℕ) (m rest : List ℕ)
    → i < length g.conns
    → lookup (at g i).fd g.fds ≡ some i
    → (at g i).state ≡ authorized
    → env.test_mode ≡ false
    → (g' : Gate) × (got_message env g i m rest ≡ some (handled (pos 0) g' rest))
      × Leaves g g' i
          (record (update_stat true env.now (at g i)) { msg_len = 0; used = 0 })
          (data_effects env g.channels (at g i) i m)
unfolding got_message update_stat
got_message_lem env g i m rest lt known auth quiet =
    let c' = update_stat true env.now (at g i) in
    let g1 = record g {
      conns = set g.conns i c';
      uppkgs = g.uppkgs + 1;
      reqpkgs = g.reqpkgs + 1;
      out = g.out ++ data_effects env g.channels c' i m;
    } in
    let done : Connection → Connection = λ d. record d { msg_len = 0; used = 0 } in
    let lt1 : i < length g1.conns = omega (arith, length-set g.conns i c') in
    (
      modify g1 i done,
      ap
          (λ (x : Option (ℤ × Gate)). elim x as (λ _. Option Progress) [
            | none ↦ none
            | some (ret, g') ↦
                some (handled (if is_zero_ℤ ret then pos 0 else pos 1) (modify g' i done) rest)
          ])
          (forward_lem env g i m lt known auth quiet),
      (
        conn_at-set g1.conns i (done (at g1 i)) lt1 ∙ ap done (conn_at-set g.conns i c' lt),
        refl,
        refl,
        length-set g1.conns i (done (at g1 i)) ∙ length-set g.conns i c',
        refl,
      ),
    )

-- The gate once the length `n` of a message is read.
abbrev pub prefixed : Gate → ℕ → ℕ → List ℕ → List ℕ → Gate
prefixed g i n buffer bytes = record g {
  uploadsize = g.uploadsize + length bytes;
  conns = set g.conns i (record (at g i) { buffer = buffer; msg_len = n; used = 0 });
}

pub prefix_lem :
    (env : Env) (g : Gate) (fd i n : ℕ) (bytes : List ℕ)
    → IsReady g fd i
    → n < 65536
    → (buffer : List ℕ) × (on_piece env g i (be16 n ++ bytes)
        ≡ take_message env (prefixed g i n buffer (be16 n ++ bytes)) i 2 (be16 n ++ bytes))
unfolding on_piece
prefix_lem env g fd i n rest r h =
    let bytes = be16 n ++ rest in
    let g0 = record g { uploadsize = g.uploadsize + length bytes } in
    let c = at g i in
    let (buffer, pre) = take_prefix_lem c n rest r.no_prefix r.no_bytes h in
    let idle : (c.msg_len == 0) && leb prefix_len c.used ≡ false =
      ap (λ k. (c.msg_len == 0) && leb prefix_len k) r.no_bytes
      ∙ ap (λ k. (k == 0) && leb prefix_len 0) r.no_prefix in
    (
      buffer,
      ap
            (λ (b : Bool).
              if b
              then some (
                  stopped minus_one (
                    modify (if is_open c.state then emit g0 (closed c.fd) else g0) i
                      Connection.close))
              else take_message env (modify g0 i (λ _. (take_prefix c bytes).0)) i
                  (take_prefix c bytes).1 bytes)
            idle
          ∙ ap (λ (x : Connection × ℕ). take_message env (modify g0 i (λ _. x.0)) i x.1 bytes) pre,
    )

pub piece_lem :
    (env : Env) (g : Gate) (fd i : ℕ) (m rest : List ℕ)
    → env.test_mode ≡ false
    → IsReady g fd i
    → IsMessage m
    → (g' : Gate) × (buffer : List ℕ) × (on_piece env g i (be16 (length m) ++ (m ++ rest))
        ≡ some (handled (pos 0) g' rest))
      × Leaves g g' i (served env (at g i) buffer) (data_effects env g.channels (at g i) i m)
unfolding update_stat
piece_lem env g fd i m rest quiet r h =
    let bytes = be16 (length m) ++ (m ++ rest) in
    let c = at g i in
    let (before, pre) = prefix_lem env g fd i (length m) (m ++ rest) r h.1 in
    let c1 : Connection = record c { buffer = before; msg_len = length m; used = 0 } in
    let g1 = prefixed g i (length m) before bytes in
    let here1 : at g1 i ≡ c1 = conn_at-set g.conns i c1 r.in_range in
    let into : Connection → Connection = λ d. record d { buffer = write 0 m d.buffer } in
    let g2 = modify g1 i into in
    let lt1 : i < length g1.conns = omega (arith, length-set g.conns i c1, r.in_range) in
    let lt2 : i < length g2.conns = omega (arith, length-set g1.conns i (into (at g1 i)), lt1) in
    let here2 : at g2 i ≡ into c1 = conn_at-set g1.conns i (into (at g1 i)) lt1 ∙ ap into here1 in
    let known : lookup (at g2 i).fd g2.fds ≡ some i =
      ap (λ (d : Connection). lookup d.fd g.fds) here2
      ∙ ap (λ k. lookup k g.fds) r.socket
      ∙ r.mapped in
    let auth : (at g2 i).state ≡ authorized = ap (λ (d : Connection). d.state) here2 ∙ r.state in
    let (g', got, (there, fds, channels, len, out)) =
      got_message_lem env g2 i m rest lt2 known auth quiet in
    (
      g',
      write 0 m before,
      pre
          ∙ take_message_lem env g1 i m rest (ap (λ (d : Connection). d.msg_len) here1)
              (ap (λ (d : Connection). d.used) here1) h.0
          ∙ got,
      (
        there ∙ ap (λ d. record (update_stat true env.now d) { msg_len = 0; used = 0 }) here2,
        fds,
        channels,
        len ∙ length-set g1.conns i (into (at g1 i)) ∙ length-set g.conns i c1,
        out ∙ ap (λ d. g.out ++ data_effects env g.channels d i m) here2,
      ),
    )
