-- ===== src/Gate/Delivery.antt =====
-- What reaches a client when its socket takes every byte (SendFrameToClient of
-- gate/GateServerHandler.cpp).
use playground.Prelude.{
  ℕ, ◌<◌, ◌≡◌, sym, ap, ◌∙◌, true, List, [], ◌∷◌, ◌++◌, arith, length, take, take-append,
}
use mathlib.Core.List.{append-nil, append_assoc}
use playground.Prelude.Words.{u16}
use playground.Bytes.{be16}
use playground.Gate.Server.{Env, Gate, at, sent}
use playground.Gate.Client.{send_frame_to_client}

take-length : (bs : List ℕ) → take (length bs) bs ≡ bs
take-length bs = ap (take (length bs)) (sym (append-nil bs)) ∙ take-append bs []

-- A frame of fewer than 65536 bytes is sent whole, behind its size.
pub send_frame_to_client-whole :
    (env : Env) (g : Gate) (i : ℕ) (bytes : List ℕ)
    → ((b : List ℕ) → env.sends (at g i).fd b ≡ true)
    → length bytes < 65536
    → let fd = (at g i).fd in
      (send_frame_to_client env g i bytes).1.out
      ≡ g.out ++ sent fd (be16 (length bytes)) ∷ sent fd bytes ∷ []
unfolding send_frame_to_client
send_frame_to_client-whole env g i bytes takes small =
    let fd = (at g i).fd in
    let size : u16 (length bytes) ≡ length bytes = omega (arith, small) in
    rw (takes (be16 (u16 (length bytes))), takes (take (u16 (length bytes)) bytes))
      (append_assoc g.out _ _
        ∙ ap (λ n. g.out ++ sent fd (be16 n) ∷ sent fd (take n bytes) ∷ []) size
        ∙ ap (λ b. g.out ++ sent fd (be16 (length bytes)) ∷ sent fd b ∷ []) (take-length bytes))
