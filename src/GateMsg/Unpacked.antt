-- ===== src/GateMsg/Unpacked.antt =====
-- What SendToAgent frames, the receiver of a message between a gate and a zone server takes apart.
use mathlib.Core.List.{append-nil}
use playground.Prelude.{
  ℕ, ◌+◌, ◌*◌, ◌≤◌, ◌<◌, ◌≡◌, ◌≢◌, ap, ◌∙◌, inl, inr, Bool, false, List, [], ◌∷◌, ◌++◌, Option,
  none, some, arith, length, take, drop, ltb, if◌then◌else◌, length-append, take-append,
  drop-append, Option-cases, Bool-cases,
}
use playground.Bytes.{be16, read_be16-be16}
use playground.Channel.{Channels, send_to_agent, join, total_length}
use playground.Channel.Frames.{send_to_agent-some}
use playground.GateMsg.{GateSsMsg, SsCodec, unpack}

pub unpack-be16 :
    (codec : SsCodec) (m : GateSsMsg) (payload : List ℕ)
    → length (codec.encode m) < 65536
    → unpack codec (be16 (length (codec.encode m)) ++ (codec.encode m ++ payload))
      ≡ some (some (m, payload))
unfolding unpack
unpack-be16 codec m payload h =
    let head = codec.encode m in
    let whole : ltb (length (be16 (length head) ++ (head ++ payload))) (length head + 2) ≡ false =
      ground (arith, length-append head payload) in
    let rest = head ++ payload in
    let bytes = be16 (length head) ++ rest in
    ap
      (λ (x : Option ℕ). elim x as (λ _. Option (Option (GateSsMsg × List ℕ))) [
        | none ↦ none
        | some len ↦
            if ltb (length bytes) (len + 2)
            then some none
            else elim (codec.decode (take len rest)) [
              | none ↦ some none
              | some msg ↦ some (some (msg, drop len rest))
            ]
      ])
      (read_be16-be16 (length head) rest h)
    ∙ ap
        (λ (b : Bool). if b then some none else elim (codec.decode (take (length head) rest)) [
          | none ↦ some none
          | some msg ↦ some (some (msg, drop (length head) rest))
        ])
        whole
    ∙ ap
        (λ (x : Option GateSsMsg). elim x as (λ _. Option (Option (GateSsMsg × List ℕ))) [
          | none ↦ some none
          | some msg ↦ some (some (msg, drop (length head) rest))
        ])
        (ap codec.decode (take-append head payload) ∙ codec.decode-encode m)
    ∙ ap (λ x. some (some (m, x))) (drop-append head payload)

-- What SendToAgent posts for an encoded message and a payload is taken apart into that message and
-- that payload.
pub unpack-send_to_agent :
    (codec : SsCodec) (c : Channels) (dst : ℕ) (m : GateSsMsg) (payload bytes : List ℕ)
    → send_to_agent c dst (codec.encode m ∷ payload ∷ []) (length (codec.encode m)) ≡ some bytes
    → unpack codec bytes ≡ some (some (m, payload))
unfolding join total_length
unpack-send_to_agent codec c dst m payload bytes e =
    let (same, small) =
      send_to_agent-some c dst (codec.encode m ∷ payload ∷ []) (length (codec.encode m)) bytes e in
    ap (unpack codec) (
      same ∙ ap (λ x. be16 (length (codec.encode m)) ++ (codec.encode m ++ x)) (append-nil payload))
    ∙ unpack-be16 codec m payload (omega (arith, small))

-- The same for a head without a payload.
pub unpack-send_alone :
    (codec : SsCodec) (c : Channels) (dst : ℕ) (m : GateSsMsg) (bytes : List ℕ)
    → send_to_agent c dst (codec.encode m ∷ []) (length (codec.encode m)) ≡ some bytes
    → unpack codec bytes ≡ some (some (m, []))
unfolding join total_length
unpack-send_alone codec c dst m bytes e =
    let (same, small) =
      send_to_agent-some c dst (codec.encode m ∷ []) (length (codec.encode m)) bytes e in
    ap (unpack codec) same ∙ unpack-be16 codec m [] (omega (arith, small))

-- A message of two bytes or more is not read beyond its end.
pub unpack-none : (codec : SsCodec) (bytes : List ℕ) → 2 ≤ length bytes → unpack codec bytes ≢ none
unfolding unpack
unpack-none codec [] long e = absurd (omega (arith, long))
unpack-none codec (a ∷ []) long e = absurd (omega (arith, long))
unpack-none codec (a ∷ b ∷ bs) long e =
    elim (Bool-cases (ltb (length (a ∷ b ∷ bs)) (a * 256 + b + 2))) [
      | inl t ↦ absurd (cc (rw t at e))
      | inr f ↦ elim (Option-cases (codec.decode (take (a * 256 + b) bs))) [
        | inl n ↦ absurd (cc (rw (f, n) at e))
        | inr (m, s) ↦ absurd (cc (rw (f, s) at e))
      ]
    ]
