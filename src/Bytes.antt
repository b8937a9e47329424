-- ===== src/Bytes.antt =====
-- Byte strings: 16-bit numbers in network order (`htons`, `ntohs`), and `memcpy` into a buffer.
use playground.Prelude.{
  ℕ, ◌+◌, ◌*◌, ◌/◌, ◌%◌, ◌<◌, ◌≡◌, List, [], ◌∷◌, ◌++◌, Option, none, some, arith, ap, take, drop,
  length, take-append,
}
use playground.Prelude.Words.{u16}

-- The two bytes that `htons` of the low half of an `int` leaves in memory.
abbrev pub be16 : ℕ → List ℕ
be16 n = u16 n / 256 ∷ u16 n % 256 ∷ []

-- `ntohs` of the first two bytes; `none` is a read beyond the end.
abbrev pub read_be16 : List ℕ → Option ℕ
read_be16 [] = none
read_be16 (a ∷ []) = none
read_be16 (a ∷ b ∷ _) = some (a * 256 + b)

pub read_be16-be16 : (n : ℕ) (rest : List ℕ) → n < 65536 → read_be16 (be16 n ++ rest) ≡ some n
read_be16-be16 n rest h = ap some (omega arith)

-- memcpy(buffer + at, bytes, size of bytes)
abbrev pub write : ℕ → List ℕ → List ℕ → List ℕ
write at bytes buffer = take at buffer ++ (bytes ++ drop (at + length bytes) buffer)

pub take-write : (bytes buffer : List ℕ) → take (length bytes) (write 0 bytes buffer) ≡ bytes
take-write bytes buffer = take-append bytes (drop (0 + length bytes) buffer)
