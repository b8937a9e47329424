-- ===== src/Channel/Frames.antt =====
-- The frame that SendToAgent of app/ChannelMsgProxy.cpp posts.
use playground.Prelude.{
  ℕ, ◌+◌, ◌<◌, ◌≡◌, ◌≢◌, ◌≤◌, ◌⊎◌, refl, List, [], ◌∷◌, ◌++◌, none, some, arith, length, drop,
  length-append, leb, Bool-cases, Option-cases, inl, inr,
}
use playground.Bytes.{be16, read_be16, read_be16-be16}
use playground.Channel.{
  Channels, send_to_agent, get_channel, total_length, join, max_channel_message_size,
  proxy_channel_message_head_size,
}

length-join : (bs : List (List ℕ)) → length (join bs) ≡ total_length bs
unfolding join total_length
length-join [] = refl
length-join (b ∷ bs) = omega (arith, length-append b (join bs), length-join bs)

-- What SendToAgent posts is the head's size and the buffers, which are small.
pub send_to_agent-some :
    (c : Channels) (dst : ℕ) (buffers : List (List ℕ)) (head_size : ℕ) (bytes : List ℕ)
    → send_to_agent c dst buffers head_size ≡ some bytes
    → (bytes ≡ be16 head_size ++ join buffers) × (total_length buffers < 65534)
unfolding send_to_agent
send_to_agent-some c dst buffers head_size bytes e =
    elim (Bool-cases
      (leb max_channel_message_size (total_length buffers + proxy_channel_message_head_size))) [
        | inl t ↦ absurd (cc (rw t at e))
        | inr f ↦ elim (Option-cases (get_channel c dst)) [
          | inl n ↦ absurd (cc (rw (f, n) at e))
          | inr (name, s) ↦ (cc (rw (f, s) at e), ground arith)
        ]
      ]

-- For a head size below 2 ^ 16, SendToAgent refuses, and the buffers hold 65534 bytes or more or
-- the channel does not exist, or the channel exists and it posts fewer than 65536 bytes, whose
-- first two read in network order are the head size and whose rest is the buffers joined in order.
pub send_to_agent_lem :
    (c : Channels) (dst : ℕ) (buffers : List (List ℕ)) (head_size : ℕ)
    → head_size < 65536
    → ((send_to_agent c dst buffers head_size ≡ none)
        × ((65534 ≤ total_length buffers) ⊎ (get_channel c dst ≡ none)))
      ⊎ ((get_channel c dst ≢ none)
          × (bytes : List ℕ) × (send_to_agent c dst buffers head_size ≡ some bytes)
          × (read_be16 bytes ≡ some head_size)
          × (drop 2 bytes ≡ join buffers)
          × (length bytes < 65536))
unfolding send_to_agent
send_to_agent_lem c dst buffers head_size h =
    elim (Bool-cases
      (leb max_channel_message_size (total_length buffers + proxy_channel_message_head_size))) [
        | inl t ↦ inl (rw (t, send_to_agent) refl, inl (ground arith))
        | inr f ↦ elim (Option-cases (get_channel c dst)) [
          | inl n ↦ inl (rw (f, send_to_agent, n) refl, inr n)
          | inr (name, s) ↦ inr (
            λ n. cc (s, n),
            be16 head_size ++ join buffers,
            rw (f, send_to_agent, s) refl,
            read_be16-be16 head_size (join buffers) h,
            refl,
            ground (arith, length-join buffers),
          )
        ]
      ]
