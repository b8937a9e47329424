-- ===== src/Tests/ChannelTests.antt =====
-- The theorems of the channels, applied to a proxy with one range and one single subscription.
use playground.Prelude.{
  List, ◌≤◌, length, drop, ℕ, ◌<◌, ◌≡◌, ◌≢◌, refl, ◌⊎◌, [], ◌∷◌, none, some, arith, ◌&&◌, leb,
  if◌then◌else◌,
}
use playground.Prelude.Words.{pos}
use playground.Channel.{
  send_to_agent, total_length, join, Channels, Proxy, find_handler, subscribe_continuous_msg,
  get_channel, clashes, match_segment,
}
use playground.Channel.Handlers.{find_handler-subscribe_continuous}
use playground.Bytes.{read_be16}
use playground.Channel.Frames.{send_to_agent_lem}

-- The ids 10 to 20 go to the handler 1, and 5 goes to the handler 2.
abbrev proxy : Proxy
proxy = record { handlers = (5, 2) ∷ []; segments = ((10, 20), 1) ∷ [] }

abbrev with_range : Proxy
with_range = record { handlers = (5, 2) ∷ []; segments = ((10, 20), 1) ∷ ((30, 40), 3) ∷ [] }

range_accepted : subscribe_continuous_msg proxy 30 40 3 ≡ (pos 0, with_range)
unfolding subscribe_continuous_msg clashes match_segment
range_accepted = refl

find_handler-subscribe_continuous_example :
    find_handler with_range 33 ≡ elim (find_handler proxy 33) [
      | some k ↦ some k
      | none ↦ if leb 30 33 && leb 33 40 then some 3 else none
    ]
find_handler-subscribe_continuous_example =
    find_handler-subscribe_continuous proxy with_range 30 40 3 33 range_accepted

abbrev two_channels : Channels
two_channels = record { agents = (1, []) ∷ (2, []) ∷ []; next_gen_id = 1 }

send_to_agent_lem_example :
    ((send_to_agent two_channels 2 ((8 ∷ []) ∷ (9 ∷ []) ∷ []) 1 ≡ none)
      × ((65534 ≤ total_length ((8 ∷ []) ∷ (9 ∷ []) ∷ [])) ⊎ (get_channel two_channels 2 ≡ none)))
    ⊎ ((get_channel two_channels 2 ≢ none)
        × (bytes : List ℕ) × (send_to_agent two_channels 2 ((8 ∷ []) ∷ (9 ∷ []) ∷ []) 1
            ≡ some bytes)
        × (read_be16 bytes ≡ some 1)
        × (drop 2 bytes ≡ join ((8 ∷ []) ∷ (9 ∷ []) ∷ []))
        × (length bytes < 65536))
send_to_agent_lem_example =
    send_to_agent_lem two_channels 2 ((8 ∷ []) ∷ (9 ∷ []) ∷ []) 1 (omega arith)
