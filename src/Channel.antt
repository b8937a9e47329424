-- ===== src/Channel.antt =====
-- app/ChannelMsgProxy.cpp over channel/ChannelAgentMgr.cpp: the table of channels, the framing of a
-- message that goes to another server, and the table of handlers for what comes in. A channel's id
-- is a number from 0 (the local one). What ZeroMQ does with a posted message is not under this
-- repository.
pub mod Handlers
pub mod Ids
pub mod Frames
use playground.Prelude.{
  ℕ, zero, suc, ◌+◌, Bool, true, false, ◌&&◌, ◌||◌, List, [], ◌∷◌, ◌++◌, Option, none, some, ltb,
  leb, ◌==◌, if◌then◌else◌, length,
}
use playground.Prelude.Map.{Map, lookup, insert}
use playground.Prelude.Words.{ℤ, pos, minus_one}
use playground.Bytes.{be16}

abbrev pub max_channel_message_size : ℕ
max_channel_message_size = 65536

abbrev pub proxy_channel_message_head_size : ℕ
proxy_channel_message_head_size = 2

-- ChannelAgentMgr: `names` is the identity name of each channel.
pub record Channels : Type 0 where
  pub agents : Map (List ℕ)
  pub next_gen_id : ℕ

unfoldable pub get_channel : Channels → ℕ → Option (List ℕ)
get_channel c id = lookup id c.agents

-- The `while` of GenerateChannelID, with the rounds left; `none` means that they ran out.
pub next_id : ℕ → ℕ → Map (List ℕ) → Option ℕ
next_id zero id agents = none
next_id (suc rounds) id agents =
    let next = next_id rounds (suc id) agents in
    if id == 0 then next else elim (lookup id agents) [ none ↦ some id | some _ ↦ next ]

pub generate_channel_id : Channels → Option (ℕ × Channels)
generate_channel_id c = elim (next_id (length c.agents + 2) c.next_gen_id c.agents) [
  | none ↦ none
  | some id ↦ some (id, record c { next_gen_id = id })
]

-- AddChannel of a channel whose socket could be opened or not; its name is set afterwards.
pub add_channel : Bool → Channels → ℕ → List ℕ → ℤ × Channels
add_channel opens c id name = elim (lookup id c.agents) [
  | some _ ↦ (minus_one, c)
  | none ↦ if opens then (pos 0, record c { agents = insert id name c.agents }) else (ℤ.negsuc 1, c)
]

-- ChannelMsgProxy: a handler is a number. A segment is a first and a last id.
pub record Proxy : Type 0 where
  pub handlers : Map ℕ
  pub segments : List ((ℕ × ℕ) × ℕ)

unfoldable pub match_segment : ℕ × ℕ → ℕ → Bool
match_segment seg id = leb seg.0 id && leb id seg.1

pub find_segment : List ((ℕ × ℕ) × ℕ) → ℕ → Option ℕ
find_segment [] id = none
find_segment ((seg, handler) ∷ segs) id =
    if match_segment seg id then some handler else find_segment segs id

pub find_handler : Proxy → ℕ → Option ℕ
find_handler p id = elim (lookup id p.handlers) [
  | some handler ↦ some handler
  | none ↦ find_segment p.segments id
]

-- `none` is the failed `assert` on a repeated subscription.
pub subscribe_single_msg : Proxy → ℕ → ℕ → Option Proxy
subscribe_single_msg p id handler = elim (lookup id p.handlers) [
  | some _ ↦ none
  | none ↦ some (record p { handlers = insert id handler p.handlers })
]

pub subscribe_scatter_msg : Proxy → List ℕ → ℕ → Option Proxy
subscribe_scatter_msg p [] handler = some p
subscribe_scatter_msg p (id ∷ ids) handler = elim (subscribe_single_msg p id handler) [
  | none ↦ none
  | some q ↦ subscribe_scatter_msg q ids handler
]

unfoldable pub clashes : List ((ℕ × ℕ) × ℕ) → ℕ → ℕ → Bool
clashes [] from end = false
clashes ((seg, _) ∷ segs) from end =
    match_segment seg from || match_segment seg end || clashes segs from end

unfoldable pub subscribe_continuous_msg : Proxy → ℕ → ℕ → ℕ → ℤ × Proxy
subscribe_continuous_msg p from end handler =
    if clashes p.segments from end
    then (minus_one, p)
    else (pos 0, record p { segments = p.segments ++ ((from, end), handler) ∷ [] })

unfoldable pub total_length : List (List ℕ) → ℕ
total_length [] = 0
total_length (b ∷ bs) = length b + total_length bs

unfoldable pub join : List (List ℕ) → List ℕ
join [] = []
join (b ∷ bs) = b ++ join bs

-- The bytes that SendToAgent posts: the size of the head in network order, then the buffers.
-- `none` is the return value -1. With bytes, SendToAgent returns what PostMessage returns for them,
-- which is not its own: a caller that uses it has it as `post_message` of its surroundings.
unfoldable pub send_to_agent : Channels → ℕ → List (List ℕ) → ℕ → Option (List ℕ)
send_to_agent c dst buffers head_size =
    if leb max_channel_message_size (total_length buffers + proxy_channel_message_head_size)
    then none
    else elim (get_channel c dst) [ none ↦ none | some _ ↦ some (be16 head_size ++ join buffers) ]

-- ChannelProxyMessageDispatcher::DispatchMessage: the handler that a message from `src` goes to;
-- `none` is the return value -1.
pub dispatch_message : Channels → Proxy → ℕ → Option ℕ
dispatch_message c p src = elim (find_handler p src) [
  | none ↦ none
  | some handler ↦ elim (get_channel c src) [ none ↦ none | some _ ↦ some handler ]
]
