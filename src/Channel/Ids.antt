-- ===== src/Channel/Ids.antt =====
-- The search of channel/ChannelAgentMgr.cpp for the id of a new channel.
use playground.Prelude.{ℕ, zero, suc, ◌+◌, ◌<◌, ◌≡◌, List, none, some, refl, arith, length, ◌∙◌}
use playground.Prelude.Map.{Map, lookup, first_free, first_free-suc_lem}
use playground.Channel.{Channels, next_id, generate_channel_id, get_channel}

next_id-first_free :
    (rounds id : ℕ) (agents : Map (List ℕ))
    → 0 < id
    → next_id rounds id agents ≡ first_free suc rounds id agents
unfolding next_id first_free
next_id-first_free zero id agents h = refl
next_id-first_free (suc rounds) id agents h =
    ground (arith, next_id-first_free rounds (suc id) agents)

next_id-some :
    (rounds id : ℕ) (agents : Map (List ℕ))
    → length agents < rounds
    → (j : ℕ) × (next_id (suc rounds) id agents ≡ some j) × (0 < j) × (lookup j agents ≡ none)
next_id-some rounds zero agents h =
    let (j, e, lo, free) = first_free-suc_lem rounds 1 agents h in
    (j, (unfold next_id in next_id-first_free rounds 1 agents (omega arith) ∙ e), lo, free)
next_id-some rounds (suc id) agents h =
    let (j, e, lo, free) = first_free-suc_lem (suc rounds) (suc id) agents (omega arith) in
    (j, next_id-first_free (suc rounds) (suc id) agents (omega arith) ∙ e, omega arith, free)

-- GenerateChannelID always ends, at an id that is not 0 and that no channel has; it changes no
-- channel.
pub generate_channel_id_lem :
    (c : Channels)
    → (id : ℕ) × (d : Channels) × (generate_channel_id c ≡ some (id, d))
      × (0 < id)
      × (get_channel c id ≡ none)
      × (d.agents ≡ c.agents)
unfolding generate_channel_id get_channel
generate_channel_id_lem c =
    let (j, e, lo, free) =
      next_id-some (length c.agents + 1) c.next_gen_id c.agents (omega arith) in
    let more : length c.agents + 2 ≡ suc (length c.agents + 1) = omega arith in
    (j, record c { next_gen_id = j }, rw (more, generate_channel_id, e) refl, lo, free, refl)
