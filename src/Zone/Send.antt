-- ===== src/Zone/Send.antt =====
-- What Session::Send of rgtd/zone/account/Session.cpp posts, and what the gate does with it
-- (gate/GateAgentChannelMsgHandler.cpp).
use playground.Prelude.{
  ℕ, ◌+◌, ◌<◌, ◌≡◌, ◌⊎◌, inl, inr, refl, sym, ap, ◌∙◌, true, ◌||◌, List, [], ◌∷◌, ◌++◌, some, arith,
  leb, ◌==◌, length, Bool-cases, Option-cases,
}
use playground.Prelude.Words.{ℤ, pos, minus_one}
use playground.Bytes.{be16}
use playground.Channel.{send_to_agent, max_channel_message_size}
use playground.GateMsg.{GateSsMsg, event_data, unpack}
use playground.GateMsg.Unpacked.{unpack-send_to_agent}
use playground.Gate.Server
use playground.Gate.Server.{Gate, get_connection_by_idx, at, sent}
use playground.Gate.Client.{send_frame_to_client}
use playground.Gate.Delivery.{send_frame_to_client-whole}
use playground.Gate.Agent.{on_agent_message, on_agent_event}
use playground.Zone.World
use playground.Zone.World.{Session, posted, Env}
use playground.Zone.Session.{response, response_client, may_send, send, get_idx}

-- ResponseClient with data posts a message that unpacks to the response and the data, or nothing.
response_client-unpack :
    (env : Env) (w : World.World) (s : Session) (payload : List ℕ)
    → (response_client env w s event_data 0 (payload ∷ []) ≡ (minus_one, w))
      ⊎ ((bytes : List ℕ) × (response_client env w s event_data 0 (payload ∷ [])
            ≡ (env.post_message s.gate bytes, record w { out = w.out ++ posted s.gate bytes ∷ [] }))
          × (unpack env.codec bytes ≡ some (some (response s event_data 0, payload))))
unfolding response_client
response_client-unpack env w s payload =
    let m = response s event_data 0 in
    let head = env.codec.encode m in
    elim (Option-cases (send_to_agent env.channels s.gate (head ∷ payload ∷ []) (length head))) [
      | inl e ↦ inl (rw (e, response_client) refl)
      | inr (bytes, e) ↦ inr (
        bytes,
        rw (e, response_client) refl,
        unpack-send_to_agent env.codec env.channels s.gate m payload bytes e,
      )
    ]

-- Send returns -1 and changes nothing, or the session is loading, creating its role or playing,
-- the message has at least one byte and fewer than 65536, and Send posts to the gate of the session
-- one message, which is taken apart into the head for this session with the event data and the
-- bytes, and returns what PostMessage returns for it.
pub send_lem :
    (env : Env) (w : World.World) (s : Session) (payload : List ℕ)
    → (send env w s payload ≡ (minus_one, w))
      ⊎ ((may_send s.state ≡ true)
          × (0 < length payload)
          × (length payload < 65536)
          × (bytes : List ℕ) × (send env w s payload ≡ (
            env.post_message s.gate bytes,
            record w { out = w.out ++ posted s.gate bytes ∷ [] },
          ))
          × (unpack env.codec bytes ≡ some (some (response s event_data 0, payload))))
unfolding send
send_lem env w s payload = elim (Bool-cases (may_send s.state)) [
  | inr f ↦ inl (rw (f, send) refl)
  | inl t ↦
      elim (Bool-cases ((length payload == 0) || leb max_channel_message_size (length payload))) [
        | inl bad ↦ inl (rw (t, send, bad) refl)
        | inr good ↦ elim (response_client-unpack env w s payload) [
          | inl e ↦ inl (rw (t, send, good) e)
          | inr (bytes, e, u) ↦ inr (t, ground arith, ground arith, bytes, rw (t, send, good) e, u)
        ]
      ]
]

-- What a gate does with a message that unpacks to one for an open connection.
on_agent_message-unpack :
    (env : Server.Env) (g : Gate) (bytes : List ℕ) (m : GateSsMsg) (payload : List ℕ) (i : ℕ)
    → unpack env.codec bytes ≡ some (some (m, payload))
    → get_connection_by_idx g m.idx ≡ some i
    → on_agent_message env g bytes ≡ some (on_agent_event env g i m payload m.event)
unfolding on_agent_message
on_agent_message-unpack env g bytes m payload i u e = rw (u, on_agent_message, e) refl

-- Where Send returns 0, it posts one message to the gate of the session. A gate with the same
-- encoding, an open connection at the index of the session and a socket that takes every byte ends
-- the handling of that message with 0, and sends to the client the length of the data in two bytes
-- and then the data, and nothing else.
pub on_agent_message-send :
    (env : Env) (w : World.World) (s : Session) (payload : List ℕ) (w' : World.World)
    (gate : Server.Env) (g : Gate) (i : ℕ)
    → send env w s payload ≡ (pos 0, w')
    → gate.codec ≡ env.codec
    → get_connection_by_idx g (get_idx s) ≡ some i
    → ((b : List ℕ) → gate.sends (at g i).fd b ≡ true)
    → (bytes : List ℕ) × (g' : Gate) × (w'.out ≡ w.out ++ posted s.gate bytes ∷ [])
      × (on_agent_message gate g bytes ≡ some (pos 0, g'))
      × (g'.out ≡ g.out ++ sent (at g i).fd (be16 (length payload)) ∷ sent (at g i).fd payload ∷ [])
unfolding on_agent_event
on_agent_message-send env w s payload w' gate g i ok same here takes =
    elim (send_lem env w s payload) [
      | inl refused ↦ absurd (cc (ok, refused))
      | inr (_, _, small, bytes, e, u) ↦
          let counted = record g { downpkgs = g.downpkgs + 1; rsppkgs = g.rsppkgs + 1 } in
          (
            bytes,
            (send_frame_to_client gate counted i payload).1,
            ap (λ (r : ℤ × World.World). r.1.out) (sym ok ∙ e),
            on_agent_message-unpack gate g bytes (response s event_data 0) payload i
                (ap (λ c. unpack c bytes) same ∙ u) here,
            send_frame_to_client-whole gate counted i payload takes small,
          )
    ]
