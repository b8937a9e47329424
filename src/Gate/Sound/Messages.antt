-- ===== src/Gate/Sound/Messages.antt =====
-- The handling of one message of a client, or of a zone server, by a gate
-- (gate/GateServerHandler.cpp, gate/GateAgentChannelMsgHandler.cpp) keeps its table of connections
-- sound.
use mathlib.Core.Path.{subst}
use playground.Prelude.{
  ℕ, ◌≡◌, ◌+◌, refl, sym, ◌∙◌, true, List, [], some, ◌==◌, inl, inr, Option-cases, Bool-cases,
}
use playground.Prelude.Words.{ℤ, ℤ-cases, pos, minus_one}
use playground.GateMsg.{
  GateSsMsg, EventType, event_connected, event_close, event_data, unpack, auth_rsp, close_exception,
  AuthReq,
}
use playground.Gate.Connection.{
  ConnState, invalid, connected, authing, authorized, is_open, update_stat,
}
use playground.Gate.Server.{
  Env, Gate, at, modify, get_connection_by_idx, report_event, remove_connection,
}
use playground.Gate.Client
use playground.Gate.Client.{
  authorizing, send_to_client, send_frame_to_client, forward_data, on_auth_message, on_message_in,
  on_client_message,
}
use playground.Gate.Agent.{on_agent_event, on_agent_message}
use playground.Gate.Sound.{IsSound, Keeps-IsSound, modify-Keeps}
use playground.Gate.Sound.Sending.{
  Stays, update_stat-Same, report_event-Stays, send_to_client-Stays, send_frame_to_client-Stays,
  authorizing-Stays, forward_data-Stays,
}
use playground.Gate.Sound.Removing.{remove_connection-IsSound, get_connection_by_idx-open}

-- The table of a gate is sound.
abbrev pub Sound : Gate → Type 0
Sound g = IsSound g.conns g.fds

pub Stays-Sound : (g g' : Gate) → Stays g g' → Sound g → Sound g'
Stays-Sound g g' k s = Keeps-IsSound g.conns g.fds g'.conns g'.fds k s

pub ended-Sound :
    (r : ℤ × Gate) (ret : ℤ) (g' : Gate) → some r ≡ some (ret, g') → Sound r.1 → Sound g'
ended-Sound r ret g' e s = let eq : r ≡ (ret, g') = cc e in subst (λ (x : ℤ × Gate). Sound x.1) eq s

pub Stays-open :
    (g g' : Gate) (i : ℕ)
    → Stays g g'
    → is_open (at g i).state ≡ true
    → is_open (at g' i).state ≡ true
Stays-open g g' i k o = (k.slots i).open_as ∙ o

set_state-Stays :
    (g : Gate) (i : ℕ) (st : ConnState)
    → is_open st ≡ true
    → is_open (at g i).state ≡ true
    → Stays g (Client.set_state g i st)
set_state-Stays g i st live o =
    modify-Keeps g.conns g.fds i (record (at g i) { state = st })
      (record { open_as = live ∙ sym o; socket = refl; none_used = λ e. e })

-- The three outcomes of a request for authorisation.
module _ (env : Env) (g : Gate) (i : ℕ) (o : is_open (at g i).state ≡ true) (s : Sound g) where
  accepted-Sound :
      (auth : AuthReq) (ret : ℤ) (g2 : Gate)
      → send_to_client env (authorizing env g i auth).1 i (auth_rsp 0) ≡ some (ret, g2)
      → Sound (report_event env (Client.set_state g2 i authorized) i event_connected 0 [])
  accepted-Sound auth ret g2 e =
      let g1 = (authorizing env g i auth).1 in
      let k1 = authorizing-Stays env g i auth in
      let k2 = send_to_client-Stays env g1 i (auth_rsp 0) ret g2 e in
      let g3 = Client.set_state g2 i authorized in
      let k3 =
        set_state-Stays g2 i authorized refl (Stays-open g1 g2 i k2 (Stays-open g g1 i k1 o)) in
      Stays-Sound g3 (report_event env g3 i event_connected 0 [])
        (report_event-Stays env g3 i event_connected 0 [])
        (Stays-Sound g2 g3 k3 (Stays-Sound g1 g2 k2 (Stays-Sound g g1 k1 s)))

  pub on_auth_message-IsSound :
      (bytes : List ℕ) (ret : ℤ) (g' : Gate)
      → on_auth_message env g i bytes ≡ some (ret, g')
      → IsSound g'.conns g'.fds
  unfolding on_auth_message
  on_auth_message-IsSound bytes ret g' e = elim (Option-cases (env.parse_auth bytes)) [
    | inl n ↦ ended-Sound (minus_one, g) ret g' (simp (n, on_auth_message) at e) s
    | inr (auth, parsed) ↦
        let g1 = (authorizing env g i auth).1 in
        let k1 = authorizing-Stays env g i auth in
        let o1 = Stays-open g g1 i k1 o in
        let s1 = Stays-Sound g g1 k1 s in
        elim (ℤ-cases (authorizing env g i auth).0) [
          | inr (n, neg) ↦
              ended-Sound (minus_one, remove_connection env g1 i close_exception) ret g'
                (simp (parsed, on_auth_message, neg) at e)
                (remove_connection-IsSound env g1 i close_exception o1 s1)
          | inl (n, nat) ↦ elim (Bool-cases (n == 0)) [
            | inr later ↦
                ended-Sound (pos 0, Client.set_state g1 i authing) ret g'
                  (simp (parsed, on_auth_message, nat, later) at e)
                  (Stays-Sound g1 (Client.set_state g1 i authing)
                    (set_state-Stays g1 i authing refl o1) s1)
            | inl now ↦ elim (Option-cases (send_to_client env g1 i (auth_rsp 0))) [
              | inl n ↦ absurd (cc (simp (parsed, on_auth_message, nat, now, n) at e))
              | inr ((r, g2), told) ↦
                  ended-Sound
                    (
                      pos 0,
                      report_event env (Client.set_state g2 i authorized) i event_connected 0 [],
                    )
                    ret g' (simp (parsed, on_auth_message, nat, now, told) at e)
                    (accepted-Sound auth r g2 told)
            ]
          ]
        ]
  ]

  pub on_message_in-IsSound :
      (bytes : List ℕ) (st : ConnState) (ret : ℤ) (g' : Gate)
      → on_message_in env g i bytes st ≡ some (ret, g')
      → IsSound g'.conns g'.fds
  unfolding on_message_in
  on_message_in-IsSound bytes connected ret g' e = on_auth_message-IsSound bytes ret g' e
  on_message_in-IsSound bytes authing ret g' e = ended-Sound (pos 0, g) ret g' e s
  on_message_in-IsSound bytes authorized ret g' e =
      ended-Sound (pos 0, forward_data env g i bytes) ret g' e
        (Stays-Sound g (forward_data env g i bytes) (forward_data-Stays env g i bytes) s)
  on_message_in-IsSound bytes invalid ret g' e =
      ended-Sound (minus_one, remove_connection env g i close_exception) ret g' e
        (remove_connection-IsSound env g i close_exception o s)

  pub on_agent_event-IsSound :
      (msg : GateSsMsg) (payload : List ℕ) (event : EventType)
      → let g' = (on_agent_event env g i msg payload event).1 in IsSound g'.conns g'.fds
  unfolding on_agent_event
  on_agent_event-IsSound msg payload event_close = remove_connection-IsSound env g i msg.reason o s
  on_agent_event-IsSound msg payload event_data =
      let g1 = record g { downpkgs = g.downpkgs + 1; rsppkgs = g.rsppkgs + 1 } in
      Stays-Sound g (send_frame_to_client env g1 i payload).1
        (send_frame_to_client-Stays env g1 i payload) s
  on_agent_event-IsSound msg payload event_connected = s

pub on_client_message-IsSound :
    (env : Env) (g : Gate) (i : ℕ) (bytes : List ℕ) (ret : ℤ) (g' : Gate)
    → is_open (at g i).state ≡ true
    → IsSound g.conns g.fds
    → on_client_message env g i bytes ≡ some (ret, g')
    → IsSound g'.conns g'.fds
unfolding on_client_message
on_client_message-IsSound env g i bytes ret g' o s e =
    let g1 = modify (record g { uppkgs = g.uppkgs + 1 }) i (update_stat true env.now) in
    let k : Stays g g1 = modify-Keeps g.conns g.fds i _ (update_stat-Same true env.now (at g i)) in
    on_message_in-IsSound env g1 i (Stays-open g g1 i k o) (Stays-Sound g g1 k s) bytes
      (at g i).state ret g' e

pub on_agent_message-IsSound :
    (env : Env) (g : Gate) (bytes : List ℕ) (ret : ℤ) (g' : Gate)
    → IsSound g.conns g.fds
    → on_agent_message env g bytes ≡ some (ret, g')
    → IsSound g'.conns g'.fds
unfolding on_agent_message
on_agent_message-IsSound env g bytes ret g' s e = elim (Option-cases (unpack env.codec bytes)) [
  | inl n ↦ absurd (cc (simp (n, on_agent_message) at e))
  | inr (m, read) ↦ elim (Option-cases m) [
    | inl n ↦ ended-Sound (minus_one, g) ret g' (simp (read, n, on_agent_message) at e) s
    | inr ((msg, payload), is) ↦ elim (Option-cases (get_connection_by_idx g msg.idx)) [
      | inl n ↦ ended-Sound (minus_one, g) ret g' (simp (read, is, n, on_agent_message) at e) s
      | inr (i, found) ↦
          ended-Sound (on_agent_event env g i msg payload msg.event) ret g'
            (simp (read, is, found, on_agent_message) at e)
            (on_agent_event-IsSound env g i (get_connection_by_idx-open g msg.idx i found).1 s msg
              payload msg.event)
    ]
  ]
]
