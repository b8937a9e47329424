-- ===== src/Zone/Stale.antt =====
-- Messages that a zone server does not act on: the close of a gate, and the data of a client
-- whose session is not in play.
use playground.Prelude.{
  ℕ, ◌≡◌, ◌≢◌, refl, sym, ap, ◌∙◌, false, List, [], ◌∷◌, Option, some, arith, ◌==◌, length,
  Option-cases, inl, inr,
}
use playground.Prelude.Map.{Map, lookup}
use playground.Prelude.Words.{minus_one}
use playground.Channel.{Channels, send_to_agent}
use playground.GateMsg.{event_close, unpack}
use playground.GateMsg.Unpacked.{unpack-send_alone}
use playground.Gate.Connection.{Connection}
use playground.Gate.Server
use playground.Gate.Server.{ss_msg, Effect, posted}
use playground.Gate.Removal.{close_effects}
use playground.Zone.World
use playground.Zone.World.{Session, SessionState, Env}
use playground.Zone.RoleId.{get_role_id}
use playground.Zone.Session.{get_idx}
use playground.Zone.SessionMgr.{find_session, stop_session}
use playground.Zone.Messages.{Dispatcher, on_gate_message, on_gate_event, detach_player_agent}

-- stop_session of another index changes nothing.
stop_session-other :
    (env : Env) (w : World.World) (zone gateid idx uid a : ℕ) (s : Session)
    → find_session w zone uid ≡ some a
    → lookup a w.store ≡ some s
    → get_idx s ≢ idx
    → stop_session env zone gateid idx uid w ≡ some (minus_one, w)
unfolding stop_session
stop_session-other env w zone gateid idx uid a s has found ne =
    let differs : (get_idx s == idx) ≡ false = ground (arith, ne) in
    rw (has, stop_session, found, differs) refl

-- Where a gate and a zone server have the same encoding and the zone has a session under the role
-- id of a connection whose index is not 0, the message that the gate's RemoveConnection posts for
-- the connection makes OnGateMessage return -1 and change nothing.
pub on_gate_message-close_effects :
    (gate : Server.Env) (channels : Channels) (c : Connection) (reason dst : ℕ) (bytes : List ℕ)
    (env : Env) (d : Dispatcher) (w : World.World) (src a : ℕ) (s : Session)
    (table : Map (Option ℕ))
    → close_effects gate channels c reason ≡ posted dst bytes ∷ []
    → gate.codec ≡ env.codec
    → lookup c.area w.agents ≡ some table
    → find_session w c.area (get_role_id c.uid c.area) ≡ some a
    → lookup a w.store ≡ some s
    → get_idx s ≢ 0
    → on_gate_message env d src bytes w ≡ some (minus_one, w)
unfolding on_gate_message on_gate_event detach_player_agent
on_gate_message-close_effects gate channels c reason dst bytes env d w src a s table told same zone
      has found ne =
    let m = ss_msg gate c event_close reason 0 in
    let head = gate.codec.encode m in
    elim (Option-cases (send_to_agent channels c.dst_channel (head ∷ []) (length head))) [
      | inl e ↦ absurd (cc (rw (e, close_effects) at told))
      | inr (b, e) ↦
          let b_is : b ≡ bytes = cc (rw (e, close_effects) at told) in
          let u : unpack env.codec bytes ≡ some (some (m, [])) =
            ap (λ codec. unpack codec bytes) (sym same)
            ∙ unpack-send_alone gate.codec channels c.dst_channel m bytes (e ∙ ap some b_is) in
          rw (u, on_gate_message, zone)
            (stop_session-other env w c.area src 0 (get_role_id c.uid c.area) a s has found ne)
    ]
