-- ===== src/Zone/Roles.antt =====
-- CSRoleHandler of rgtd/zone/cs_handler/CSRoleHandler.cpp is a handler as the theorems on the messages
-- of a gate take them: it leaves a well-formed world, and follows no null pointer.
use playground.Prelude.{
  ℕ, ◌≡◌, refl, ap, ◌||◌, ◌&&◌, List, [], ◌∷◌, some, ◌==◌, leb, length, Bool-cases, Option-cases,
  inl, inr,
}
use mathlib.Core.Path.{subst}
use playground.Prelude.Map.{lookup}
use playground.Prelude.Words.{pos, minus_one}
use playground.Channel.{max_channel_message_size}
use playground.GateMsg.{event_data}
use playground.Zone.World
use playground.Zone.World.{playing, PlayerAgent, Session, Env}
use playground.Zone.Session.{send, may_send}
use playground.Zone.Messages.{CsMsg}
use playground.Zone.Kept.{IsWell, Good, Keeps-refl, needs_player}
use playground.Zone.Keeping.{response_client-Good}
use playground.Zone.Reachable.{IsFair}
use playground.Zone.Faults.{Ends}
use playground.Zone.Total.{player_of}
use playground.Zone.RoleHandler.{RoleCodec, reply, answer, on_playing_msg, role_handler}

send-Good :
    (env : Env) (w : World.World) (s : Session) (bytes : List ℕ)
    → IsWell w
    → Good w (send env w s bytes).1
unfolding send
send-Good env w s bytes well = elim (Bool-cases (may_send s.state)) [
  | inr f ↦ rw (f, send) (well, Keeps-refl w)
  | inl t ↦ elim (Bool-cases ((length bytes == 0) || leb max_channel_message_size (length bytes))) [
    | inl bad ↦ rw (t, send, bad) (well, Keeps-refl w)
    | inr fits ↦ rw (t, send, fits) (response_client-Good env w s event_data 0 (bytes ∷ []) well)
  ]
]

answer-IsWell :
    (env : Env) (codec : RoleCodec) (cmd : ℕ) (s : Session) (player : PlayerAgent) (w : World.World)
    → IsWell w
    → IsWell (answer env codec cmd s player w)
unfolding answer
answer-IsWell env codec cmd s player w well = elim (Option-cases (reply codec cmd player)) [
  | inl n ↦ rw (n, answer) well
  | inr (rsp, is) ↦ rw (is, answer) (send-Good env w s (codec.encode rsp) well).0
]

-- The handler leaves a well-formed world.
pub role_handler-IsFair : (env : Env) (codec : RoleCodec) → IsFair (role_handler env codec)
unfolding on_playing_msg
role_handler-IsFair env codec a msg w w' ret well = (
  λ e. subst IsWell (cc e) well,
  λ e. elim (Option-cases (lookup a w.store)) [
    | inl n ↦ absurd (cc (rw (n, on_playing_msg) at e))
    | inr (s, found) ↦ elim (Option-cases (codec.role_cmd msg)) [
      | inl n ↦ subst IsWell (cc (rw (found, on_playing_msg, n) at e)) well
      | inr (cmd, has) ↦ elim (Option-cases s.player) [
        | inr (player, is) ↦
            subst IsWell (cc (simp (found, on_playing_msg, has, is) at e))
              (answer-IsWell env codec cmd s player w well)
        | inl n ↦ elim (Bool-cases (leb 1 cmd && leb cmd 4)) [
          | inl t ↦ absurd (cc (rw (found, on_playing_msg, has, n, t) at e))
          | inr f ↦ subst IsWell (cc (rw (found, on_playing_msg, has, n, f) at e)) well
        ]
      ]
    ]
  ],
)

-- A session that plays has a player, so the handler ends.
pub role_handler-Ends :
    (env : Env) (codec : RoleCodec) (a : ℕ) (msg : CsMsg) (w : World.World) (s : Session)
    → IsWell w
    → lookup a w.store ≡ some s
    → s.state ≡ playing
    → Ends (on_playing_msg env codec a msg w)
unfolding on_playing_msg needs_player
role_handler-Ends env codec a msg w s well found at = elim (Option-cases (codec.role_cmd msg)) [
  | inl n ↦ (minus_one, w, rw (found, on_playing_msg, n) refl)
  | inr (cmd, has) ↦
      let (player, is) = player_of s (well.players a s found (ap needs_player at)) in
      (pos 0, answer env codec cmd s player w, simp (found, on_playing_msg, has, is) refl)
]
