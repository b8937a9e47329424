-- ===== src/Zone/RoleHandler.antt =====
-- rgtd/zone/cs_handler/CSRoleHandler.cpp: the handler that answers a client with parts of its role.
-- What a role holds, and protobuf's reading and writing of these messages, are parameters.
use playground.Prelude.{ℕ, leb, ◌&&◌, List, Option, none, some, ◌==◌, if◌then◌else◌}
use playground.Prelude.Map.{lookup}
use playground.Prelude.Words.{pos, minus_one, u32}
use playground.Zone.World
use playground.Zone.World.{Role, PlayerAgent, Session, Env, Step}
use playground.Zone.Session.{send}
use playground.Zone.Messages.{CsMsg, CsMsgHandler}

pub record CsRoleBase : Type 0 where
  pub uid : ℕ
  pub name : List ℕ
  pub level : ℕ

-- The answers; the two numbers that are sent for a role's other parts are placeholders.
pub data CsMsgRole : Type 0 where
  all_info : CsRoleBase → ℕ → ℕ → CsMsgRole
  base_info : CsRoleBase → CsMsgRole
  ext_info : ℕ → CsMsgRole
  misc_info : ℕ → CsMsgRole

-- The role's id and name; `role_cmd` is the command of the message's role part, if it has one.
pub record RoleCodec : Type 0 where
  pub rid : Role → ℕ
  pub name : Role → List ℕ
  pub role_cmd : CsMsg → Option ℕ
  pub encode : CsMsgRole → List ℕ

-- PlayerAgent::GetLevel
abbrev pub get_level : PlayerAgent → ℕ
get_level player = 1

abbrev pub get_player_role_base : RoleCodec → PlayerAgent → CsRoleBase
get_player_role_base codec player = record {
  uid = codec.rid player.role;
  name = codec.name player.role;
  level = get_level player;
}

abbrev pub get_player_role_ext : RoleCodec → PlayerAgent → ℕ
get_player_role_ext codec player = u32 (codec.rid player.role)

abbrev pub get_player_role_misc : RoleCodec → PlayerAgent → ℕ
get_player_role_misc codec player = u32 (codec.rid player.role)

-- The answer to a command from 1 to 4; there is none to another.
unfoldable pub reply : RoleCodec → ℕ → PlayerAgent → Option CsMsgRole
reply codec cmd player =
    if cmd == 1
    then some (
        all_info (get_player_role_base codec player) (get_player_role_ext codec player)
          (get_player_role_misc codec player))
    else if cmd == 2
    then some (base_info (get_player_role_base codec player))
    else if cmd == 3
    then some (ext_info (get_player_role_ext codec player))
    else if cmd == 4
    then some (misc_info (get_player_role_misc codec player))
    else none

-- What Send returns is dropped.
unfoldable pub answer : Env → RoleCodec → ℕ → Session → PlayerAgent → World.World → World.World
answer env codec cmd s player w = elim (reply codec cmd player) [
  | none ↦ w
  | some rsp ↦ (send env w s (codec.encode rsp)).1
]

-- OnPlayingMsg. The four commands that are answered read the player.
unfoldable pub on_playing_msg : Env → RoleCodec → ℕ → CsMsg → Step
on_playing_msg env codec a msg w = elim (lookup a w.store) [
  | none ↦ none
  | some s ↦ elim (codec.role_cmd msg) [
    | none ↦ some (minus_one, w)
    | some cmd ↦ elim s.player [
      | none ↦ if leb 1 cmd && leb cmd 4 then none else some (pos 0, w)
      | some player ↦ some (pos 0, answer env codec cmd s player w)
    ]
  ]
]

-- CSRoleHandler, which inherits CSMsgHandler::OnCreatingMsg.
abbrev pub role_handler : Env → RoleCodec → CsMsgHandler
role_handler env codec = record {
  on_creating_msg = λ a msg w. some (pos 0, w);
  on_playing_msg = on_playing_msg env codec;
}
