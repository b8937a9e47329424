-- ===== src/Zone/World.antt =====
-- What the objects of a zone server hold. Sessions live in a store, since a SessionPtr is shared by
-- the table of its SessionMgr and by the coroutines that log it in or out; a SessionMgr is named by
-- its zone. The coroutine library, the database agent and protobuf are parameters.
use playground.Prelude.{ℕ, ◌≡◌, ◌<◌, Bool, List, Option, none}
use playground.Prelude.Map.{Map, lookup}
use playground.Prelude.Words.{ℤ}
use playground.Channel.{Channels}
use playground.GateMsg.{SsCodec}

pub data SessionState : Type 0 where
  init loading creating playing offline kicking : SessionState

-- A `db::Role*`: an object of the database agent, or a new one with a role id.
pub data Role : Type 0 where
  stored : ℕ → Role
  fresh : ℕ → Role

-- The destructor frees the role. Where AttachPlayerAgent replaces a player this is noted as
-- `released`; the roles that are freed are not followed any further, and the store keeps a session
-- that nothing holds any more.
pub record PlayerAgent : Type 0 where
  pub role : Role
  pub from_db : Bool

pub record Session : Type 0 where
  pub uid : ℕ
  pub accountid : ℕ
  pub area : ℕ
  pub gate : ℕ
  pub idx : ℤ
  pub port : ℤ
  pub state : SessionState
  pub player : Option PlayerAgent
  pub zone : ℕ

-- Where a coroutine stands: it runs, or a database request of it is on its way. The numbers are the
-- session's address and the tries that are left when the request is made.
pub data Waiting : Type 0 where
  running : Waiting
  getting_role : ℕ → Waiting
  inserting_role : ℕ → Waiting
  saving_role : ℕ → ℕ → Waiting

-- `released`: a session lets go of the player with this role, whose destructor frees the role unless
-- the event centre holds the PlayerAgentPtr as well.
pub data Effect : Type 0 where
  attached : Role → Effect
  detached : Role → Effect
  released : Role → Effect
  born : Role → Effect
  got : ℕ → Effect
  inserted : Role → Effect
  updated : Role → Effect
  posted : ℕ → List ℕ → Effect

-- A null SessionPtr in a table is `none`.
pub record World : Type 0 where
  pub agents : Map (Map (Option ℕ))
  pub store : Map Session
  pub next_address : ℕ
  pub coroutines : Map Waiting
  pub out : List Effect

-- The coroutine library: Create gives an id that is not 0 and that no living coroutine has, Resume
-- returns `resumed`.
pub record Coroutines : Type 0 where
  pub create : Map Waiting → ℕ
  pub resumed : ℕ → ℤ
  pub create_pos : (w : Map Waiting) → 0 < create w
  pub create_new : (w : Map Waiting) → lookup (create w) w ≡ none

-- What is read of the surroundings in one step: the role that the database agent has in its cache,
-- whether it accepts a request, and what PostMessage returns for the bytes to a channel.
pub record Env : Type 0 where
  pub co : Coroutines
  pub codec : SsCodec
  pub channels : Channels
  pub post_message : ℕ → List ℕ → ℤ
  pub find_role_object : ℕ → Option Role
  pub accepts_get : Bool
  pub accepts_insert : Bool
  pub accepts_update : Bool

-- `none` is a fault: a null pointer is followed, or a SessionPtr whose session is not there. What
-- lies behind a role's pointer is not modelled.
abbrev pub Step : Type 0
Step = World → Option (ℤ × World)
