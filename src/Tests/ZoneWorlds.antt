-- ===== src/Tests/ZoneWorlds.antt =====
-- Concrete surroundings and worlds of a zone server.
use mathlib.Core.Path.{subst}
use playground.Prelude.{ℕ, suc, ◌+◌, ◌<◌, ◌≡◌, refl, true, [], ◌∷◌, none, some, arith}
use playground.Prelude.Map.{Map, lookup, insert, erase}
use playground.Prelude.Words.{pos}
use playground.GateMsg.{GateSsMsg, event_connected}
use playground.Zone.World
use playground.Zone.World.{
  creating, playing, SessionState, Role, stored, PlayerAgent, Session, Waiting, running,
  getting_role, got, Coroutines, Env,
}
use playground.Zone.Login.{login, login_co}
use playground.Zone.SessionMgr.{find_session, sessions, create_session}
use playground.Zone.Messages.{CsMsgHandler, Dispatcher, get_msg_handler, add_zone}
use playground.Zone.Kept.{IsWell}
use playground.Zone.Tables.{create_session-IsWell}
use playground.Zone.Reachable.{IsFair, AreFair, start, Reached, started, zone_added, Reached-IsWell}
use playground.Zone.Faults.{AreTotal, Ends}
use playground.Tests.GateTests.{list_codec}

unfoldable pub sum_keys : Map Waiting → ℕ
sum_keys [] = 0
sum_keys ((k, _) ∷ m) = k + sum_keys m

lookup-sum_keys : (k : ℕ) (m : Map Waiting) → sum_keys m < k → lookup k m ≡ none
unfolding sum_keys lookup
lookup-sum_keys k [] h = refl
lookup-sum_keys k ((j, v) ∷ m) h = ground (arith, lookup-sum_keys k m)

pub free_coid : (w : Map Waiting) → lookup (suc (sum_keys w)) w ≡ none
free_coid w = lookup-sum_keys (suc (sum_keys w)) w (omega arith)

pub pos_coid : (w : Map Waiting) → 0 < suc (sum_keys w)
pos_coid w = omega arith

-- A coroutine library that takes the number after all that are in use together.
abbrev pub counter : Coroutines
counter = record {
  create = λ w. suc (sum_keys w);
  resumed = λ coid. pos 0;
  create_pos = pos_coid;
  create_new = free_coid;
}

-- The database takes every request and has no role in its cache.
abbrev pub surroundings : Env
surroundings = record {
  co = counter;
  codec = list_codec;
  channels = record { agents = (7, []) ∷ (8, []) ∷ []; next_gen_id = 9 };
  post_message = λ dst bytes. pos 0;
  find_role_object = λ uid. none;
  accepts_get = true;
  accepts_insert = true;
  accepts_update = true;
}

-- A handler that answers 0 and does nothing, for every command.
abbrev pub quiet : CsMsgHandler
quiet = record {
  on_creating_msg = λ a msg w. some (pos 0, w);
  on_playing_msg = λ a msg w. some (pos 0, w);
}

abbrev pub dispatcher : Dispatcher
dispatcher = record {
  handlers = [];
  lua_handler = quiet;
  is_listening_msg = λ cmd. true;
  parse = λ bytes. some (record { cmd = 1; body = bytes });
}

quiet-IsFair : IsFair quiet
quiet-IsFair a msg w w' ret well = (λ e. subst IsWell (cc e) well, λ e. subst IsWell (cc e) well)

pub dispatcher-AreFair : AreFair dispatcher
unfolding get_msg_handler lookup
dispatcher-AreFair cmd h e = subst IsFair (cc e) quiet-IsFair

pub dispatcher-AreTotal : AreTotal dispatcher
unfolding get_msg_handler lookup
dispatcher-AreTotal cmd h e a msg w s well there =
    let same : quiet ≡ h = cc e in
    subst
      (λ (x : CsMsgHandler).
        (s.state ≡ creating → Ends (x.on_creating_msg a msg w))
        × (s.state ≡ playing → Ends (x.on_playing_msg a msg w)))
      same (λ _. (pos 0, w, refl), λ _. (pos 0, w, refl))

-- The server with the zone 1 and no session.
abbrev pub empty_zone : World.World
empty_zone = record {
  agents = (1, []) ∷ [];
  store = [];
  next_address = 0;
  coroutines = [];
  out = [];
}

zone_is : (add_zone 1 start).1 ≡ empty_zone
unfolding add_zone lookup insert erase
zone_is = refl

pub empty_zone-Reached : Reached dispatcher empty_zone
empty_zone-Reached = subst (Reached dispatcher) zone_is (zone_added 1 started)

-- User 9 connects to the gate of channel 7, at the index 5 there.
abbrev pub hello : GateSsMsg
hello = record { event = event_connected; idx = 5; uid = 9; area = 1; ip = 0; port = 0; reason = 0 }

-- The role id of user 9 in the area 1.
abbrev pub role_id : ℕ
role_id = 4294967305

abbrev pub session : Session
session = record {
  uid = role_id;
  accountid = 9;
  area = 1;
  gate = 7;
  idx = pos 5;
  port = pos 0;
  state = SessionState.loading;
  player = none;
  zone = 1;
}

-- The session of user 9 in play, with the role 90.
abbrev pub player : PlayerAgent
player = record { role = stored 90; from_db = true }

abbrev pub in_play : Session
in_play = record session { state = playing; player = some player }

-- The session is there, and its coroutine waits for the role.
abbrev pub one_session : World.World
one_session = record {
  agents = (1, (role_id, some 0) ∷ []) ∷ [];
  store = (0, session) ∷ [];
  next_address = 1;
  coroutines = (1, getting_role 0) ∷ [];
  out = got role_id ∷ [];
}

pub one_session-create_session :
    create_session surroundings 1 role_id 7 hello empty_zone ≡ some (pos 0, one_session)
unfolding create_session find_session sessions lookup insert erase login login_co sum_keys
one_session-create_session = refl

pub one_session-IsWell : IsWell one_session
one_session-IsWell =
    create_session-IsWell surroundings empty_zone one_session 1 role_id 7 hello (pos 0)
      (Reached-IsWell dispatcher dispatcher-AreFair empty_zone empty_zone-Reached)
      one_session-create_session

pub one_session-found : find_session one_session 1 role_id ≡ some 0
unfolding find_session sessions lookup
one_session-found = refl

pub one_session-stored : lookup 0 one_session.store ≡ some session
unfolding lookup
one_session-stored = refl

pub empty_zone-new : find_session empty_zone 1 role_id ≡ none
unfolding find_session sessions lookup
empty_zone-new = refl
