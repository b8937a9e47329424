-- ===== src/Tests/LoginTests.antt =====
-- The theorems of the logins to a zone server, applied to a zone with one session.
use playground.Prelude.{ℕ, ◌≡◌, refl, List, [], ◌∷◌, ◌++◌, some, arith}
use playground.Prelude.Map.{lookup, insert, erase}
use playground.Prelude.Words.{ℤ, pos, minus_one}
use playground.Zone.World
use playground.Zone.World.{
  SessionState, loading, creating, playing, offline, kicking, Role, stored, fresh, PlayerAgent,
  Session, Waiting, running, getting_role, saving_role, posted, Effect, attached, released,
  Coroutines, Env,
}
use playground.Zone.Login.{login, login_co, login_ok, common_coroutine_resume}
use playground.Zone.SessionMgr.{sessions, find_session, stop_session, create_session}
use playground.Zone.Kept.{IsWell}
use playground.Zone.Reachable.{Reached-IsWell}
use playground.Zone.Relogin.{create_session-relogin, create_session-playing}
use playground.Zone.Dangling.{create_session-released}
use playground.Zone.Tables.{create_session-IsWell}
use playground.Tests.ZoneWorlds.{
  sum_keys, surroundings, counter, dispatcher, dispatcher-AreFair, empty_zone, player, in_play,
  empty_zone-Reached, empty_zone-new, hello, role_id, session, one_session, one_session-IsWell,
  one_session-found, one_session-stored,
}

create_session-relogin_example :
    (ret : ℤ) × (w' : World.World) × (create_session surroundings 1 role_id 8 hello one_session
      ≡ some (ret, w'))
    × ((later : Env) (idx : ℕ) → stop_session later 1 8 idx role_id w' ≡ some (minus_one, w'))
create_session-relogin_example =
    create_session-relogin surroundings one_session 1 role_id 8 0 hello session one_session-IsWell
      one_session-found one_session-stored (λ e. omega (arith, e))

-- By then the role is in the cache.
abbrev answered : Env
answered = record surroundings { find_role_object = λ uid. some (stored 90) }

create_session-playing_example :
    (w1 w2 : World.World) × (create_session surroundings 1 role_id 7 hello empty_zone
      ≡ some (pos 0, w1))
    × (common_coroutine_resume answered w1 (pos 0) (counter.create []) ≡ some (pos 0, w2))
    × (find_session w2 1 role_id ≡ some 0)
    × (lookup 0 w2.store ≡ some in_play)
create_session-playing_example =
    create_session-playing surroundings answered empty_zone 1 role_id 7 hello (stored 90)
      empty_zone-new refl refl refl

-- User 9 has logged in with the role in the cache, and plays.
abbrev one_player : World.World
one_player = record {
  agents = (1, (role_id, some 0) ∷ []) ∷ [];
  store = (0, in_play) ∷ [];
  next_address = 1;
  coroutines = [];
  out = attached (stored 90) ∷ [];
}

one_player-create_session :
    create_session answered 1 role_id 7 hello empty_zone ≡ some (pos 0, one_player)
unfolding create_session find_session sessions lookup insert erase login login_co login_ok sum_keys
one_player-create_session = refl

one_player-IsWell : IsWell one_player
one_player-IsWell =
    create_session-IsWell answered empty_zone one_player 1 role_id 7 hello (pos 0)
      (Reached-IsWell dispatcher dispatcher-AreFair empty_zone empty_zone-Reached)
      one_player-create_session

one_player-found : find_session one_player 1 role_id ≡ some 0
unfolding find_session sessions lookup
one_player-found = refl

one_player-stored : lookup 0 one_player.store ≡ some in_play
unfolding lookup
one_player-stored = refl

create_session-released_example :
    (ret : ℤ) × (w' : World.World) × (s' : Session) × (before : List Effect) × (create_session
        answered 1 role_id 8 hello one_player
      ≡ some (ret, w'))
    × (w'.out ≡ before ++ released (stored 90) ∷ attached (stored 90) ∷ [])
    × (lookup 0 w'.store ≡ some s')
    × (s'.state ≡ playing)
    × (s'.player ≡ some player)
create_session-released_example =
    create_session-released answered one_player 1 role_id 8 0 hello in_play player one_player-IsWell
      one_player-found one_player-stored refl refl refl
