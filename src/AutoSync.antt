-- ===== src/AutoSync.antt =====
-- rgtd/zone/logic/PlayerAutoSyncDBLogic.cpp: a player's role is to be saved every 300 seconds, by an event
-- that the logic delays for itself. The state is the timer's id, the player's m_iDirty and how
-- often the role was given to the database; the event centre is passed along.
pub mod Lost
use playground.Prelude.{
  ℕ, ◌+◌, Bool, true, false, List, [], ◌∷◌, Option, none, some, ltb, ◌==◌, if◌then◌else◌,
}
use playground.Timer.{cancel_timer}
use playground.Events.{event_player_sync_db}
use playground.EventCenter.{EventCenter, Notice, fire_event}
use playground.LogicCenter.{autosync_name}

pub record AutoSync : Type 0 where
  pub uid : ℕ
  pub timer_id : ℕ
  pub dirty : ℕ
  pub updates : ℕ

module _ (online : ℕ → Option ℕ) (notify : Notice → EventCenter → Option EventCenter) where
  -- The call of FireEvent, as OnAttach and OnEvent make it.
  unfoldable pub arm : EventCenter → AutoSync → Option (AutoSync × EventCenter)
  arm c s =
      elim (fire_event online notify c event_player_sync_db (some autosync_name) 300 s.uid 0
        false) [ none ↦ none | some (id, c') ↦ some (record s { timer_id = id }, c') ]

  unfoldable pub on_attach : EventCenter → AutoSync → Option (AutoSync × EventCenter)
  on_attach c s = arm c s

  unfoldable pub on_detach : EventCenter → AutoSync → EventCenter
  on_detach c s = record c {
    timers = record c.timers { core = cancel_timer c.timers.core s.timer_id };
  }

  -- OnEvent, where the database agent accepts an update or not.
  unfoldable pub on_event : Bool → EventCenter → AutoSync → ℕ → Option (AutoSync × EventCenter)
  on_event accepts c s event =
      let clean = arm c s in
      let saved = arm c (record s { dirty = 0; updates = s.updates + 1 }) in
      if event == event_player_sync_db
      then (if ltb 0 s.dirty then (if accepts then saved else some (s, c)) else clean)
      else some (s, c)
