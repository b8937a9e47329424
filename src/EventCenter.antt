-- ===== src/EventCenter.antt =====
-- rgtd/zone/logic/EventCenter.cpp: events for players, at once or delayed by a timer. A player agent is
-- a number, `online` finds the agent of an online player, and `notify` is what NotifyEvent of the
-- player's logic centre does, which may fire events again. A receiver's name is the bytes of the
-- string; `none` is NULL. `none` as a result is a loop that does not end.
pub mod Delays
use playground.Prelude.{
  ℕ, zero, suc, ◌+◌, ◌*◌, Bool, true, false, ◌&&◌, List, [], ◌∷◌, ◌++◌, Option, none, some, ltb,
  leb, ◌==◌, if◌then◌else◌, length,
}
use playground.Prelude.Map.{Map, lookup, insert, erase, first_free}
use playground.Prelude.Words.{ℤ, pos, negsuc, minus_one, u32, to_int, to_u64}
use playground.Timer.{TimerMgr, add_timer}
use playground.Events.{event_test_min, event_test_max, event_player_min, event_player_max}

-- `arg` is an address.
pub record DelayEventParam : Type 0 where
  pub event : ℕ
  pub param : ℕ
  pub receiver : List ℕ
  pub arg : ℕ

abbrev pub no_param : DelayEventParam
no_param = record { event = 0; param = 0; receiver = []; arg = 0 }

-- A call of NotifyEvent.
pub record Notice : Type 0 where
  pub player : ℕ
  pub event : ℕ
  pub param : ℕ
  pub receiver : Option (List ℕ)
  pub arg : ℕ

pub record EventCenter : Type 0 where
  pub players : Map ℕ
  pub params : Map DelayEventParam
  pub next_seq : ℕ
  pub timers : TimerMgr

-- MAX_PLAYER_EVENT_DELAY_TIME
abbrev pub max_player_event_delay_time : ℕ
max_player_event_delay_time = 600

-- GenerateDelayEvent. The search for a sequence number ends within one round more than there are
-- delayed events; `none`: it or AddTimer does not end. The callback of the timer is OnTimer.
unfoldable pub generate_delay_event :
    EventCenter → ℕ → Option (List ℕ) → ℕ → ℕ → ℕ → Option (ℕ × EventCenter)
generate_delay_event c event receiver seconds param arg =
    elim (first_free suc (length c.params + 1) c.next_seq c.params) [
      | none ↦ none
      | some seq ↦ elim (add_timer c.timers (seconds * 1000) event (some 1) seq) [
        | none ↦ none
        | some (id, timers) ↦ some (
          id,
          record c {
            params =
                insert seq
                  (record {
                    event = event;
                    param = param;
                    receiver = elim receiver [ none ↦ [] | some name ↦ name ];
                    arg = arg;
                  })
                  c.params;
            next_seq = suc seq;
            timers = timers;
          },
        )
      ]
    ]

-- (uint32_t)-1
abbrev pub failed : ℕ
failed = 4294967295

-- The player that FireEvent tells, or `none` where it gives up.
unfoldable pub target : (ℕ → Option ℕ) → EventCenter → ℕ → ℕ → Option ℕ
target online c seconds param = elim (online param) [
  | some player ↦ some player
  | none ↦ if ltb 0 seconds then none else lookup param c.players
]

-- Init, but for the pointers that it stores.
unfoldable pub init : EventCenter → EventCenter
init c = record c { next_seq = 1 }

module _ (online : ℕ → Option ℕ) (notify : Notice → EventCenter → Option EventCenter) where
  -- The branch of FireEvent for the events of players.
  unfoldable pub fire_player_event :
      EventCenter → ℕ → Option (List ℕ) → ℕ → ℕ → ℕ → Bool → Option (ℕ × EventCenter)
  fire_player_event c event receiver seconds param arg expired =
      if ltb max_player_event_delay_time seconds
      then some (failed, c)
      else elim (target online c seconds param) [
        | none ↦ some (failed, c)
        | some player ↦
            if ltb 0 seconds
            then generate_delay_event (record c { players = insert param player c.players }) event
                receiver seconds param arg
            else elim (notify
                (record {
                  player = player;
                  event = event;
                  param = param;
                  receiver = receiver;
                  arg = arg;
                })
                c) [
                  | none ↦ none
                  | some d ↦ some (
                    0,
                    record d { players = if expired then erase param d.players else d.players },
                  )
                ]
      ]

  -- FireEvent of a delay that is not negative.
  unfoldable pub fire_event :
      EventCenter → ℕ → Option (List ℕ) → ℕ → ℕ → ℕ → Bool → Option (ℕ × EventCenter)
  fire_event c event receiver seconds param arg expired =
      if ltb event_test_min event && ltb event event_test_max
      then some (0, c)
      else if ltb event_player_min event && ltb event event_player_max
      then fire_player_event c event receiver seconds param arg expired
      else some (failed, c)

  -- OnDelayTimerExpired; the `uint32_t` of FireEvent comes back as an `int`.
  -- `m_mpDelayEventParams[..]` makes an entry where there is none, which the erasure takes away.
  unfoldable pub on_delay_timer_expired : EventCenter → ℕ → ℕ → Option (ℤ × EventCenter)
  on_delay_timer_expired c event seq = elim (lookup seq c.params) [
    | none ↦ some (minus_one, c)
    | some _ ↦
        let dep : DelayEventParam = elim (lookup event c.params) [
          | none ↦ no_param
          | some dep ↦ dep
        ] in
        elim (fire_event (record c { params = erase event c.params }) event (some dep.receiver) 0
          dep.param dep.arg true) [ none ↦ none | some (ret, c') ↦ some (to_int ret, c') ]
  ]

  -- OnTimer, whose parameter is below 2 ^ 31; what OnDelayTimerExpired returns is dropped.
  unfoldable pub on_timer : EventCenter → ℕ → ℕ → Option EventCenter
  on_timer c event param = elim (on_delay_timer_expired c event param) [
    | none ↦ none
    | some (_, c') ↦ some c'
  ]
