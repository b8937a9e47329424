-- ===== src/EventCenter/Delays.antt =====
-- Delayed events of rgtd/zone/logic/EventCenter.cpp: how they are stored, and what becomes of them.
use mathlib.Core.Path.{subst}
use playground.Prelude.{
  sym, ℕ, suc, ◌+◌, ◌*◌, ◌≤◌, ◌<◌, ◌≡◌, ◌≢◌, refl, ap, ◌∙◌, Bool, true, false, ◌&&◌, List, [],
  Option, none, some, arith, ltb, if◌then◌else◌, length, ◌==◌, ◌%◌,
}
use playground.Prelude.Map.{
  Map, lookup, insert, erase, lookup-insert, lookup-erase, first_free-suc_lem,
}
use playground.Prelude.Words.{minus_one}
use playground.Timer.Sorted.{IsSorted, insert_entry-IsSorted}
use playground.Timer.Expiry.{HasRoom}
use playground.Timer.{insert_entry}
use playground.Timer.Firing.{added_event, add_timer-added_event}
use playground.Events.{event_player_min, event_player_max}
use playground.EventCenter.{
  EventCenter, DelayEventParam, Notice, failed, target, generate_delay_event, fire_player_event,
  fire_event, on_delay_timer_expired,
}

-- The delayed event `dep` of the player `agent` is stored under a sequence number that none had, and
-- one timer more waits than before: it calls OnTimer after the seconds, with the event's code and this
-- number.
pub record IsDelayed (c c' : EventCenter) (agent seconds seq id : ℕ) (dep : DelayEventParam)
    : Type 0 where
  pub unused : lookup seq c.params ≡ none
  pub stored : lookup seq c'.params ≡ some dep
  pub others : (k : ℕ) → k ≢ seq → lookup k c'.params ≡ lookup k c.params
  pub cached : lookup dep.param c'.players ≡ some agent
  pub cache : (uid : ℕ) → uid ≢ dep.param → lookup uid c'.players ≡ lookup uid c.players
  pub new_timer : lookup id c.timers.events ≡ none
  pub timed :
      (j : ℕ)
      → lookup j c'.timers.events ≡ (
          if id == j
          then some (added_event c.timers (seconds * 1000) dep.event (some 1) seq id)
          else lookup j c.timers.events)
  pub queued :
      c'.timers.timers
      ≡ insert_entry
          (record { key = (c.timers.cur_ms + seconds * 1000) % 18446744073709551616; id = id })
          c.timers.timers
  pub in_order : IsSorted c'.timers.timers

lookup-missing :
    {V : Type 0} (k j : ℕ) (m : Map V) → lookup k m ≡ none → lookup j (erase k m) ≡ lookup j m
lookup-missing k j m e = ground (arith, lookup-erase k j m)

module _ (online : ℕ → Option ℕ) (notify : Notice → EventCenter → Option EventCenter) where
  -- An event of a player is handled as such.
  fire_event-player :
      (c : EventCenter) (event : ℕ) (name : Option (List ℕ)) (seconds param arg : ℕ)
      (expired : Bool)
      → event_player_min < event
      → event < event_player_max
      → fire_event online notify c event name seconds param arg expired
        ≡ fire_player_event online notify c event name seconds param arg expired
  unfolding fire_event
  fire_event-player c event name seconds param arg expired lo hi =
      let test : ltb 1000 event && ltb event 1002 ≡ false = ground arith in
      let player : ltb 2000 event && ltb event 2008 ≡ true = ground arith in
      let other = fire_player_event online notify c event name seconds param arg expired in
      ap
        (λ (b : Bool).
          if b
          then some (0, c)
          else if ltb 2000 event && ltb event 2008
          then other
          else some (failed, c))
        test
      ∙ ap (λ (b : Bool). if b then other else some (failed, c)) player

  fire_delayed :
      (c : EventCenter) (event agent : ℕ) (name : Option (List ℕ)) (seconds param arg : ℕ)
      → online param ≡ some agent
      → 0 < seconds
      → seconds ≤ 600
      → fire_player_event online notify c event name seconds param arg false
        ≡ generate_delay_event
            (record c { players = insert param agent c.players })
            event
            name
            seconds
            param
            arg
  unfolding fire_player_event target
  fire_delayed c event agent name seconds param arg here later soon =
      let soon' : ltb 600 seconds ≡ false = ground arith in
      let later' : ltb 0 seconds ≡ true = ground arith in
      rw (soon', fire_player_event, here, later') refl

  -- For an event of a player who is online, with a delay of 1 to 600 seconds, room for another
  -- timer and sorted timers, FireEvent ends with a timer id that no waiting timer has. The event
  -- with its parameter, receiver and argument is stored under a sequence number that no delayed
  -- event had, every other delayed event is as before, the player's agent is cached, and every
  -- other cached agent is as before. Under the timer id a timer is found that calls OnTimer with
  -- the event's code and the sequence number once the clock has gone on by the seconds, modulo 2 ^
  -- 64 in milliseconds, every other timer is found as before, and the multimap has the one new
  -- entry and stays sorted.
  pub fire_event-IsDelayed :
      (c : EventCenter) (event agent : ℕ) (name : List ℕ) (seconds param arg : ℕ)
      → HasRoom c.timers.core
      → IsSorted c.timers.timers
      → event_player_min < event
      → event < event_player_max
      → online param ≡ some agent
      → 0 < seconds
      → seconds ≤ 600
      → (id : ℕ) × (seq : ℕ) × (c' : EventCenter) × (fire_event online notify c event
            (some name)
            seconds
            param
            arg
            false
          ≡ some (id, c'))
        × IsDelayed c c' agent seconds seq id
            (record { event = event; param = param; receiver = name; arg = arg })
  unfolding generate_delay_event
  fire_event-IsDelayed c event agent name seconds param arg room sorted lo hi here later soon =
      let c1 = record c { players = insert param agent c.players } in
      let dep : DelayEventParam = record {
        event = event;
        param = param;
        receiver = name;
        arg = arg;
      } in
      let (seq, found, _, free) =
        first_free-suc_lem (length c.params + 1) c.next_seq c.params (omega arith) in
      let (id, timers, added, unused, timed, queued) =
        add_timer-added_event c.timers (seconds * 1000) event (some 1) seq room in
      let made : generate_delay_event c1 event (some name) seconds param arg
          ≡ some (
            id,
            record c1 { params = insert seq dep c.params; next_seq = suc seq; timers = timers },
          ) =
        rw (found, generate_delay_event, added) refl in
      (
        id,
        seq,
        record c1 { params = insert seq dep c.params; next_seq = suc seq; timers = timers },
        fire_event-player c event (some name) seconds param arg false lo hi
            ∙ fire_delayed c event agent (some name) seconds param arg here later soon
            ∙ made,
        record {
          unused = free;
          stored = ground (arith, lookup-insert seq seq dep c.params);
          others = λ k ne. ground (arith, lookup-insert seq k dep c.params);
          cached = ground (arith, lookup-insert param param agent c.players);
          cache = λ uid ne. ground (arith, lookup-insert param uid agent c.players);
          new_timer = unused;
          timed = timed;
          queued = queued;
          in_order = subst IsSorted (sym queued) (insert_entry-IsSorted _ c.timers.timers sorted);
        },
      )

  fire_nobody :
      (c : EventCenter) (event : ℕ)
      → online 0 ≡ none
      → lookup 0 c.players ≡ none
      → fire_player_event online notify c event (some []) 0 0 0 true ≡ some (failed, c)
  unfolding fire_player_event target
  fire_nobody c event off uncached = rw (off, fire_player_event, uncached) refl

  -- Where an event of a player is delayed under a sequence number, none is delayed under the
  -- number that is its event code, and player 0 is neither online nor cached, OnDelayTimerExpired
  -- returns -1, and every delayed event is stored as before.
  pub on_delay_timer_expired_lost :
      (c : EventCenter) (event seq : ℕ) (dep : DelayEventParam)
      → lookup seq c.params ≡ some dep
      → lookup event c.params ≡ none
      → event_player_min < event
      → event < event_player_max
      → online 0 ≡ none
      → lookup 0 c.players ≡ none
      → (c' : EventCenter) × (on_delay_timer_expired online notify c event seq
          ≡ some (minus_one, c'))
        × ((k : ℕ) → lookup k c'.params ≡ lookup k c.params)
  unfolding on_delay_timer_expired
  on_delay_timer_expired_lost c event seq dep stored missing lo hi off uncached =
      let c1 = record c { params = erase event c.params } in
      let gone : fire_event online notify c1 event (some []) 0 0 0 true ≡ some (failed, c1) =
        fire_event-player c1 event (some []) 0 0 0 true lo hi ∙ fire_nobody c1 event off uncached in
      (
        c1,
        rw (stored, on_delay_timer_expired, missing, gone) refl,
        λ k. lookup-missing event k c.params missing,
      )
