-- ===== src/AutoSync/Lost.antt =====
-- The periodic saving of rgtd/zone/logic/PlayerAutoSyncDBLogic.cpp over the event centre of
-- rgtd/zone/logic/EventCenter.cpp.
use playground.Prelude.{
  ℕ, ◌≡◌, ◌≢◌, ◌⊎◌, inl, inr, refl, sym, ◌∙◌, Option, none, some, arith, ◌==◌, Bool-cases,
}
use playground.Prelude.Map.{lookup}
use playground.Timer.Sorted.{IsSorted}
use playground.Timer.Expiry.{HasRoom}
use playground.Events.{event_player_sync_db}
use playground.LogicCenter.{autosync_name}
use playground.EventCenter.{EventCenter, Notice, on_timer}
use playground.EventCenter.Delays.{fire_event-IsDelayed, on_delay_timer_expired_lost}
use playground.AutoSync.{AutoSync, on_attach, arm}

module _ (online : ℕ → Option ℕ) (notify : Notice → EventCenter → Option EventCenter) where
  -- For a player who is online and whose role id is not 0, with room for another timer, sorted
  -- timers, no event delayed under the number that is the code of the saving event, and player 0
  -- neither online nor cached, OnAttach delays the event that is to save the role. Either its
  -- sequence number is that code, or the timer's call of OnTimer leaves every delayed event as it
  -- was, so this one too.
  pub on_attach_lost :
      (c : EventCenter) (s : AutoSync) (agent : ℕ)
      → HasRoom c.timers.core
      → IsSorted c.timers.timers
      → online s.uid ≡ some agent
      → s.uid ≢ 0
      → lookup event_player_sync_db c.params ≡ none
      → online 0 ≡ none
      → lookup 0 c.players ≡ none
      → (s' : AutoSync) × (c' : EventCenter) × (seq : ℕ) × (on_attach online notify c s
          ≡ some (s', c'))
        × (lookup seq c'.params
            ≡ some (record {
              event = event_player_sync_db;
              param = s.uid;
              receiver = autosync_name;
              arg = 0;
            }))
        × ((seq ≡ event_player_sync_db)
            ⊎ ((c'' : EventCenter) × (on_timer online notify c' event_player_sync_db seq ≡ some c'')
                × ((k : ℕ) → lookup k c''.params ≡ lookup k c'.params)))
  unfolding on_attach arm on_timer
  on_attach_lost c s agent room sorted here real free off uncached =
      let (id, seq, c', fires, delayed) =
        fire_event-IsDelayed online notify c event_player_sync_db agent autosync_name 300 s.uid 0
          room sorted (omega arith) (omega arith) here (omega arith) (omega arith) in
      (
        record s { timer_id = id },
        c',
        seq,
        rw (fires, arm) refl,
        delayed.stored,
        elim (Bool-cases (seq == event_player_sync_db)) [
          | inl t ↦ inl (ground arith)
          | inr f ↦
              let (c'', expires, kept) =
                on_delay_timer_expired_lost online notify c' event_player_sync_db seq _
                  delayed.stored (delayed.others event_player_sync_db (λ e. ground arith) ∙ free)
                  (omega arith) (omega arith) off
                  (delayed.cache 0 (λ e. real (sym e)) ∙ uncached) in
              inr (c'', rw (expires, on_timer) refl, kept)
        ],
      )
