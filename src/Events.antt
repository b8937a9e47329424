-- ===== src/Events.antt =====
-- The event codes of rgtd/zone/logic/EventCenter.h, and a call of EventCenter::FireEvent as the
-- player logics make it: without a delay and an argument. `receiver` is the name, `none` for NULL.
use playground.Prelude.{ℕ, List, Option}

abbrev pub event_test_min : ℕ
event_test_min = 1000

abbrev pub event_test_max : ℕ
event_test_max = 1002

abbrev pub event_player_sync_db : ℕ
event_player_sync_db = 2002

abbrev pub event_player_min : ℕ
event_player_min = 2000

abbrev pub event_player_task_done : ℕ
event_player_task_done = 2003

abbrev pub event_player_item_add : ℕ
event_player_item_add = 2004

abbrev pub event_player_item_dec : ℕ
event_player_item_dec = 2005

abbrev pub event_player_remove_grid_item : ℕ
event_player_remove_grid_item = 2006

abbrev pub event_player_change_pack_max_grid : ℕ
event_player_change_pack_max_grid = 2007

abbrev pub event_player_max : ℕ
event_player_max = 2008

pub record Fired : Type 0 where
  pub code : ℕ
  pub receiver : Option (List ℕ)
  pub param : ℕ
