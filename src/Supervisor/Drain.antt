-- ===== src/Supervisor/Drain.antt =====
-- src/app/supervisor.cpp: `update_match_drain`, which opens and closes the window in which the bag is
-- drained. The log and the dashboard are left out.
pub mod Laws
use x1miner.Base.{ℕ, Bool, true, false, not, ◌&&◌, ◌||◌, if◌then◌else◌}
use x1miner.Base.Int.{ℤ, pos, ◌<ℤ?◌, ◌≤ℤ?◌}
use x1miner.Base.Double.{Double}
use x1miner.Common.Json.{JsonLib}
use x1miner.Queue.Store.{BlockStore, pending_eligible_m, flush}
use x1miner.Supervisor.Oracle.{NetState, Config, bag_target_m, oracle_says_m, oracle_left_m}

pub record DrainState (F : Type 0) : Type 0 where
  pub active : Bool
  pub gpu_parked : Bool
  pub until : F
  pub start_queue : ℤ
  pub flushed : ℤ
  pub logged_first_wave : Bool
  pub flush_skip_before_id : ℤ

module _ (D : Double) (J : JsonLib D.F) where
  open D use {F, lit, of_int, add, lt, le}
  open J use {Doc}

  -- The drain and the store, which is written when a window ends.
  unfoldable pub update_match_drain :
      Config → NetState F → F → DrainState F → BlockStore F Doc → DrainState F × BlockStore F Doc
  update_match_drain c s now d store =
      let bag_m = bag_target_m c s in
      let last_good_matches = oracle_says_m s bag_m in
      let confirmed_mismatch = oracle_left_m s bag_m in
      let bag_q = pos (pending_eligible_m store bag_m bag_m) in
      let match_q = if last_good_matches then bag_q else pos 0 in
      let timed_out = (pos 0 <ℤ? c.match_drain_max_s) && lt (lit 0 0) d.until && le d.until now in
      let empty = last_good_matches && (bag_q ≤ℤ? pos 0) in
      let ended = record d { active = false; gpu_parked = false; until = lit 0 0 } in
      let started = record d {
        active = true;
        gpu_parked = false;
        until =
            if pos 0 <ℤ? c.match_drain_max_s then add now (of_int c.match_drain_max_s) else lit 0 0;
        start_queue = match_q;
        flushed = pos 0;
        logged_first_wave = false;
        flush_skip_before_id = pos 0;
      } in
      if not c.match_drain_enabled
      then (if d.active then record d { active = false; gpu_parked = false } else d, store)
      else if d.active
      then if empty || timed_out || confirmed_mismatch then (ended, flush J store) else (d, store)
      else if last_good_matches && (c.match_drain_min_queue ≤ℤ? match_q)
      then (started, store)
      else (d, store)
