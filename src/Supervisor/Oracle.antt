-- ===== src/Supervisor/Oracle.antt =====
-- src/app/supervisor.cpp: the part of the state under `state_mu_`, and the functions that read it.
pub mod Laws
use x1miner.Base.{
  ℕ, Bool, true, false, not, ◌&&◌, ◌||◌, Option, none, some, if◌then◌else◌, is_some, value_or,
}
use x1miner.Base.Int.{ℤ, pos, ◌<ℤ?◌, ◌≤ℤ?◌, ◌==ℤ◌}
use x1miner.Base.Double.{Double}
use x1miner.Base.Text.{Text}

pub record NetState (F : Type 0) : Type 0 where
  pub network_ok : Bool
  pub difficulty_stale : Bool
  pub network_difficulty : Option ℤ
  pub last_difficulty_ok_at : F
  pub difficulty_fail_streak : ℤ
  pub last_poll_seq : ℕ
  pub paper_ok : Bool
  pub paper_newest_m : Option ℤ
  pub paper_tip_id : ℤ
  pub last_paper_ok_at : F
  pub last_paper_seq : ℕ
  pub defer_submit_until : F
  pub submit_backoff_until : F

-- What the supervisor reads of the settings, and the difficulty of the engine.
pub record Config : Type 0 where
  pub force_mine_memory_cost : ℤ
  pub memory_cost : ℤ
  pub sample_interval_s : ℤ
  pub network_down_poll_interval_s : ℤ
  pub connection_timeout_s : ℤ
  pub salt_hex : Text
  pub time_cost : ℤ
  pub parallelism : ℤ
  pub match_drain_enabled : Bool
  pub match_drain_min_queue : ℤ
  pub match_drain_max_s : ℤ
  pub match_drain_parallel : ℤ
  pub match_drain_batch : ℤ
  pub engine_difficulty : Option ℤ

-- `has_value() && *o == m`
unfoldable pub holds : Option ℤ → ℤ → Bool
holds none m = false
holds (some n) m = n ==ℤ m

-- `has_value() && *o > 0`
unfoldable pub is_positive : Option ℤ → Bool
is_positive none = false
is_positive (some n) = pos 0 <ℤ? n

unfoldable pub force_mine_mode : Config → Bool
force_mine_mode c = pos 0 <ℤ? c.force_mine_memory_cost

unfoldable pub live_submit_timeout_s : Config → ℤ
live_submit_timeout_s c = if pos 0 <ℤ? c.connection_timeout_s then c.connection_timeout_s else pos 8

module _ {F : Type 0} where
  unfoldable pub mining_difficulty : Config → NetState F → ℤ
  mining_difficulty c s =
      if force_mine_mode c
      then c.force_mine_memory_cost
      else value_or c.engine_difficulty (value_or s.network_difficulty c.memory_cost)

  unfoldable pub bag_target_m : Config → NetState F → ℤ
  bag_target_m c s =
      if force_mine_mode c
      then c.force_mine_memory_cost
      else value_or s.network_difficulty c.memory_cost

  abbrev pub net_says : NetState F → ℤ → Bool
  net_says s m = s.network_ok && holds s.network_difficulty m

  abbrev pub paper_says : NetState F → ℤ → Bool
  paper_says s m = s.paper_ok && holds s.paper_newest_m m

  unfoldable pub oracle_says_m : NetState F → ℤ → Bool
  oracle_says_m s m = if m ≤ℤ? pos 0 then false else if net_says s m then true else paper_says s m

  abbrev pub have_oracle : NetState F → Bool
  have_oracle s =
      s.network_ok && is_positive s.network_difficulty || s.paper_ok && is_positive s.paper_newest_m

  unfoldable pub oracle_left_m : NetState F → ℤ → Bool
  oracle_left_m s m =
      if m ≤ℤ? pos 0 then false else if net_says s m || paper_says s m then false else have_oracle s

  unfoldable pub submit_target_m : Config → NetState F → ℤ
  submit_target_m c s =
      let bag = bag_target_m c s in
      let net = value_or s.network_difficulty (pos 0) in
      let paper = value_or s.paper_newest_m (pos 0) in
      if s.network_ok && is_positive s.network_difficulty
      then if net ==ℤ bag then bag else net
      else if s.paper_ok && is_positive s.paper_newest_m
      then if paper ==ℤ bag then bag else paper
      else net

  unfoldable pub network_difficulty_for_public : NetState F → ℤ
  network_difficulty_for_public s =
      if s.network_ok && is_some s.network_difficulty
      then value_or s.network_difficulty (pos 0)
      else if s.paper_ok && is_some s.paper_newest_m
      then value_or s.paper_newest_m (pos 0)
      else pos 0

  unfoldable pub should_park_cuda : Config → NetState F → Bool → Bool
  should_park_cuda c s match_drain_active =
      let bag = bag_target_m c s in
      if not match_drain_active
      then false
      else if s.network_ok && is_positive s.network_difficulty
      then holds s.network_difficulty bag
      else paper_says s bag

module _ (D : Double) where
  open D use {F, lt}

  -- `now` is `now_s()`.
  unfoldable pub live_submit_allowed : Config → NetState F → F → Bool
  live_submit_allowed c s now =
      if not s.network_ok
      then false
      else if lt now s.submit_backoff_until
      then false
      else not (not (force_mine_mode c) && lt now s.defer_submit_until)

  unfoldable pub flush_submit_allowed : Config → NetState F → F → Bool
  flush_submit_allowed c s now =
      if lt now s.submit_backoff_until
      then false
      else if not (force_mine_mode c) && lt now s.defer_submit_until
      then false
      else if s.paper_ok || s.network_ok
      then true
      else force_mine_mode c && holds s.network_difficulty c.force_mine_memory_cost

  unfoldable pub can_submit_hit_m : Config → NetState F → F → ℤ → Bool
  can_submit_hit_m c s now hit_m = live_submit_allowed c s now && oracle_says_m s hit_m
