-- ===== src/Supervisor/Network.antt =====
-- src/app/supervisor.cpp: `refresh_network`, `refresh_paper` and `note_submit_transport_failure` on
-- the state under `state_mu_`. The dashboard, the log, the power limit and the replanning of the
-- engine read that state and are left out. All calls of `now_s()` in one call give one time.
pub mod Laws
use x1miner.Base.{
  ℕ, Bool, true, false, not, ◌&&◌, ◌||◌, Option, none, some, ◌==◌, if◌then◌else◌, is_some, value_or,
}
use x1miner.Base.Int.{ℤ, pos, ◌+ℤ◌, ◌<ℤ?◌, ◌==ℤ◌}
use x1miner.Base.Double.{Double, max_f}
use x1miner.Common.{NetworkStatus}
use x1miner.Network.Submit.{accept_network_difficulty}
use x1miner.Supervisor.Oracle.{NetState, Config, holds, force_mine_mode, oracle_says_m}

-- src/network/lastblock.hpp: what the poller of the last blocks found, less the majority.
pub record PaperStatus (F : Type 0) : Type 0 where
  pub ok : Bool
  pub newest_m : Option ℤ
  pub tip_id : ℤ
  pub seq : ℕ

module _ (D : Double) where
  open D use {F, lit, of_int, add, sub, lt}

  -- The branch for an answer with a difficulty.
  unfoldable pub take_difficulty : Config → ℤ → F → NetState F → NetState F
  take_difficulty c raw now s =
      let diff = accept_network_difficulty raw (value_or s.network_difficulty c.memory_cost) in
      let changed = is_some s.network_difficulty && not (holds s.network_difficulty diff) in
      record s {
        defer_submit_until =
            if changed
            then add now (max_f D (lit 5 0) (of_int c.sample_interval_s))
            else s.defer_submit_until;
        network_difficulty = some diff;
        network_ok = true;
        difficulty_stale = false;
        difficulty_fail_streak = pos 0;
        last_difficulty_ok_at = now;
        submit_backoff_until = lit 0 0;
      }

  -- `last > 0 ? now - last : 1e9`
  unfoldable pub age_of : F → F → F
  age_of last now = if lt (lit 0 0) last then sub now last else lit 1000000000 0

  -- The branch for a failed poll; `soft_stale` with the state.
  unfoldable pub miss_difficulty : Config → F → NetState F → Bool × NetState F
  miss_difficulty c now s0 =
      let s = record s0 { difficulty_fail_streak = s0.difficulty_fail_streak +ℤ pos 1 } in
      let age = age_of s.last_difficulty_ok_at now in
      let matching = force_mine_mode c && holds s.network_difficulty c.force_mine_memory_cost in
      let fail_budget = if matching then pos 6 else pos 3 in
      let age_budget = if matching then lit 120 0 else lit 60 0 in
      let known = is_some s.network_difficulty in
      if known && lt age (lit 180 0) && (s.difficulty_fail_streak <ℤ? pos 8)
      then (
        true,
        record s {
          difficulty_stale = true;
          network_ok = (s.difficulty_fail_streak <ℤ? fail_budget) && lt age age_budget;
        },
      )
      else (false, record s { network_ok = false; difficulty_stale = known })

  -- The snapshot is one that was read before.
  unfoldable pub is_seen : NetworkStatus F → NetState F → Bool
  is_seen st s = (st.seq == 0) || (st.seq == s.last_poll_seq)

  -- The state once the snapshot is taken in, with the result of the call.
  unfoldable pub take_status : Config → NetworkStatus F → F → NetState F → Bool × NetState F
  take_status c st now s = elim st.difficulty [
    | some raw ↦ (true, take_difficulty c raw now s)
    | none ↦ let (soft_stale, t) = miss_difficulty c now s in (soft_stale && t.network_ok, t)
  ]

  -- `st` is the poll of a blocking call, or the snapshot of the poller.
  unfoldable pub refresh_network :
      Bool → Config → NetworkStatus F → F → NetState F → Bool × NetState F
  refresh_network blocking c st now s =
      let counted = record s { last_poll_seq = if st.seq == 0 then s.last_poll_seq else st.seq } in
      if not blocking && is_seen st s
      then (s.network_ok && is_some s.network_difficulty, s)
      else take_status c st now counted

  unfoldable pub refresh_paper : PaperStatus F → F → NetState F → NetState F
  refresh_paper st now s0 =
      let s = record s0 { last_paper_seq = st.seq } in
      let fresh = record s {
        paper_ok = true;
        paper_newest_m = st.newest_m;
        paper_tip_id = st.tip_id;
        last_paper_ok_at = now;
      } in
      let aged = record s {
        paper_ok = is_some s.paper_newest_m && lt (age_of s.last_paper_ok_at now) (lit 30 0);
      } in
      if (st.seq == 0) || (st.seq == s0.last_paper_seq)
      then s0
      else if st.ok && is_some st.newest_m
      then fresh
      else aged

  unfoldable pub note_submit_transport_failure : Config → ℤ → F → NetState F → NetState F
  note_submit_transport_failure c status now s =
      let hybrid_match = force_mine_mode c && oracle_says_m s c.force_mine_memory_cost in
      let rate_limit = (status ==ℤ pos 401) || (status ==ℤ pos 403) || (status ==ℤ pos 429) in
      let keep_net = hybrid_match || rate_limit in
      let backoff =
        if keep_net then lit 3 0 else max_f D (lit 15 0) (of_int c.network_down_poll_interval_s) in
      record s {
        submit_backoff_until = add now backoff;
        network_ok = if keep_net then s.network_ok else false;
      }
