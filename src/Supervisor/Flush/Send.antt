-- ===== src/Supervisor/Flush/Send.antt =====
-- src/app/supervisor.cpp: `try_flush_pending`, one attempt to send blocks of the bag to the pool,
-- around the rounds: its early returns, the wave, and the pause. The log and the dashboard are left
-- out.
use x1miner.Base.{Bool, false, not, ◌&&◌, ◌||◌, List, [], ◌∷◌, if◌then◌else◌, length}
use x1miner.Base.Int.{ℤ, pos, pos_part, ◌+ℤ◌, ◌*ℤ◌, ◌<ℤ?◌, ◌==ℤ◌}
use x1miner.Base.Double.{Double}
use x1miner.Common.{BlockHit, SubmitResult}
use x1miner.Common.Json.{JsonLib}
use x1miner.Common.Stats.{sync_pending}
use x1miner.Queue.Codec.{PendingBlock}
use x1miner.Queue.Store.{pending_count, defer_all_to_next_start}
use x1miner.Queue.Store.Batch.{Wave, list_flush_batch}
use x1miner.Supervisor.Oracle.{
  Config, force_mine_mode, bag_target_m, oracle_says_m, submit_target_m, flush_submit_allowed,
}
use x1miner.Supervisor.Network.{PaperStatus, refresh_network, refresh_paper}
use x1miner.Supervisor.Live.{has_thrown, Supervisor, Moment, is_none_left}
use x1miner.Supervisor.Flush.{
  WorkItem, FlushTally, wave_size, parallel_count, choose, build_work, flush_rounds,
}

module _ (D : Double) (J : JsonLib D.F) where
  open D use {F, lit, add, lt}
  open J use {Doc}

  -- The early returns before the wave is listed: whether the attempt goes on, and the state.
  unfoldable pub flush_gate :
      Config → Moment F → PaperStatus F → Bool → Supervisor F Doc → Bool × Supervisor F Doc
  flush_gate c t paper on_shutdown s =
      let (refreshed, polled) = refresh_network D on_shutdown c t.poll t.now s.net in
      let net = refresh_paper D paper t.now polled in
      let read = record s { net = net } in
      let deferred = record read { store = defer_all_to_next_start J t.minute s.store } in
      let allowed = flush_submit_allowed D c net t.now in
      if not on_shutdown && not (flush_submit_allowed D c s.net t.now)
      then (false, s)
      else if not on_shutdown && not (force_mine_mode c) && lt t.now s.net.defer_submit_until
      then (false, s)
      else if not refreshed && on_shutdown
      then (false, deferred)
      else if not refreshed && (not allowed || not (oracle_says_m net (bag_target_m c net)))
      then (false, read)
      else if not on_shutdown && not allowed
      then (false, read)
      else (pos 0 <ℤ? submit_target_m c net, read)

  -- `v.back().id + 1`, of a list that is not empty.
  unfoldable pub after_last_block : ℤ → List (PendingBlock F) → ℤ
  after_last_block id [] = id
  after_last_block id (pb ∷ rest) = after_last_block (pb.id +ℤ pos 1) rest

  unfoldable pub after_last_item : ℤ → List (WorkItem F) → ℤ
  after_last_item id [] = id
  after_last_item id (item ∷ rest) = after_last_item (item.id +ℤ pos 1) rest

  -- What follows the rounds: the pause when the pool only held blocks.
  unfoldable pub finish_flush :
      Moment F → Bool → List (WorkItem F) → Supervisor F Doc × FlushTally → ℤ × Supervisor F Doc
  finish_flush t on_shutdown work (s0, y) =
      let s = record s0 { stats = sync_pending s0.stats (pos (pending_count s0.store)) } in
      let pause = if s.drain.active then lit 1 0 else lit 2 0 in
      let paused = record s {
        net = record s.net { submit_backoff_until = add t.now pause };
        drain = record s.drain {
          flush_skip_before_id = after_last_item s.drain.flush_skip_before_id work;
        };
      } in
      if not (y.flushed ==ℤ pos 0)
      then (y.flushed, s)
      else if not on_shutdown && (pos 0 <ℤ? y.holds) && not y.transport_fail
      then (y.flushed, paused)
      else (y.flushed, s)

  -- The wave that the store lists.
  unfoldable pub flush_wave : Config → Moment F → Bool → Supervisor F Doc → List (PendingBlock F)
  flush_wave c t on_shutdown s =
      let w : Wave = record {
        net_m = submit_target_m c s.net;
        default_m = bag_target_m c s.net;
        skip_before_id = s.drain.flush_skip_before_id;
        minute = t.minute;
      } in
      list_flush_batch w (wave_size c on_shutdown s.drain.active *ℤ pos 2) s.store

  -- The rest of the attempt on a wave.
  unfoldable pub send_wave :
      Config
      → (BlockHit F → SubmitResult)
      → Moment F
      → Bool
      → List (PendingBlock F)
      → Supervisor F Doc
      → ℤ × Supervisor F Doc
  unfolding has_thrown
  send_wave c pool t on_shutdown pending s0 =
      let draining = s0.drain.active in
      let cap = pos_part (wave_size c on_shutdown draining) in
      let pick = choose c s0.net t.minute (submit_target_m c s0.net) in
      let (work, store) = build_work D J pick cap pending ([], s0.store) in
      let s : Supervisor F Doc = record s0 { store = store } in
      let rotated = record s {
        drain = record s.drain {
          flush_skip_before_id = after_last_block s.drain.flush_skip_before_id pending;
        };
      } in
      let first = record s {
        drain = record s.drain { logged_first_wave = draining || s.drain.logged_first_wave };
      } in
      let parallel = pos_part (parallel_count c on_shutdown draining) in
      let start : FlushTally = record {
        accepted_ids = [];
        flushed = pos 0;
        holds = pos 0;
        transport_fail = false;
      } in
      let sent = flush_rounds D J c pool t on_shutdown (length work) parallel work (first, start) in
      if is_none_left work
      then (pos 0, rotated)
      else if has_thrown first sent.0
      then (pos 0, sent.0)
      else finish_flush t on_shutdown work sent

  unfoldable pub try_flush_pending :
      Config
      → (BlockHit F → SubmitResult)
      → Moment F
      → PaperStatus F
      → Bool
      → Supervisor F Doc
      → ℤ × Supervisor F Doc
  try_flush_pending c pool t paper on_shutdown s0 =
      let (goes_on, s) = flush_gate c t paper on_shutdown s0 in
      let pending = flush_wave c t on_shutdown s in
      if not goes_on
      then (pos 0, s)
      else if is_none_left pending
      then (pos 0, s)
      else send_wave c pool t on_shutdown pending s
