-- ===== src/Supervisor/Flush.antt =====
-- src/app/supervisor.cpp: the inner part of `try_flush_pending`: the items of a wave and the rounds
-- in which they are sent. A round of parallel requests is answered in the order in which the code
-- takes the futures; the log and the dashboard are left out.
pub mod Send
pub mod Laws
pub mod Attempt
pub mod Rounds
use x1miner.Base.{
  ℕ, zero, suc, Bool, true, false, not, ◌&&◌, ◌||◌, Option, none, some, List, [], ◌∷◌, ◌++◌, ◌*◌,
  if◌then◌else◌, value_or, length, take, drop, leb, ltb, max,
}
use x1miner.Base.Int.{ℤ, pos, pos_part, ◌+ℤ◌, ◌*ℤ◌, ◌<ℤ?◌, ◌==ℤ◌, max_ℤ, min_ℤ}
use x1miner.Base.Double.{Double}
use x1miner.Base.Text.{Text, codes}
use x1miner.Common.{BlockHit, SubmitResult}
use x1miner.Common.Json.{JsonLib}
use x1miner.Common.Stats.{MiningStats, record_accepted_flush, record_rejected_flush, sync_pending}
use x1miner.Mining.Encode.{is_argon2_encoded, prepare_hit_for_submit}
use x1miner.Network.Submit.{
  is_difficulty_mismatch, is_xuni_window_reject, is_transient_submit_failure, is_pool_hold,
  counts_as_reject,
}
use x1miner.Queue.Codec.{PendingBlock}
use x1miner.Queue.Policy.{ready_to_flush}
use x1miner.Queue.Store.{
  BlockStore, pending_count, mark_submitted, mark_submitted_many, mark_pending_reason,
  log_rejection, defer_all_to_next_start,
}
use x1miner.Queue.Store.Batch.{Wave, list_flush_batch}
use x1miner.Supervisor.Oracle.{
  NetState, Config, force_mine_mode, mining_difficulty, bag_target_m, oracle_says_m,
  submit_target_m, flush_submit_allowed,
}
use x1miner.Supervisor.Network.{
  PaperStatus, refresh_network, refresh_paper, note_submit_transport_failure,
}
use x1miner.Supervisor.Drain.{DrainState}
use x1miner.Supervisor.Live.{Supervisor, Moment, is_none_left, has_thrown}

pub record WorkItem (F : Type 0) : Type 0 where
  pub id : ℤ
  pub hit : BlockHit F

-- What the loop over the wave does with a block.
pub data Choice (F : Type 0) : Type 0 where
  skips : Choice F
  drops : Choice F
  sends : WorkItem F → Choice F

-- The counters of one attempt, with `accepted_ids` of the round.
pub record FlushTally : Type 0 where
  pub accepted_ids : List ℤ
  pub flushed : ℤ
  pub holds : ℤ
  pub transport_fail : Bool

-- `std::max(1, std::min(256, settings_.match_drain_parallel))`
unfoldable pub drain_parallel : Config → ℤ
drain_parallel c = max_ℤ (pos 1) (min_ℤ (pos 256) c.match_drain_parallel)

unfoldable pub wave_size : Config → Bool → Bool → ℤ
wave_size c on_shutdown draining =
    let full = max_ℤ (pos 256) (drain_parallel c *ℤ pos 16) in
    if on_shutdown
    then pos 0
    else if draining
    then if pos 0 <ℤ? c.match_drain_batch then min_ℤ full c.match_drain_batch else full
    else pos 64

unfoldable pub parallel_count : Config → Bool → Bool → ℤ
parallel_count c on_shutdown draining =
    if draining && not on_shutdown then drain_parallel c else if on_shutdown then pos 1 else pos 4

unfoldable pub choose : {F : Type 0} → Config → NetState F → ℕ → ℤ → PendingBlock F → Choice F
choose c net minute net_m pb =
    let hit_m = value_or pb.hit.memory_cost (mining_difficulty c net) in
    let as_is = Choice.sends (record { id = pb.id; hit = pb.hit }) in
    let prepared : Choice _ =
      elim (prepare_hit_for_submit pb.hit c.salt_hex hit_m c.time_cost c.parallelism) [
        | none ↦ Choice.drops
        | some hit ↦ Choice.sends (record { id = pb.id; hit = hit })
      ] in
    if not (ready_to_flush minute pb.hit.block_type).0
    then Choice.skips
    else if hit_m <ℤ? net_m
    then Choice.skips
    else if is_argon2_encoded pb.hit.hash_str
    then as_is
    else prepared

unfoldable pub is_sent : {F : Type 0} → Choice F → Bool
is_sent Choice.skips = false
is_sent Choice.drops = false
is_sent (Choice.sends _) = true

module _ (D : Double) (J : JsonLib D.F) where
  open D use {F, lit, add, lt}
  open J use {Doc}

  -- What the loop over the wave does with a block, up to its last test.
  unfoldable pub take_choice :
      Choice F → ℤ → List (WorkItem F) × BlockStore F Doc → List (WorkItem F) × BlockStore F Doc
  take_choice Choice.skips id x = x
  take_choice Choice.drops id (work, store) =
      (work, mark_submitted J store id (pos 0) (codes "prepare failed"))
  take_choice (Choice.sends item) id (work, store) = (work ++ item ∷ [], store)

  -- The loop that fills `work` up to `cap`, 0 for no bound.
  unfoldable pub build_work :
      (PendingBlock F → Choice F)
      → ℕ
      → List (PendingBlock F)
      → List (WorkItem F) × BlockStore F Doc
      → List (WorkItem F) × BlockStore F Doc
  build_work pick cap [] x = x
  build_work pick cap (pb ∷ rest) x =
      let x' = take_choice (pick pb) pb.id x in
      let later = build_work pick cap rest x' in
      if is_sent (pick pb) && ltb 0 cap && leb cap (length x'.0) then x' else later

  -- The branch for an accepted block.
  unfoldable pub accept_flush :
      WorkItem F → Supervisor F Doc × FlushTally → Supervisor F Doc × FlushTally
  accept_flush item (s, y) = (
    record s {
      net = record s.net { submit_backoff_until = lit 0 0; network_ok = true };
      drain =
          if s.drain.active then record s.drain { flushed = s.drain.flushed +ℤ pos 1 } else s.drain;
      stats = record_accepted_flush s.stats item.hit.block_type;
      reported = s.reported ++ item.hit ∷ [];
    },
    record y { accepted_ids = y.accepted_ids ++ item.id ∷ []; flushed = y.flushed +ℤ pos 1 },
  )

  unfoldable pub fail_flush :
      Config
      → Moment F
      → Bool
      → WorkItem F
      → SubmitResult
      → Supervisor F Doc × FlushTally
      → Supervisor F Doc × FlushTally
  fail_flush c t on_shutdown item result (s, y) = if on_shutdown then (s, y) else (
    record s {
      net = note_submit_transport_failure D c result.status t.now s.net;
      store = mark_pending_reason J s.store item.id (codes "network_down");
    },
    record y { transport_fail = true },
  )

  unfoldable pub hold_flush :
      WorkItem F → SubmitResult → Supervisor F Doc × FlushTally → Supervisor F Doc × FlushTally
  hold_flush item result (s, y) = (
    record s {
      store =
          if is_difficulty_mismatch result.status result.body
          then mark_pending_reason J s.store item.id (codes "parked")
          else s.store;
    },
    record y { holds = y.holds +ℤ pos 1 },
  )

  -- What follows `log_rejection`, which may throw.
  unfoldable pub after_log :
      WorkItem F
      → Option (BlockStore F Doc)
      → Supervisor F Doc × FlushTally
      → Supervisor F Doc × FlushTally
  after_log item none (s, y) = (record s { ended = true }, y)
  after_log item (some logged) (s, y) =
      (record s { store = mark_pending_reason J logged item.id (codes "resubmission") }, y)

  unfoldable pub reject_flush :
      Text
      → WorkItem F
      → SubmitResult
      → Supervisor F Doc × FlushTally
      → Supervisor F Doc × FlushTally
  unfolding after_log
  reject_flush clock item result (s, y) =
      let counted = record s {
        stats =
            if counts_as_reject result.status result.body
            then record_rejected_flush s.stats item.hit.block_type
            else s.stats;
      } in
      after_log item
        (log_rejection J clock s.store item.hit result.status result.body (codes "flush"))
        (counted, y)

  unfoldable pub settle_item :
      Config
      → Moment F
      → Bool
      → WorkItem F
      → SubmitResult
      → Supervisor F Doc × FlushTally
      → Supervisor F Doc × FlushTally
  settle_item c t on_shutdown item result x =
      if result.ok
      then accept_flush item x
      else if (result.status ==ℤ pos 0) || is_transient_submit_failure result.status result.body
      then fail_flush c t on_shutdown item result x
      else if is_pool_hold result.status result.body
          || is_difficulty_mismatch result.status result.body
          || is_xuni_window_reject result.status result.body
      then hold_flush item result x
      else reject_flush t.clock item result x

  unfoldable pub settle_items :
      Config
      → (BlockHit F → SubmitResult)
      → Moment F
      → Bool
      → List (WorkItem F)
      → Supervisor F Doc × FlushTally
      → Supervisor F Doc × FlushTally
  unfolding has_thrown
  settle_items c pool t on_shutdown [] x = x
  settle_items c pool t on_shutdown (item ∷ items) x =
      let x' = settle_item c t on_shutdown item (pool item.hit) x in
      let rest = settle_items c pool t on_shutdown items x' in
      if has_thrown x.0 x'.0 then x' else rest

  -- One round: its items, and then the ids that were accepted in it.
  unfoldable pub flush_round :
      Config
      → (BlockHit F → SubmitResult)
      → Moment F
      → Bool
      → List (WorkItem F)
      → Supervisor F Doc × FlushTally
      → Supervisor F Doc × FlushTally
  unfolding has_thrown
  flush_round c pool t on_shutdown items (s0, y0) =
      let (s, y) = settle_items c pool t on_shutdown items (s0, record y0 { accepted_ids = [] }) in
      if has_thrown s0 s
      then (s, y)
      else (record s { store = mark_submitted_many J s.store y.accepted_ids }, y)

  -- The loop over the rounds; a round takes at least one item, so `turns` is the number of items.
  unfoldable pub flush_rounds :
      Config
      → (BlockHit F → SubmitResult)
      → Moment F
      → Bool
      → ℕ
      → ℕ
      → List (WorkItem F)
      → Supervisor F Doc × FlushTally
      → Supervisor F Doc × FlushTally
  unfolding has_thrown
  flush_rounds c pool t on_shutdown zero parallel work x = x
  flush_rounds c pool t on_shutdown (suc turns) parallel work x =
      let round = flush_round c pool t on_shutdown (take parallel work) x in
      let rest = flush_rounds c pool t on_shutdown turns parallel (drop parallel work) round in
      if is_none_left work || x.1.transport_fail
      then x
      else if has_thrown x.0 round.0
      then round
      else rest
