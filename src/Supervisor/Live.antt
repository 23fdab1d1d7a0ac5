-- ===== src/Supervisor/Live.antt =====
-- src/app/supervisor.cpp: the way of a hit from the engine (`handle_hit`) through the queue of live
-- submissions (`process_live_submit`, one turn of `submit_worker_loop`) to the pool or the bag. The
-- pool is a function from hits to results; what the log and the dashboard show is left out.
pub mod Laws
pub mod Turn
use x1miner.Base.{
  ◌≡◌, ℕ, Bool, true, false, not, ◌&&◌, ◌||◌, Option, none, some, List, [], ◌∷◌, ◌++◌,
  if◌then◌else◌, value_or,
}
use x1miner.Base.Int.{ℤ, pos, ◌+ℤ◌, ◌<ℤ?◌, ◌==ℤ◌}
use x1miner.Base.Double.{Double}
use x1miner.Base.Text.{Text, codes, text_eq, is_empty}
use x1miner.Common.{BlockHit, NetworkStatus, SubmitResult}
use x1miner.Common.Json.{JsonLib}
use x1miner.Common.Stats.{
  MiningStats, record_found, record_enqueued, record_accepted_live, record_rejected_live,
  record_resubmission, sync_pending,
}
use x1miner.Mining.BlockTypes.{classify_block}
use x1miner.Mining.Encode.{is_hex64_key, prepare_hit_for_submit}
use x1miner.Network.Submit.{
  is_difficulty_mismatch, is_xuni_window_reject, is_transient_submit_failure, is_pool_hold,
  counts_as_reject,
}
use x1miner.Queue.Policy.{in_xuni_submit_window}
use x1miner.Queue.Store.{
  BlockStore, enqueue, pending_count, record_direct_submit, record_rejection,
  defer_all_to_next_start, outside_xuni_window_reason, shutdown_pending_reason,
}
use x1miner.Supervisor.Oracle.{
  NetState, Config, mining_difficulty, force_mine_mode, oracle_says_m, live_submit_allowed,
  can_submit_hit_m,
}
use x1miner.Supervisor.Network.{refresh_network, note_submit_transport_failure}
use x1miner.Supervisor.Drain.{DrainState}

abbrev pub difficulty_change_reason : Text
difficulty_change_reason = codes "difficulty_change"

abbrev pub match_window_new_reason : Text
match_window_new_reason = codes "match_window_new"

pub record LiveSubmitJob (F : Type 0) : Type 0 where
  pub hit : BlockHit F
  pub kind : Text

-- `reported` is what `report_accepted` was called with. The worker catches no exception: `ended` says
-- that one has left it, which ends the process (std::terminate).
pub record Supervisor (F Doc : Type 0) : Type 0 where
  pub net : NetState F
  pub store : BlockStore F Doc
  pub stats : MiningStats F
  pub live_q : List (LiveSubmitJob F)
  pub drain : DrainState F
  pub reported : List (BlockHit F)
  pub ended : Bool

-- An exception has left the code on the way from the one state to the other.
unfoldable pub has_thrown : {F Doc : Type 0} → Supervisor F Doc → Supervisor F Doc → Bool
has_thrown s s' = not s.ended && s'.ended

-- The JSON library can print every answer of the pool.
abbrev pub Printable : {F : Type 0} → JsonLib F → (BlockHit F → SubmitResult) → Type 0
Printable {F} lib pool = (hit : BlockHit F) → lib.prints (lib.text (pool hit).body) ≡ true

-- What a call reads of the world: the time in three forms, the flag, and the poller's snapshot.
pub record Moment (F : Type 0) : Type 0 where
  pub now : F
  pub clock : Text
  pub minute : ℕ
  pub shutting_down : Bool
  pub poll : NetworkStatus F

-- A XUNI outside the submit window.
unfoldable pub xuni_waits : ℕ → Text → Bool
xuni_waits minute kind = text_eq kind (codes "XUNI") && not (in_xuni_submit_window minute)

-- `kind` before the hit is prepared.
unfoldable pub found_kind : Text → Text → Text
found_kind hash_str block_type =
    let kind = classify_block hash_str block_type in
    if text_eq kind (codes "OTHER")
    then if is_empty block_type then codes "OTHER" else block_type
    else kind

-- `batch.empty()`
unfoldable pub is_none_left {ℓ} : {A : Type ℓ} → List A → Bool
is_none_left [] = true
is_none_left (_ ∷ _) = false

module _ (D : Double) (J : JsonLib D.F) where
  open D use {F, lit, lt}
  open J use {Doc}

  unfoldable pub queue_hit : Text → BlockHit F → Text → Text → Supervisor F Doc → Supervisor F Doc
  queue_hit clock hit kind reason s =
      let (id, store) = enqueue J clock s.store hit reason in
      let counted = sync_pending (record_enqueued s.stats kind) (pos (pending_count store)) in
      record s { store = store; stats = if id ==ℤ pos 0 then s.stats else counted }

  unfoldable pub enqueue_live_submit : BlockHit F → Text → Supervisor F Doc → Supervisor F Doc
  enqueue_live_submit hit kind s = record s {
    live_q = s.live_q ++ record { hit = hit; kind = kind } ∷ [];
  }

  -- The reason for a hit that cannot be submitted now.
  unfoldable pub wait_reason : Config → Moment F → ℤ → Supervisor F Doc → Text
  wait_reason c t hit_m s =
      let net_m = value_or s.net.network_difficulty (pos 0) in
      if s.net.network_ok && (pos 0 <ℤ? net_m) && not (net_m ==ℤ hit_m)
      then difficulty_change_reason
      else if not (force_mine_mode c) && lt t.now s.net.defer_submit_until
      then difficulty_change_reason
      else codes "network_down"

  -- `handle_hit` from the prepared hit on.
  unfoldable pub route_hit : Config → Moment F → BlockHit F → Supervisor F Doc → Supervisor F Doc
  route_hit c t hit s =
      let kind = hit.block_type in
      let hit_m = value_or hit.memory_cost (mining_difficulty c s.net) in
      if t.shutting_down
      then queue_hit t.clock hit kind
          (if xuni_waits t.minute kind then outside_xuni_window_reason else shutdown_pending_reason)
          s
      else if xuni_waits t.minute kind
      then queue_hit t.clock hit kind outside_xuni_window_reason s
      else if s.drain.active && (pos 0 <ℤ? s.drain.flushed)
      then queue_hit t.clock hit kind match_window_new_reason s
      else if not (can_submit_hit_m D c s.net t.now hit_m)
      then queue_hit t.clock hit kind (wait_reason c t hit_m s) s
      else enqueue_live_submit hit kind s

  unfoldable pub handle_hit : Config → Moment F → BlockHit F → Supervisor F Doc → Supervisor F Doc
  handle_hit c t hit s =
      let found = record s {
        stats = record_found s.stats (found_kind hit.hash_str hit.block_type);
      } in
      let prepared =
        prepare_hit_for_submit hit c.salt_hex (mining_difficulty c s.net) c.time_cost
          c.parallelism in
      if not (is_hex64_key hit.key)
      then s
      else elim prepared [ none ↦ found | some ready ↦ route_hit c t ready found ]

  -- The branch for an accepted hit.
  unfoldable pub accept_live :
      BlockHit F → Text → SubmitResult → Supervisor F Doc → Supervisor F Doc
  accept_live hit kind result s = record s {
    net = record s.net { submit_backoff_until = lit 0 0; network_ok = true };
    drain =
        if s.drain.active then record s.drain { flushed = s.drain.flushed +ℤ pos 1 } else s.drain;
    stats = record_accepted_live s.stats kind;
    store = record_direct_submit J s.store hit result.status result.body;
    reported = s.reported ++ hit ∷ [];
  }

  -- What follows `record_rejection`, with the statistics of the class of the answer.
  unfoldable pub after_rejection :
      Text → MiningStats F → Option (Bool × BlockStore F Doc) → Supervisor F Doc → Supervisor F Doc
  after_rejection kind counted none s = record s { ended = true }
  after_rejection kind counted (some (recorded, store)) s = record s {
    store = store;
    stats =
        if recorded
        then sync_pending (record_resubmission counted kind) (pos (pending_count store))
        else s.stats;
  }

  -- The branch for an answer that is in none of the classes. `record_rejection` may throw.
  unfoldable pub reject_live :
      Text → BlockHit F → Text → SubmitResult → Supervisor F Doc → Supervisor F Doc
  unfolding after_rejection
  reject_live clock hit kind result s =
      let parked = is_difficulty_mismatch result.status result.body in
      let reason = if parked then codes "parked" else codes "resubmission" in
      let counted =
        if counts_as_reject result.status result.body
        then record_rejected_live s.stats kind
        else s.stats in
      after_rejection kind counted
        (record_rejection J clock s.store hit result.status result.body (codes "live") reason) s

  -- `process_live_submit` once the pool has answered.
  unfoldable pub settle_live :
      Config → Moment F → BlockHit F → Text → SubmitResult → Supervisor F Doc → Supervisor F Doc
  settle_live c t hit kind result s =
      let failed = record s { net = note_submit_transport_failure D c result.status t.now s.net } in
      if result.ok
      then accept_live hit kind result s
      else if (result.status ==ℤ pos 0) || is_transient_submit_failure result.status result.body
      then queue_hit t.clock hit kind (codes "network_down") failed
      else if is_pool_hold result.status result.body
      then queue_hit t.clock hit kind difficulty_change_reason s
      else if is_difficulty_mismatch result.status result.body
      then queue_hit t.clock hit kind difficulty_change_reason s
      else if is_xuni_window_reject result.status result.body
      then queue_hit t.clock hit kind outside_xuni_window_reason s
      else reject_live t.clock hit kind result s

  unfoldable pub process_live_submit :
      Config
      → (BlockHit F → SubmitResult)
      → Moment F
      → LiveSubmitJob F
      → Supervisor F Doc
      → Supervisor F Doc
  process_live_submit c pool t job s =
      let s' = record s { net = (refresh_network D false c t.poll t.now s.net).1 } in
      let hit_m = value_or job.hit.memory_cost (mining_difficulty c s'.net) in
      if t.shutting_down
      then queue_hit t.clock job.hit job.kind shutdown_pending_reason s
      else if xuni_waits t.minute job.kind
      then queue_hit t.clock job.hit job.kind outside_xuni_window_reason s
      else if not (can_submit_hit_m D c s'.net t.now hit_m)
      then queue_hit t.clock job.hit job.kind
          (if live_submit_allowed D c s'.net t.now && not (oracle_says_m s'.net hit_m)
            then difficulty_change_reason
            else codes "network_down")
          s'
      else settle_live c t job.hit job.kind (pool job.hit) s'

  -- `store_->enqueue(job.hit, reason); metrics_->record_enqueued(job.kind);`
  unfoldable pub bag_job : Text → Text → LiveSubmitJob F → Supervisor F Doc → Supervisor F Doc
  bag_job clock reason job s = record s {
    store = (enqueue J clock s.store job.hit reason).1;
    stats = record_enqueued s.stats job.kind;
  }

  unfoldable pub bag_jobs :
      Text → Text → List (LiveSubmitJob F) → Supervisor F Doc → Supervisor F Doc
  bag_jobs clock reason [] s = s
  bag_jobs clock reason (job ∷ jobs) s = bag_jobs clock reason jobs (bag_job clock reason job s)

  unfoldable pub bag_live_queue_to_store : Text → Text → Supervisor F Doc → Supervisor F Doc
  bag_live_queue_to_store clock reason s =
      let bagged = bag_jobs clock reason s.live_q (record s { live_q = [] }) in
      if is_none_left s.live_q
      then bagged
      else record bagged { stats = sync_pending bagged.stats (pos (pending_count bagged.store)) }

  unfoldable pub submit_jobs :
      Config
      → (BlockHit F → SubmitResult)
      → Moment F
      → List (LiveSubmitJob F)
      → Supervisor F Doc
      → Supervisor F Doc
  unfolding has_thrown
  submit_jobs c pool t [] s = s
  submit_jobs c pool t (job ∷ jobs) s =
      let s' = process_live_submit c pool t job s in
      let rest = submit_jobs c pool t jobs s' in if has_thrown s s' then s' else rest

  -- The part of a turn of `submit_worker_loop` that takes the live queue.
  unfoldable pub drain_live_queue :
      Config → (BlockHit F → SubmitResult) → Moment F → Supervisor F Doc → Supervisor F Doc
  drain_live_queue c pool t s =
      if t.shutting_down
      then bag_live_queue_to_store t.clock shutdown_pending_reason s
      else submit_jobs c pool t s.live_q (record s { live_q = [] })

  -- `persist_queue_for_restart` on the queue and the store.
  unfoldable pub persist_queue_for_restart : Moment F → Supervisor F Doc → Supervisor F Doc
  persist_queue_for_restart t s =
      let bagged = bag_live_queue_to_store t.clock shutdown_pending_reason s in
      record bagged { store = defer_all_to_next_start J t.minute bagged.store }
