-- ===== src/Queue/Store/Batch.antt =====
-- src/queue/store.cpp: `list_flush_batch`. The two vectors grow by the lambda `take` up to `cap`;
-- `std::sort` is an insertion sort by the code's comparison.
pub mod Order
pub mod Scan
pub mod Laws
use x1miner.Base.{
  ℕ, suc, Bool, true, false, not, ◌&&◌, ◌||◌, List, [], ◌∷◌, ◌++◌, ltb, leb, ◌==◌, if◌then◌else◌,
  length,
}
use x1miner.Base.Int.{ℤ, pos, pos_part, ◌<ℤ?◌}
use x1miner.Base.Sort.{sort_by}
use x1miner.Queue.Codec.{PendingBlock}
use x1miner.Queue.Policy.{ready_to_flush, flush_priority}
use x1miner.Queue.Store.{BlockStore, hit_m}

-- The arguments of a call that stay fixed, with the minute of the hour.
pub record Wave : Type 0 where
  pub net_m : ℤ
  pub default_m : ℤ
  pub skip_before_id : ℤ
  pub minute : ℕ

module _ {F : Type 0} where
  -- Neither of the two early returns of `take` behind its test of the size.
  unfoldable pub is_eligible : Wave → PendingBlock F → Bool
  unfolding hit_m
  is_eligible w pb =
      not (hit_m w.default_m w.net_m pb <ℤ? w.net_m)
      && (ready_to_flush w.minute pb.hit.block_type).0

  unfoldable pub take_block :
      Wave → ℕ → List (PendingBlock F) → PendingBlock F → List (PendingBlock F)
  take_block w cap dest pb =
      if leb cap (length dest) then dest else if is_eligible w pb then dest ++ pb ∷ [] else dest

  unfoldable pub is_skipped : Wave → PendingBlock F → Bool
  is_skipped w pb = (pos 0 <ℤ? w.skip_before_id) && (pb.id <ℤ? w.skip_before_id)

  -- The first loop, with `preferred` and `wrapped`.
  unfoldable pub scan_blocks :
      Wave
      → ℕ
      → List (PendingBlock F)
      → List (PendingBlock F)
      → List (PendingBlock F)
      → List (PendingBlock F) × List (PendingBlock F)
  unfolding take_block is_skipped
  scan_blocks w cap [] preferred wrapped = (preferred, wrapped)
  scan_blocks w cap (pb ∷ rest) preferred wrapped =
      let preferred' = if is_skipped w pb then preferred else take_block w cap preferred pb in
      let wrapped' = if is_skipped w pb then take_block w cap wrapped pb else wrapped in
      let later = scan_blocks w cap rest preferred' wrapped' in
      if leb cap (length preferred') then (preferred', wrapped') else later

  -- The second loop.
  unfoldable pub refill : ℕ → List (PendingBlock F) → List (PendingBlock F) → List (PendingBlock F)
  refill cap preferred [] = preferred
  refill cap preferred (pb ∷ wrapped) =
      let more = preferred ++ pb ∷ [] in
      let rest = refill cap more wrapped in if leb cap (length more) then more else rest

  -- The comparison of the sort.
  unfoldable pub flushes_before : PendingBlock F → PendingBlock F → Bool
  flushes_before a b =
      let pa = flush_priority a.hit.block_type in
      let pb = flush_priority b.hit.block_type in
      if not (pa == pb) then ltb pa pb else a.id <ℤ? b.id

  unfoldable pub sort_blocks : List (PendingBlock F) → List (PendingBlock F)
  unfolding flushes_before
  sort_blocks l = sort_by flushes_before l

  unfoldable pub wave_cap : ℤ → List (PendingBlock F) → ℕ
  wave_cap limit pending = if pos 0 <ℤ? limit then pos_part limit else length pending

  -- The batch before the sort.
  unfoldable pub gather : Wave → ℕ → List (PendingBlock F) → List (PendingBlock F)
  unfolding scan_blocks refill
  gather w cap pending =
      let (preferred, wrapped) = scan_blocks w cap pending [] [] in
      if ltb (length preferred) cap then refill cap preferred wrapped else preferred

module _ {F Doc : Type 0} where
  unfoldable pub list_flush_batch : Wave → ℤ → BlockStore F Doc → List (PendingBlock F)
  unfolding gather sort_blocks wave_cap
  list_flush_batch w limit s = sort_blocks (gather w (wave_cap limit s.pending) s.pending)
