-- ===== src/Queue/Store/Batch/Order.antt =====
-- The sort of `list_flush_batch` of src/queue/store.cpp.
use x1miner.Base.{◌≡◌, Bool, true, false, List, arith, tally}
use x1miner.Base.Sort.{IsOrdered, sort_by-IsOrdered, tally-sort_by}
use x1miner.Queue.Codec.{PendingBlock}
use x1miner.Queue.Store.Batch.{flushes_before, sort_blocks}

module _ {F : Type 0} where
  -- No block is to be flushed before one that stands ahead of it.
  abbrev pub IsFlushOrdered : List (PendingBlock F) → Type 0
  IsFlushOrdered l = IsOrdered flushes_before l

  not_before_trans :
      (a b c : PendingBlock F)
      → flushes_before c b ≡ false
      → flushes_before b a ≡ false
      → flushes_before c a ≡ false
  unfolding flushes_before
  not_before_trans a b c h k = ground arith

  before_asym : (a b : PendingBlock F) → flushes_before b a ≡ true → flushes_before a b ≡ false
  unfolding flushes_before
  before_asym a b h = ground arith

  pub sort_blocks-IsFlushOrdered : (l : List (PendingBlock F)) → IsFlushOrdered (sort_blocks l)
  unfolding sort_blocks
  sort_blocks-IsFlushOrdered l = sort_by-IsOrdered flushes_before before_asym not_before_trans l

  pub tally-sort_blocks :
      (q : PendingBlock F → Bool) (l : List (PendingBlock F)) → tally q (sort_blocks l) ≡ tally q l
  unfolding sort_blocks
  tally-sort_blocks q l = tally-sort_by flushes_before q l
