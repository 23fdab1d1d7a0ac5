-- ===== src/Common/Stats.antt =====
-- `MiningStats` of src/common.hpp with its totals, and the tracker of src/monitoring/metrics.cpp.
-- The counters start at 0 and are only ever incremented, so they are natural numbers.
pub mod Laws
use x1miner.Base.{ℕ, suc, ◌+◌, Bool, true, false, if◌then◌else◌}
use x1miner.Base.Double.{Double}
use x1miner.Base.Int.{ℤ, ◌+ℤ◌, pos}
use x1miner.Base.Text.{Text, codes, text_eq}

-- One counter for each kind of block; the C++ fields are `<bucket>_xuni`, `_xnm`, `_xblk`.
pub record Counts : Type 0 where
  pub xuni : ℕ
  pub xnm : ℕ
  pub xblk : ℕ

pub record MiningStats (F : Type 0) : Type 0 where
  pub total_hashes : ℤ
  pub session_hits : ℕ
  pub active_lanes : ℤ
  pub hps_ema : F
  pub found : Counts
  pub enqueued : Counts
  pub accepted_live : Counts
  pub accepted_flush : Counts
  pub failed_live : Counts
  pub rejected_flush : Counts
  pub rejected_live : Counts
  pub resubmission : Counts
  pub dropped_flush : ℕ
  pub queued : ℤ

abbrev pub zero_counts : Counts
zero_counts = record { xuni = 0; xnm = 0; xblk = 0 }

pub sum_counts : Counts → ℕ
sum_counts c = c.xuni + c.xnm + c.xblk

module _ {F : Type 0} where
  -- A fresh `MiningStats`.
  pub new_stats : F → MiningStats F
  new_stats z = record {
    total_hashes = pos 0;
    session_hits = 0;
    active_lanes = pos 0;
    hps_ema = z;
    found = zero_counts;
    enqueued = zero_counts;
    accepted_live = zero_counts;
    accepted_flush = zero_counts;
    failed_live = zero_counts;
    rejected_flush = zero_counts;
    rejected_live = zero_counts;
    resubmission = zero_counts;
    dropped_flush = 0;
    queued = pos 0;
  }

  pub found_total : MiningStats F → ℕ
  unfolding sum_counts
  found_total s = sum_counts s.found

  pub accepted_live_total : MiningStats F → ℕ
  unfolding sum_counts
  accepted_live_total s = sum_counts s.accepted_live

  pub accepted_flush_total : MiningStats F → ℕ
  unfolding sum_counts
  accepted_flush_total s = sum_counts s.accepted_flush

  pub accepted_total : MiningStats F → ℕ
  unfolding accepted_live_total accepted_flush_total
  accepted_total s = accepted_live_total s + accepted_flush_total s

  pub accepted_xnm_total : MiningStats F → ℕ
  accepted_xnm_total s = s.accepted_live.xnm + s.accepted_flush.xnm

  pub rejected_live_total : MiningStats F → ℕ
  unfolding sum_counts
  rejected_live_total s = sum_counts s.rejected_live

  pub rejected_flush_total : MiningStats F → ℕ
  unfolding sum_counts
  rejected_flush_total s = sum_counts s.rejected_flush

  pub rejected_total : MiningStats F → ℕ
  unfolding rejected_live_total rejected_flush_total
  rejected_total s = rejected_live_total s + rejected_flush_total s

  pub resubmission_total : MiningStats F → ℕ
  unfolding sum_counts
  resubmission_total s = sum_counts s.resubmission

  pub enqueued_total : MiningStats F → ℕ
  unfolding sum_counts
  enqueued_total s = sum_counts s.enqueued

-- The names that `stat_field_for_kind` takes; any other name falls through to `found_xnm`.
pub data Bucket : Type 0 where
  found enqueued accepted_live accepted_flush rejected_live rejected_flush resubmission : Bucket
  other : Bucket

-- `xuni ? … : (xblk ? … : …)` with `++` on the field that it picks.
pub bump_counts : Text → Counts → Counts
bump_counts kind c =
    if text_eq kind (codes "XUNI")
    then record c { xuni = c.xuni + 1 }
    else if text_eq kind (codes "XBLK")
    then record c { xblk = c.xblk + 1 }
    else record c { xnm = c.xnm + 1 }

module _ {F : Type 0} where
  -- `stat_field_for_kind(s, kind, bucket)++`
  pub bump_stat : MiningStats F → Text → Bucket → MiningStats F
  unfolding bump_counts
  bump_stat s kind Bucket.found = record s { found = bump_counts kind s.found }
  bump_stat s kind Bucket.enqueued = record s { enqueued = bump_counts kind s.enqueued }
  bump_stat s kind Bucket.accepted_live = record s {
    accepted_live = bump_counts kind s.accepted_live;
  }
  bump_stat s kind Bucket.accepted_flush = record s {
    accepted_flush = bump_counts kind s.accepted_flush;
  }
  bump_stat s kind Bucket.rejected_live = record s {
    rejected_live = bump_counts kind s.rejected_live;
  }
  bump_stat s kind Bucket.rejected_flush = record s {
    rejected_flush = bump_counts kind s.rejected_flush;
  }
  bump_stat s kind Bucket.resubmission = record s { resubmission = bump_counts kind s.resubmission }
  bump_stat s kind Bucket.other = record s {
    found = record { xuni = s.found.xuni; xnm = s.found.xnm + 1; xblk = s.found.xblk };
  }

  pub record_found : MiningStats F → Text → MiningStats F
  unfolding bump_stat
  record_found s kind =
      let t = bump_stat s kind Bucket.found in record t { session_hits = t.session_hits + 1 }

  pub record_enqueued : MiningStats F → Text → MiningStats F
  unfolding bump_stat
  record_enqueued s kind = bump_stat s kind Bucket.enqueued

  pub record_accepted_live : MiningStats F → Text → MiningStats F
  unfolding bump_stat
  record_accepted_live s kind = bump_stat s kind Bucket.accepted_live

  pub record_accepted_flush : MiningStats F → Text → MiningStats F
  unfolding bump_stat
  record_accepted_flush s kind = bump_stat s kind Bucket.accepted_flush

  pub record_rejected_live : MiningStats F → Text → MiningStats F
  unfolding bump_stat
  record_rejected_live s kind = bump_stat s kind Bucket.rejected_live

  pub record_rejected_flush : MiningStats F → Text → MiningStats F
  unfolding bump_stat
  record_rejected_flush s kind = bump_stat s kind Bucket.rejected_flush

  pub record_resubmission : MiningStats F → Text → MiningStats F
  unfolding bump_stat
  record_resubmission s kind = bump_stat s kind Bucket.resubmission

  pub sync_pending : MiningStats F → ℤ → MiningStats F
  sync_pending s pending = record s { queued = pending }

  pub set_active_lanes : MiningStats F → ℤ → MiningStats F
  set_active_lanes s lanes = record s { active_lanes = lanes }

module _ (D : Double) where
  open D use {F, lit, add, mul, lt}

  pub record_hashes : MiningStats F → ℤ → F → MiningStats F
  record_hashes s n hps_sample =
      let t : MiningStats F = record s { total_hashes = s.total_hashes +ℤ n } in
      if lt (lit 0 0) hps_sample
      then record t {
        hps_ema =
            if lt (lit 0 0) t.hps_ema
            then add (mul t.hps_ema (lit 7 1)) (mul hps_sample (lit 3 1))
            else hps_sample;
      }
      else t
