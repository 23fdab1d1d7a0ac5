-- ===== src/Common/Stats/Laws.antt =====
-- The tracker of src/monitoring/metrics.cpp over a sequence of events, against counts of those
-- events.
use x1miner.Base.{ℕ, ◌+◌, ◌≡◌, List, [], ◌∷◌, arith}
use x1miner.Base.Text.{Text}
use x1miner.Common.Stats.{
  MiningStats, Counts, new_stats, sum_counts, bump_counts, found_total, accepted_total,
  rejected_total, record_found, record_enqueued, record_accepted_live, record_accepted_flush,
  record_rejected_live, record_rejected_flush, record_resubmission,
}

sum_counts-bump : (kind : Text) (c : Counts) → sum_counts (bump_counts kind c) ≡ sum_counts c + 1
unfolding sum_counts bump_counts
sum_counts-bump kind c = ground arith

-- The events that the tracker counts.
pub data StatEvent : Type 0 where
  was_found was_enqueued was_accepted_live was_accepted_flush : Text → StatEvent
  was_rejected_live was_rejected_flush was_resubmitted : Text → StatEvent

module _ {F : Type 0} where
  pub apply_event : MiningStats F → StatEvent → MiningStats F
  apply_event s (StatEvent.was_found k) = record_found s k
  apply_event s (StatEvent.was_enqueued k) = record_enqueued s k
  apply_event s (StatEvent.was_accepted_live k) = record_accepted_live s k
  apply_event s (StatEvent.was_accepted_flush k) = record_accepted_flush s k
  apply_event s (StatEvent.was_rejected_live k) = record_rejected_live s k
  apply_event s (StatEvent.was_rejected_flush k) = record_rejected_flush s k
  apply_event s (StatEvent.was_resubmitted k) = record_resubmission s k

  pub apply_events : MiningStats F → List StatEvent → MiningStats F
  apply_events s [] = s
  apply_events s (e ∷ es) = apply_events (apply_event s e) es

-- 1 for an event that the total counts.
abbrev pub found_weight : StatEvent → ℕ
found_weight (StatEvent.was_found _) = 1
found_weight _ = 0

abbrev pub accepted_weight : StatEvent → ℕ
accepted_weight (StatEvent.was_accepted_live _) = 1
accepted_weight (StatEvent.was_accepted_flush _) = 1
accepted_weight _ = 0

abbrev pub rejected_weight : StatEvent → ℕ
rejected_weight (StatEvent.was_rejected_live _) = 1
rejected_weight (StatEvent.was_rejected_flush _) = 1
rejected_weight _ = 0

abbrev pub weigh : (StatEvent → ℕ) → List StatEvent → ℕ
weigh w [] = 0
weigh w (e ∷ es) = w e + weigh w es

module _ {F : Type 0} where
  found_step :
      (s : MiningStats F) (e : StatEvent)
      → found_total (apply_event s e) ≡ found_total s + found_weight e
  unfolding apply_event found_total record_found record_enqueued record_accepted_live
      record_accepted_flush record_rejected_live record_rejected_flush record_resubmission
      bump_counts
  found_step s (StatEvent.was_found k) = ground arith
  found_step s e = omega arith

  accepted_step :
      (s : MiningStats F) (e : StatEvent)
      → accepted_total (apply_event s e) ≡ accepted_total s + accepted_weight e
  unfolding apply_event accepted_total record_found record_enqueued record_accepted_live
      record_accepted_flush record_rejected_live record_rejected_flush record_resubmission
      bump_counts
  accepted_step s (StatEvent.was_accepted_live k) = ground arith
  accepted_step s (StatEvent.was_accepted_flush k) = ground arith
  accepted_step s e = omega arith

  rejected_step :
      (s : MiningStats F) (e : StatEvent)
      → rejected_total (apply_event s e) ≡ rejected_total s + rejected_weight e
  unfolding apply_event rejected_total record_found record_enqueued record_accepted_live
      record_accepted_flush record_rejected_live record_rejected_flush record_resubmission
      bump_counts
  rejected_step s (StatEvent.was_rejected_live k) = ground arith
  rejected_step s (StatEvent.was_rejected_flush k) = ground arith
  rejected_step s e = omega arith

  session_step :
      (s : MiningStats F) (e : StatEvent)
      → (apply_event s e).session_hits ≡ s.session_hits + found_weight e
  unfolding apply_event record_found record_enqueued record_accepted_live record_accepted_flush
      record_rejected_live record_rejected_flush record_resubmission
  session_step s (StatEvent.was_found k) = omega arith
  session_step s e = omega arith

  totals_from :
      (s : MiningStats F) (es : List StatEvent)
      → (found_total (apply_events s es) ≡ found_total s + weigh found_weight es)
        × ((apply_events s es).session_hits ≡ s.session_hits + weigh found_weight es)
        × (accepted_total (apply_events s es) ≡ accepted_total s + weigh accepted_weight es)
        × (rejected_total (apply_events s es) ≡ rejected_total s + weigh rejected_weight es)
  unfolding apply_events
  totals_from s [] = omega arith
  totals_from s (e ∷ es) = omega (
    arith,
    totals_from (apply_event s e) es,
    found_step s e,
    session_step s e,
    accepted_step s e,
    rejected_step s e,
  )

  -- After any sequence of events on a fresh tracker, whatever kinds they name, the found, accepted
  -- and rejected totals are the numbers of finds, of live and flush accepts and of live and flush
  -- rejects, and `session_hits` is the found total.
  pub totals-apply_events :
      (z : F) (es : List StatEvent)
      → let s = apply_events (new_stats z) es in
        (found_total s ≡ weigh found_weight es)
        × (s.session_hits ≡ found_total s)
        × (accepted_total s ≡ weigh accepted_weight es)
        × (rejected_total s ≡ weigh rejected_weight es)
  totals-apply_events z es =
      unfold new_stats found_total accepted_total rejected_total in
      omega (arith, totals_from (new_stats z) es)
