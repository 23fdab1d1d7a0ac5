-- ===== src/Tests/Common.antt =====
-- The statistics tracker on a short session.
use x1miner.Base.{ℕ, ◌≡◌, List, [], ◌∷◌}
use x1miner.Base.Text.{codes}
use x1miner.Common.Stats.{new_stats, found_total, accepted_total, rejected_total}
use x1miner.Common.Stats.Laws.{StatEvent, apply_events, totals-apply_events}

abbrev session : List StatEvent
session =
    StatEvent.was_found (codes "XUNI")
    ∷ StatEvent.was_found (codes "XNM")
    ∷ StatEvent.was_accepted_live (codes "XNM")
    ∷ StatEvent.was_rejected_flush (codes "OTHER")
    ∷ []

totals-apply_events_example :
    let s = apply_events {F = ℕ} (new_stats 0) session in
    (found_total s ≡ 2)
    × (s.session_hits ≡ found_total s)
    × (accepted_total s ≡ 1)
    × (rejected_total s ≡ 1)
totals-apply_events_example = totals-apply_events {F = ℕ} 0 session
