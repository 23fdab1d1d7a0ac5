-- ===== src/Queue/Policy.antt =====
-- src/queue/policy.cpp. The minute of the local hour (`local_minute_of_hour`) is an argument.
use x1miner.Base.{
  ℕ, ◌+◌, ◌%◌, ◌<◌, ◌≡◌, ◌↔◌, Bool, true, false, not, ◌&&◌, ◌||◌, arith, ltb, leb, ◌==◌,
  if◌then◌else◌,
}
use x1miner.Base.Text.{Text, codes, text_eq, upper}

unfoldable pub in_xuni_window : ℕ → Bool
in_xuni_window m = leb 56 m || ltb m 5

unfoldable pub in_xuni_submit_window : ℕ → Bool
in_xuni_submit_window m = leb 55 m || ltb m 5

unfoldable pub in_xuni_taper_window : ℕ → Bool
in_xuni_taper_window m = m == 4

unfoldable pub ready_to_flush : ℕ → Text → Bool × Text
ready_to_flush m block_type =
    let kind = upper block_type in
    if text_eq kind (codes "XUNI") && not (in_xuni_submit_window m)
    then (false, codes "waiting_for_xuni_window")
    else if text_eq kind (codes "XNM")
        || text_eq kind (codes "XBLK")
        || text_eq kind (codes "XUNI")
        || text_eq kind (codes "XEN11")
        || text_eq kind (codes "NORMAL")
    then (true, codes "ready")
    else (true, codes "ready")

unfoldable pub flush_priority : Text → ℕ
flush_priority block_type =
    let kind = upper block_type in
    if text_eq kind (codes "XBLK")
    then 0
    else if text_eq kind (codes "XNM")
        || text_eq kind (codes "XEN11")
        || text_eq kind (codes "NORMAL")
    then 1
    else if text_eq kind (codes "XUNI")
    then 2
    else 3

-- In every minute of the hour: the mining window is the submit window without minute 55, the taper
-- minute is the last one of the mining window, and after it both windows are closed.
pub xuni_windows :
    (m : ℕ)
    → m < 60
    → (in_xuni_window m ≡ (in_xuni_submit_window m && not (m == 55)))
      × (in_xuni_taper_window m ≡ (in_xuni_window m && not (in_xuni_window ((m + 1) % 60))))
      × ((in_xuni_submit_window m && not (in_xuni_submit_window ((m + 1) % 60)))
          ≡ in_xuni_taper_window m)
unfolding in_xuni_window in_xuni_submit_window in_xuni_taper_window
xuni_windows m h = ground arith

-- A block is held back exactly when it is a XUNI, in any case of letters, outside the submit window.
pub ready_to_flush_iff :
    (m : ℕ) (t : Text)
    → ((ready_to_flush m t).0 ≡ false)
      ↔ ((text_eq (upper t) (codes "XUNI") ≡ true) × (in_xuni_submit_window m ≡ false))
unfolding ready_to_flush
ready_to_flush_iff m t = ground arith
