-- ===== src/Tests/Network.antt =====
-- The classes of the pool's answers.
use x1miner.Base.{◌≡◌, false, not, ◌&&◌, ◌||◌}
use x1miner.Base.Int.{pos, ◌==ℤ◌}
use x1miner.Base.Text.{Text, codes, upper}
use x1miner.Network.Submit.{
  submit_accepted, is_difficulty_mismatch, is_xuni_window_reject, is_transient_submit_failure,
  is_pool_hold, counts_as_reject,
}
use x1miner.Network.Submit.Laws.{counts_as_reject_definite}

abbrev bad_key : Text
bad_key = codes "Invalid key"

counts_as_reject_definite_example :
    (counts_as_reject (pos 400) bad_key
      ≡ not (
          submit_accepted (pos 400) bad_key
          || is_difficulty_mismatch (pos 400) bad_key
          || is_xuni_window_reject (pos 400) bad_key
          || is_transient_submit_failure (pos 400) bad_key
          || is_pool_hold (pos 400) bad_key))
    × ((counts_as_reject (pos 400) bad_key
          && ((pos 400 ==ℤ pos 0)
              || (pos 400 ==ℤ pos 401)
              || (pos 400 ==ℤ pos 403)
              || (pos 400 ==ℤ pos 429)
              || (pos 400 ==ℤ pos 200)))
        ≡ false)
    × (counts_as_reject (pos 400) (upper bad_key) ≡ counts_as_reject (pos 400) bad_key)
counts_as_reject_definite_example = counts_as_reject_definite (pos 400) bad_key
