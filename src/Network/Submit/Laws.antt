-- ===== src/Network/Submit/Laws.antt =====
-- The classes of answers of src/network/submitter.cpp, and the difficulty of
-- src/network/difficulty.cpp.
use x1miner.Base.{ℕ, ◌≡◌, ◌⊎◌, refl, ap, arith, true, false, not, ◌&&◌, ◌||◌, [], ◌∷◌}
use x1miner.Base.Int.{ℤ, pos, ◌≤ℤ◌, ◌==ℤ◌}
use x1miner.Base.Text.{Text, lower, upper, to_lower, to_upper}
use x1miner.Network.Submit.{
  says, is_http_ok, submit_accepted, is_difficulty_mismatch, is_xuni_window_reject,
  is_transient_submit_failure, is_pool_hold, counts_as_reject, accept_network_difficulty,
}

to_lower-to_upper : (c : ℕ) → to_lower (to_upper c) ≡ to_lower c
unfolding to_lower to_upper
to_lower-to_upper c = ground arith

lower-upper : (t : Text) → lower (upper t) ≡ lower t
unfolding lower upper
lower-upper [] = refl
lower-upper (c ∷ t) = rw (to_lower-to_upper c) (ap (◌∷◌ (to_lower c)) (lower-upper t))

says-upper : (t w : Text) → says (upper t) w ≡ says t w
unfolding says
says-upper t w = rw (lower-upper t) refl

classes-upper :
    (status : ℤ) (t : Text)
    → (submit_accepted status (upper t) ≡ submit_accepted status t)
      × (is_difficulty_mismatch status (upper t) ≡ is_difficulty_mismatch status t)
      × (is_xuni_window_reject status (upper t) ≡ is_xuni_window_reject status t)
      × (is_transient_submit_failure status (upper t) ≡ is_transient_submit_failure status t)
      × (is_pool_hold status (upper t) ≡ is_pool_hold status t)
unfolding submit_accepted is_difficulty_mismatch is_xuni_window_reject is_transient_submit_failure
    is_pool_hold
classes-upper status t = (
  simp says-upper refl,
  simp says-upper refl,
  simp says-upper refl,
  simp says-upper refl,
  simp says-upper refl,
)

-- A status that stands for one of the other classes.
definite_status :
    (status : ℤ) (body : Text)
    → ((submit_accepted status body
          || is_transient_submit_failure status body
          || is_pool_hold status body)
        ≡ true)
      ⊎ (((status ==ℤ pos 0)
            || (status ==ℤ pos 401)
            || (status ==ℤ pos 403)
            || (status ==ℤ pos 429)
            || (status ==ℤ pos 200))
          ≡ false)
unfolding submit_accepted is_transient_submit_failure is_pool_hold is_http_ok
definite_status status body = ground arith

-- An answer is counted as a reject when it is none of the others: not accepted, not a mismatch of
-- the difficulty, not a closed window, not transient, not held. Its status is then none of 0, 401,
-- 403, 429 and 200, and the class does not depend on the case of the letters.
pub counts_as_reject_definite :
    (status : ℤ) (body : Text)
    → (counts_as_reject status body
        ≡ not (
            submit_accepted status body
            || is_difficulty_mismatch status body
            || is_xuni_window_reject status body
            || is_transient_submit_failure status body
            || is_pool_hold status body))
      × ((counts_as_reject status body
            && ((status ==ℤ pos 0)
                || (status ==ℤ pos 401)
                || (status ==ℤ pos 403)
                || (status ==ℤ pos 429)
                || (status ==ℤ pos 200)))
          ≡ false)
      × (counts_as_reject status (upper body) ≡ counts_as_reject status body)
unfolding counts_as_reject
counts_as_reject_definite status body =
    let (a, d, x, t, h) = classes-upper status body in
    (ground arith, ground (arith, definite_status status body), rw (a, d, x, t, h) refl)

-- The accepted difficulty is positive, and at most ten million or the fallback.
pub accept_network_difficulty_bounds :
    (raw fallback : ℤ)
    → let m = accept_network_difficulty raw fallback in
      (pos 1 ≤ℤ m) × ((m ≤ℤ pos 10000000) ⊎ (m ≡ fallback))
unfolding accept_network_difficulty
accept_network_difficulty_bounds raw fallback = ground arith
