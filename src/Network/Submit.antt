-- ===== src/Network/Submit.antt =====
-- src/network/submitter.cpp: what an answer of the pool means, and `submit`, for the answer that the
-- request got. src/network/difficulty.cpp: the difficulty that is accepted.
pub mod Laws
use x1miner.Base.{
  suc, [], ◌∷◌, Bool, true, false, not, ◌&&◌, ◌||◌, ◌++◌, if◌then◌else◌, length, take, ltb,
}
use x1miner.Base.Int.{ℤ, pos, pos_part, ◌≤ℤ?◌, ◌<ℤ?◌, ◌==ℤ◌}
use x1miner.Base.Text.{Text, codes, contains, is_empty, lower}
use x1miner.Common.{HttpResponse, SubmitResult}
use x1miner.Mining.Encode.{to_string}

-- `l.find(…) != npos` on the body in lower case.
unfoldable pub says : Text → Text → Bool
says body words = contains words (lower body)

unfoldable pub is_http_ok : ℤ → Bool
is_http_ok status = (pos 200 ≤ℤ? status) && (status <ℤ? pos 300)

unfoldable pub submit_accepted : ℤ → Text → Bool
submit_accepted status body = is_http_ok status || says body (codes "already exists")

unfoldable pub is_difficulty_mismatch : ℤ → Text → Bool
is_difficulty_mismatch status body =
    not (status ==ℤ pos 0)
    && (says body (codes "hash does not contain 'm=")
        || says body (codes "does not contain") && says body (codes "m=")
        || says body (codes "memory_cost") && says body (codes "does not contain")
        || says body (codes "hash verification failed"))

unfoldable pub is_xuni_window_reject : ℤ → Text → Bool
is_xuni_window_reject status body =
    not (status ==ℤ pos 0)
    && (says body (codes "outside of time window")
        || says body (codes "outside of proper time frame")
        || says body (codes "time frame")
        || says body (codes "time window"))

unfoldable pub is_transient_submit_failure : ℤ → Text → Bool
is_transient_submit_failure status body =
    (status ==ℤ pos 0)
    || says body (codes "timed out")
    || says body (codes "timeout")
    || says body (codes "connection")

unfoldable pub is_pool_hold : ℤ → Text → Bool
is_pool_hold status body =
    (status ==ℤ pos 401)
    || (status ==ℤ pos 403)
    || (status ==ℤ pos 429)
    || says body (codes "hash verification failed")

unfoldable pub counts_as_reject : ℤ → Text → Bool
counts_as_reject status body =
    if submit_accepted status body
    then false
    else if is_difficulty_mismatch status body
    then false
    else if is_xuni_window_reject status body
    then false
    else if is_transient_submit_failure status body
    then false
    else not (is_pool_hold status body)

-- `std::to_string` of a status.
unfoldable pub status_text : ℤ → Text
status_text (pos n) = to_string n
status_text (ℤ.negsuc n) = b'-' ∷ to_string (suc n)

-- Its dashes are one character each here, three bytes in the source.
unfoldable pub submit_response_hint : ℤ → Text → Text
submit_response_hint status body =
    let snippet = take 80 body in
    if is_http_ok status
    then codes "HTTP " ++ status_text status
    else if says body (codes "already exists")
    then codes "already on server (duplicate)"
    else if (status ==ℤ pos 401) && is_empty body
    then codes "HTTP 401 empty body"
    else if is_pool_hold status body
    then codes "pool hold — retry (hash kept)"
    else if is_difficulty_mismatch status body
    then codes "difficulty mismatch — hold for matching m="
    else if is_xuni_window_reject status body
    then codes "outside XUNI window"
    else if is_transient_submit_failure status body
    then codes "network error"
    else codes "HTTP "
      ++ status_text status
      ++ (if is_empty snippet then [] else codes " — " ++ snippet)

-- The result for the answer to the request; `now` is `now_iso_local()`.
unfoldable pub submit_result : Text → HttpResponse → SubmitResult
submit_result now resp =
    let body = if is_empty resp.body then resp.error else resp.body in
    record {
      ok = submit_accepted resp.status body;
      status = resp.status;
      body = body;
      submitted_at = now;
    }

unfoldable pub accept_network_difficulty : ℤ → ℤ → ℤ
accept_network_difficulty raw fallback =
    let otherwise = if pos 0 <ℤ? fallback then fallback else pos 1100 in
    if raw ≤ℤ? pos 0 then otherwise else if pos 10000000 <ℤ? raw then otherwise else raw
