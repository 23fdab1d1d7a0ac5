-- ===== src/HashApi/Matching.antt =====
-- vendor/hashapi/HashApiMatching.cpp. A pointer with a length is the list of its characters, which
-- is never null here.
pub mod Laws
use x1miner.Base.{
  ℕ, Bool, true, false, not, ◌&&◌, ◌||◌, List, [], ◌∷◌, ◌++◌, ltb, leb, ◌==◌, if◌then◌else◌, length,
  tally, all,
}
use x1miner.Base.Text.{
  Text, codes, is_empty, is_upper, is_digit, is_xdigit, starts_with, contains, text_eq,
}
use x1miner.HashApi.Types.{HashApiRequest, HashApiMatch}

unfoldable pub is_superblock_hash : Text → Bool
is_superblock_hash hash = if is_empty hash then false else leb 50 (tally is_upper hash)

-- The loop over the positions that four more characters follow.
unfoldable pub xuni_from : Text → Bool
xuni_from (a ∷ b ∷ c ∷ d ∷ e ∷ rest) =
    (a == b'X') && (b == b'U') && (c == b'N') && (d == b'I') && is_digit e
    || xuni_from (b ∷ c ∷ d ∷ e ∷ rest)
xuni_from _ = false

unfoldable pub has_xuni_match : Text → Bool
unfolding xuni_from
has_xuni_match hash = if ltb (length hash) 5 then false else xuni_from hash

unfoldable pub xen11_from : Text → Bool
xen11_from (a ∷ b ∷ c ∷ d ∷ e ∷ rest) =
    (a == b'X') && (b == b'E') && (c == b'N') && (d == b'1') && (e == b'1')
    || xen11_from (b ∷ c ∷ d ∷ e ∷ rest)
xen11_from _ = false

unfoldable pub contains_xen11 : Text → Bool
unfolding xen11_from
contains_xen11 hash = if ltb (length hash) 5 then false else xen11_from hash

-- `std::search` is `contains`.
unfoldable pub contains_pattern_raw : Text → Text → Bool
unfolding contains_xen11
contains_pattern_raw hash pattern =
    if text_eq pattern (codes "XEN11")
    then contains_xen11 hash
    else if is_empty pattern || ltb (length hash) (length pattern)
    then false
    else contains pattern hash

unfoldable pub is_hex64_key_raw : Text → Bool
is_hex64_key_raw key = if not (length key == 64) then false else all is_xdigit key

-- `if (found) result.matches.push_back(x);`
unfoldable pub push_if : Bool → HashApiMatch → List HashApiMatch → List HashApiMatch
push_if found x matches = if found then matches ++ x ∷ [] else matches

-- The matches of the result, with those of one attempt added.
unfoldable pub append_matches :
    HashApiRequest → List HashApiMatch → Text → Text → ℕ → List HashApiMatch
append_matches request matches key hash attempt_index =
    let xen = contains_pattern_raw hash request.target_pattern in
    let xuni = request.allow_xuni && has_xuni_match hash in
    let xen_match : HashApiMatch = record {
      key = key;
      hash = hash;
      matched_pattern = request.target_pattern;
      attempt_index = attempt_index;
      is_superblock = is_superblock_hash hash;
    } in
    let xuni_match : HashApiMatch = record {
      key = key;
      hash = hash;
      matched_pattern = codes "XUNI";
      attempt_index = attempt_index;
      is_superblock = false;
    } in
    if not (is_hex64_key_raw key)
    then matches
    else if not xen && not xuni
    then matches
    else push_if xuni xuni_match (push_if xen xen_match matches)
