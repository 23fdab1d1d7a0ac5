-- ===== src/Mining/BlockTypes.antt =====
-- src/mining/block_types.cpp.
pub mod Laws
use x1miner.Base.{
  ℕ, Bool, true, false, not, ◌&&◌, ◌||◌, List, [], ◌∷◌, leb, ◌==◌, if◌then◌else◌, tally, keep,
}
use x1miner.Base.Text.{
  Text, codes, text_eq, is_empty, contains, upper, is_upper, is_digit, is_space, trim_by,
}

-- `s.substr(s.rfind(c) + 1)` where `c` occurs, otherwise `s`.
unfoldable pub after_last : ℕ → Text → Text
after_last c [] = []
after_last c (a ∷ s) =
    let rest = after_last c s in
    if not (tally (λ x. x == c) s == 0) then rest else if a == c then s else a ∷ s

unfoldable pub head_is : ℕ → Text → Bool
head_is c [] = false
head_is c (a ∷ s) = a == c

unfoldable pub hash_digest_for_superblock : Text → Text
unfolding after_last head_is
hash_digest_for_superblock hash_str =
    if is_empty hash_str
    then []
    else if head_is b'$' hash_str || leb 4 (tally (λ c. c == b'$') hash_str)
    then after_last b'$' hash_str
    else hash_str

unfoldable pub uppercase_count : Text → ℕ
uppercase_count text = tally is_upper text

unfoldable pub is_superblock : Text → ℕ → Bool
unfolding uppercase_count hash_digest_for_superblock
is_superblock hash_str min_upper =
    leb min_upper (uppercase_count (hash_digest_for_superblock hash_str))

-- A match at the start.
unfoldable pub head_xuni : Text → Bool
head_xuni (a ∷ b ∷ c ∷ d ∷ e ∷ rest) =
    (a == b'X') && (b == b'U') && (c == b'N') && (d == b'I') && is_digit e
head_xuni _ = false

-- `std::regex_search` for XUNI[0-9].
unfoldable pub xuni_re : Text → Bool
unfolding head_xuni
xuni_re [] = false
xuni_re (a ∷ s) = head_xuni (a ∷ s) || xuni_re s

-- `bt`: upper case, without zeros, trimmed.
unfoldable pub tidy_kind : Text → Text
tidy_kind block_type = trim_by is_space (keep (λ c. not (c == 0)) (upper block_type))

unfoldable pub classify_block : Text → Text → Text
unfolding tidy_kind is_superblock xuni_re
classify_block hash_str block_type =
    let bt = tidy_kind block_type in
    if text_eq bt (codes "XUNI") || xuni_re hash_str
    then codes "XUNI"
    else if text_eq bt (codes "XBLK")
        || contains (codes "XEN11") hash_str && is_superblock hash_str 50
    then codes "XBLK"
    else if contains (codes "XEN11") hash_str
        || text_eq bt (codes "XEN11")
        || text_eq bt (codes "NORMAL")
        || text_eq bt (codes "XNM")
    then codes "XNM"
    else codes "OTHER"
