-- ===== src/Mining/Encode.antt =====
-- src/mining/argon2_encode.cpp.
pub mod Digits
pub mod Laws
pub mod Prepare
use x1miner.Base.{
  ℕ, zero, suc, ◌+◌, ◌-◌, ◌*◌, ◌/◌, ◌%◌, ◌^◌, Bool, true, false, not, ◌&&◌, ◌||◌, Option, none,
  some, List, [], ◌∷◌, ◌++◌, ltb, leb, ◌==◌, if◌then◌else◌, length, all,
}
use x1miner.Base.Int.{ℤ, pos, pos_part, neg_part, ◌==ℤ◌, to_uint32}
use x1miner.Base.Text.{Text, codes, is_empty, is_digit, is_xdigit, in_range, starts_with, contains}
use x1miner.Common.{BlockHit}
use x1miner.HashApi.Encoding.{base64_encode}
use x1miner.Mining.BlockTypes.{classify_block}

unfoldable pub nibble : ℕ → Option ℕ
nibble c =
    if in_range b'0' b'9' c
    then some (c - b'0')
    else if in_range b'a' b'f' c
    then some (c - b'a' + 10)
    else if in_range b'A' b'F' c
    then some (c - b'A' + 10)
    else none

unfoldable pub hex_to_bytes : Text → List ℕ
unfolding nibble
hex_to_bytes (a ∷ b ∷ hex) =
    let rest = hex_to_bytes hex in
    elim (nibble a) [
      | none ↦ []
      | some hi ↦ elim (nibble b) [ none ↦ [] | some lo ↦ (hi * 16 + lo) ∷ rest ]
    ]
hex_to_bytes _ = []

unfoldable pub is_hex64_key : Text → Bool
is_hex64_key key = if not (length key == 64) then false else all is_xdigit key

unfoldable pub is_argon2_encoded : Text → Bool
is_argon2_encoded hash_str = starts_with (codes "$argon2") hash_str

-- The leading digits, and what follows them.
unfoldable pub span_digits : Text → Text × Text
span_digits [] = ([], [])
span_digits (c ∷ s) =
    let (ds, rest) = span_digits s in if is_digit c then (c ∷ ds, rest) else ([], c ∷ s)

-- The group of `\$m=(\d+),` where it matches at the start.
unfoldable pub memory_at : Text → Option Text
unfolding span_digits
memory_at (a ∷ b ∷ c ∷ s) =
    let (ds, rest) = span_digits s in
    if (a == b'$')
      && (b == b'm')
      && (c == b'=')
      && not (is_empty ds)
      && starts_with (codes ",") rest
    then some ds
    else none
memory_at _ = none

-- The first of two results.
abbrev pub first_of : Option Text → Option Text → Option Text
first_of none r = r
first_of (some ds) r = some ds

unfoldable pub search_memory : Text → Option Text
search_memory [] = none
search_memory (c ∷ s) = first_of (memory_at (c ∷ s)) (search_memory s)

unfoldable pub digits_value : ℕ → Text → ℕ
digits_value acc [] = acc
digits_value acc (d ∷ ds) = digits_value (acc * 10 + (d - b'0')) ds

-- `std::stoi` of digits, which throws when the value is no `int`.
unfoldable pub stoi_digits : Text → Option ℤ
unfolding digits_value
stoi_digits ds = let n = digits_value 0 ds in if ltb n (2 ^ 31) then some (pos n) else none

unfoldable pub memory_cost_from_hash : Text → Option ℤ
memory_cost_from_hash hash_str =
    if not (is_argon2_encoded hash_str)
    then none
    else elim (search_memory hash_str) [ none ↦ none | some ds ↦ stoi_digits ds ]

-- `std::to_string`. The fuel is the number itself, more than it has digits.
unfoldable pub digits_from : ℕ → ℕ → Text → Text
digits_from zero n acc = acc
digits_from (suc fuel) n acc =
    let here = (b'0' + n % 10) ∷ acc in
    let rest = digits_from fuel (n / 10) here in if ltb n 10 then here else rest

unfoldable pub to_string : ℕ → Text
unfolding digits_from
to_string n = digits_from (suc n) n []

unfoldable pub encode_argon2id_phc : Text → ℕ → ℕ → ℕ → Text → Text
encode_argon2id_phc salt_hex memory_cost time_cost parallelism pure_b64_hash =
    codes "$argon2id$v=19$m="
    ++ to_string memory_cost
    ++ codes ",t="
    ++ to_string time_cost
    ++ codes ",p="
    ++ to_string parallelism
    ++ codes "$"
    ++ base64_encode (hex_to_bytes salt_hex)
    ++ codes "$"
    ++ pure_b64_hash

module _ {F : Type 0} where
  unfoldable pub prepare_hit_for_submit : BlockHit F → Text → ℤ → ℤ → ℤ → Option (BlockHit F)
  prepare_hit_for_submit hit salt_hex memory_cost time_cost parallelism =
      let as_is = record hit { block_type = classify_block hit.hash_str hit.block_type } in
      let encoded =
        encode_argon2id_phc salt_hex (to_uint32 memory_cost) (to_uint32 time_cost)
          (to_uint32 parallelism) hit.hash_str in
      if is_argon2_encoded hit.hash_str
      then elim (memory_cost_from_hash hit.hash_str) [
        | none ↦ some as_is
        | some block_m ↦ if block_m ==ℤ memory_cost then some as_is else none
      ]
      else if contains hit.hash_str encoded
      then some (record hit {
        hash_str = encoded;
        block_type = classify_block encoded hit.block_type;
        memory_cost = some memory_cost;
      })
      else none
