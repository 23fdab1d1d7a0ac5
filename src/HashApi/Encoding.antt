-- ===== src/HashApi/Encoding.antt =====
-- vendor/hashapi/HashApiEncoding.cpp: base64 without padding. The buffer and its write position are
-- the list of characters written; a byte is a number below 256.
pub mod Laws
use x1miner.Base.{
  ℕ, zero, suc, ◌+◌, ◌*◌, ◌/◌, ◌%◌, ◌^◌, Bool, true, false, List, [], ◌∷◌, ltb, ◌==◌, if◌then◌else◌,
  length, replicate,
}
use x1miner.Base.Text.{Text, codes}

abbrev pub base64_chars : Text
base64_chars = codes "ABCDEFGHIJKLMNOPQRSTUVWXYZabcdefghijklmnopqrstuvwxyz0123456789+/"

unfoldable pub char_at : ℕ → Text → ℕ
char_at n [] = 0
char_at zero (c ∷ s) = c
char_at (suc n) (c ∷ s) = char_at n s

unfoldable pub base64_encoded_length : ℕ → ℕ
base64_encoded_length in_len =
    let remaining = in_len % 3 in in_len / 3 * 4 + (if remaining == 0 then 0 else remaining + 1)

-- `kBase64Chars[(value >> shift) & 0x3f]`
unfoldable pub sextet : ℕ → ℕ → ℕ
unfolding char_at
sextet value shift = char_at (value / 2 ^ shift % 64) base64_chars

-- The loop over whole groups, and the one or two bytes that remain.
unfoldable pub encode_groups : List ℕ → Text
unfolding sextet
encode_groups [] = []
encode_groups (a ∷ []) = let value = a * 2 ^ 16 in sextet value 18 ∷ sextet value 12 ∷ []
encode_groups (a ∷ b ∷ []) =
    let value = a * 2 ^ 16 + b * 2 ^ 8 in sextet value 18 ∷ sextet value 12 ∷ sextet value 6 ∷ []
encode_groups (a ∷ b ∷ c ∷ rest) =
    let value = a * 2 ^ 16 + b * 2 ^ 8 + c in
    sextet value 18 ∷ sextet value 12 ∷ sextet value 6 ∷ sextet value 0 ∷ encode_groups rest

-- What is written to a buffer of `out_cap` characters: nothing to one that is too small.
unfoldable pub base64_encode_to : ℕ → List ℕ → Text
unfolding base64_encoded_length encode_groups
base64_encode_to out_cap bytes =
    if ltb out_cap (base64_encoded_length (length bytes)) then [] else encode_groups bytes

-- The string is first filled with zeros and then written over from its start.
unfoldable pub overwrite : Text → Text → Text
overwrite [] s = s
overwrite (c ∷ w) [] = []
overwrite (c ∷ w) (_ ∷ s) = c ∷ overwrite w s

unfoldable pub base64_encode : List ℕ → Text
unfolding base64_encode_to base64_encoded_length overwrite
base64_encode bytes =
    let out_len = base64_encoded_length (length bytes) in
    overwrite (base64_encode_to out_len bytes) (replicate out_len 0)
