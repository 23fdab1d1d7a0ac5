-- ===== src/Mining/Encode/Laws.antt =====
-- `encode_argon2id_phc` of src/mining/argon2_encode.cpp and the functions that read its text.
use x1miner.Base.{ℕ, ◌^◌, ◌<◌, ◌≡◌, refl, ap, true, false, some, ◌∷◌, ◌++◌, lt→ltb}
use mathlib.Core.List.{append_assoc}
use x1miner.Base.Int.{pos}
use x1miner.Base.Text.{Text, codes, starts_with, is_empty, is_digit}
use x1miner.Mining.BlockTypes.{hash_digest_for_superblock, head_is}
use x1miner.Mining.BlockTypes.Laws.{after_last-append, dollars}
use x1miner.Mining.Encode.{
  to_string, encode_argon2id_phc, is_argon2_encoded, memory_cost_from_hash, search_memory, first_of,
  memory_at, stoi_digits, hex_to_bytes,
}
use x1miner.Mining.Encode.Digits.{
  to_string_value, to_string-AllDigits, to_string-nonempty, span_digits-append,
}
use x1miner.HashApi.Encoding.{base64_encode}

comma_no_digit : is_digit b',' ≡ false
unfolding is_digit
comma_no_digit = refl

memory_at-head :
    (m : ℕ) (rest : Text)
    → memory_at (codes "$m=" ++ (to_string m ++ b',' ∷ rest)) ≡ some (to_string m)
unfolding memory_at starts_with
memory_at-head m rest =
    rw
      (
        span_digits-append (to_string m) b',' rest (to_string-AllDigits m) comma_no_digit,
        to_string-nonempty m,
      )
      refl

search_memory-hit :
    (c : ℕ) (s ds : Text) → memory_at (c ∷ s) ≡ some ds → search_memory (c ∷ s) ≡ some ds
unfolding search_memory
search_memory-hit c s ds h = ap (λ o. first_of o (search_memory s)) h

search_memory-head :
    (m : ℕ) (rest : Text)
    → search_memory (codes "$m=" ++ (to_string m ++ b',' ∷ rest)) ≡ some (to_string m)
search_memory-head m rest =
    search_memory-hit b'$' (codes "m=" ++ (to_string m ++ b',' ∷ rest)) (to_string m)
      (memory_at-head m rest)

search_memory-skip :
    (x : Text) → search_memory (codes "$argon2id$v=19$m=" ++ x) ≡ search_memory (codes "$m=" ++ x)
unfolding search_memory memory_at
search_memory-skip x = refl

memory_cost_from_hash-head :
    (m : ℕ) (rest : Text)
    → m < 2 ^ 31
    → memory_cost_from_hash (codes "$argon2id$v=19$m=" ++ (to_string m ++ b',' ∷ rest))
      ≡ some (pos m)
unfolding memory_cost_from_hash is_argon2_encoded starts_with stoi_digits
memory_cost_from_hash-head m rest h =
    rw
      (
        search_memory-skip (to_string m ++ b',' ∷ rest),
        search_memory-head m rest,
        to_string_value m,
        lt→ltb m (2 ^ 31) h,
      )
      refl

digest_of_encoded :
    (s pure : Text)
    → dollars pure ≡ 0
    → hash_digest_for_superblock (b'$' ∷ (s ++ b'$' ∷ pure)) ≡ pure
unfolding hash_digest_for_superblock head_is is_empty
digest_of_encoded s pure e = after_last-append (b'$' ∷ s) pure e

-- What follows the first comma.
abbrev after_comma : Text → ℕ → ℕ → Text → Text
after_comma salt t p pure =
    codes "t="
    ++ (to_string t
        ++ (codes ",p="
            ++ (to_string p ++ (b'$' ∷ (base64_encode (hex_to_bytes salt) ++ b'$' ∷ pure)))))

-- The text up to the last dollar sign, without the first one.
abbrev pub before_digest : Text → ℕ → ℕ → ℕ → Text
before_digest salt m t p =
    codes "argon2id$v=19$m="
    ++ to_string m
    ++ codes ",t="
    ++ to_string t
    ++ codes ",p="
    ++ to_string p
    ++ codes "$"
    ++ base64_encode (hex_to_bytes salt)

encode_argon2id_phc-costs :
    (salt : Text) (m t p : ℕ) (pure : Text)
    → encode_argon2id_phc salt m t p pure
      ≡ codes "$argon2id$v=19$m=" ++ (to_string m ++ b',' ∷ after_comma salt t p pure)
unfolding encode_argon2id_phc
encode_argon2id_phc-costs salt m t p pure = simp append_assoc refl

pub encode_argon2id_phc-digest :
    (salt : Text) (m t p : ℕ) (pure : Text)
    → encode_argon2id_phc salt m t p pure ≡ b'$' ∷ (before_digest salt m t p ++ b'$' ∷ pure)
unfolding encode_argon2id_phc
encode_argon2id_phc-digest salt m t p pure = simp append_assoc refl

pub is_argon2_encoded-phc :
    (salt : Text) (m t p : ℕ) (pure : Text)
    → is_argon2_encoded (encode_argon2id_phc salt m t p pure) ≡ true
unfolding is_argon2_encoded starts_with
is_argon2_encoded-phc salt m t p pure = rw (encode_argon2id_phc-digest salt m t p pure) refl

pub memory_cost_from_hash-phc :
    (salt : Text) (m t p : ℕ) (pure : Text)
    → m < 2 ^ 31
    → memory_cost_from_hash (encode_argon2id_phc salt m t p pure) ≡ some (pos m)
memory_cost_from_hash-phc salt m t p pure h =
    rw (encode_argon2id_phc-costs salt m t p pure)
      (memory_cost_from_hash-head m (after_comma salt t p pure) h)

-- The hash that is assembled for a salt and costs is an encoded one, states the memory cost that
-- went in when it is an `int`, and its digest is the pure hash when that has no dollar sign.
pub encode_argon2id_phc_reads :
    (salt : Text) (m t p : ℕ) (pure : Text)
    → m < 2 ^ 31
    → dollars pure ≡ 0
    → let encoded = encode_argon2id_phc salt m t p pure in
      (is_argon2_encoded encoded ≡ true)
      × (memory_cost_from_hash encoded ≡ some (pos m))
      × (hash_digest_for_superblock encoded ≡ pure)
encode_argon2id_phc_reads salt m t p pure h e = (
  is_argon2_encoded-phc salt m t p pure,
  memory_cost_from_hash-phc salt m t p pure h,
  rw (encode_argon2id_phc-digest salt m t p pure)
      (digest_of_encoded (before_digest salt m t p) pure e),
)
