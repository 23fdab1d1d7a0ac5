-- ===== src/HashApi/Keygen/Keys.antt =====
-- `nextRandomKey` of vendor/RandomHexKeyGenerator.h.
use x1miner.Base.{
  ℕ, zero, suc, ◌+◌, ◌-◌, ◌/◌, ◌%◌, ◌≤◌, ◌<◌, ◌≡◌, refl, ap, ◌∙◌, arith, Bool, true, ◌&&◌, [], ◌∷◌,
  ◌++◌, ◌==◌, length, length-append, take, all, min, Bool-cases, inl, inr,
}
use x1miner.Base.Text.{Text, is_xdigit, starts_with, lower, to_lower}
use x1miner.HashApi.Keygen.{hex_char, draw_digits, fill_rest, fill_key, next_random_key}
use x1miner.HashApi.Matching.{is_hex64_key_raw}

length-draw_digits : (n room x : ℕ) → length (draw_digits n room x) ≡ min n room
unfolding draw_digits
length-draw_digits zero room x = omega arith
length-draw_digits (suc n) zero x = omega arith
length-draw_digits (suc n) (suc room) x = omega (arith, length-draw_digits n room (x / 16))

hex_char_is : (n : ℕ) → n < 16 → is_xdigit (hex_char n) ≡ true
unfolding is_xdigit hex_char
hex_char_is n h = ground arith

draw_digits_hex : (n room x : ℕ) → all is_xdigit (draw_digits n room x) ≡ true
unfolding draw_digits
draw_digits_hex zero room x = refl
draw_digits_hex (suc n) zero x = refl
draw_digits_hex (suc n) (suc room) x =
    rw (hex_char_is (x % 16) (omega arith), draw_digits_hex n room (x / 16)) refl

all-append :
    (s t : Text) → all is_xdigit s ≡ true → all is_xdigit t ≡ true → all is_xdigit (s ++ t) ≡ true
all-append [] t h i = i
all-append (c ∷ s) t h i = ground (arith, all-append s t)

length-fill_rest :
    (fuel room : ℕ) (draws : ℕ → ℕ) (i : ℕ)
    → room ≤ fuel
    → length (fill_rest fuel room draws i) ≡ room
unfolding fill_rest
length-fill_rest zero room draws i h = omega arith
length-fill_rest (suc fuel) room draws i h =
    let digits = draw_digits 16 room (draws i) in
    let size = length-draw_digits 16 room (draws i) in
    elim (Bool-cases (room == 0)) [
      | inl e ↦ rw e (ground arith)
      | inr e ↦ rw e (
          length-append digits _
          ∙ (let rest = length-fill_rest fuel (room - length digits) draws (i + 1) (ground arith) in
              ground arith))
    ]

fill_rest_hex :
    (fuel room : ℕ) (draws : ℕ → ℕ) (i : ℕ) → all is_xdigit (fill_rest fuel room draws i) ≡ true
unfolding fill_rest
fill_rest_hex zero room draws i = refl
fill_rest_hex (suc fuel) room draws i =
    let digits = draw_digits 16 room (draws i) in
    elim (Bool-cases (room == 0)) [
      | inl e ↦ rw e refl
      | inr e ↦ rw e (
          all-append digits _ (draw_digits_hex 16 room (draws i))
            (fill_rest_hex fuel (room - length digits) draws (i + 1)))
    ]

take_hex : (n : ℕ) (s : Text) → all is_xdigit s ≡ true → all is_xdigit (take n s) ≡ true
take_hex zero s h = refl
take_hex (suc n) [] h = refl
take_hex (suc n) (c ∷ s) h = ground (arith, take_hex n s)

both : (a b : Bool) → (a && b) ≡ true → (a ≡ true) × (b ≡ true)
both a b h = ground arith

to_lower_hex : (c : ℕ) → is_xdigit c ≡ true → is_xdigit (to_lower c) ≡ true
unfolding to_lower is_xdigit
to_lower_hex c h = ground arith

lower_hex : (s : Text) → all is_xdigit s ≡ true → all is_xdigit (lower s) ≡ true
unfolding lower
lower_hex [] h = refl
lower_hex (c ∷ s) h =
    let (here, there) = both (is_xdigit c) (all is_xdigit s) h in
    rw (to_lower_hex c here, lower_hex s there) refl

length-lower : (s : Text) → length (lower s) ≡ length s
unfolding lower
length-lower [] = refl
length-lower (c ∷ s) = ap suc (length-lower s)

starts_with-append : (s t : Text) → starts_with s (s ++ t) ≡ true
unfolding starts_with
starts_with-append [] t = refl
starts_with-append (c ∷ s) t = ground (arith, starts_with-append s t)

take-length : (s : Text) → take (length s) s ≡ s
take-length [] = refl
take-length (c ∷ s) = ap (λ t. c ∷ t) (take-length s)

fill_key-append :
    (prefix : Text) (len : ℕ) (draws : ℕ → ℕ)
    → length prefix ≤ len
    → fill_key prefix len draws
      ≡ prefix ++ fill_rest (len - length prefix) (len - length prefix) draws 0
unfolding fill_key
fill_key-append prefix len draws h =
    let fits : min (length prefix) len ≡ length prefix = omega arith in
    rw (fits, take-length prefix) refl

-- Whatever the generator draws, a key for a hexadecimal prefix of at most 64 digits passes the test
-- for keys and begins with the prefix in lower case.
pub next_random_key_good :
    (prefix : Text) (draws : ℕ → ℕ)
    → all is_xdigit prefix ≡ true
    → length prefix ≤ 64
    → let key = next_random_key prefix 64 draws in
      (is_hex64_key_raw key ≡ true) × (starts_with (lower prefix) key ≡ true)
unfolding next_random_key is_hex64_key_raw
next_random_key_good prefix draws hex short =
    let p = lower prefix in
    let rest = fill_rest (64 - length p) (64 - length p) draws 0 in
    let size = length-fill_rest (64 - length p) (64 - length p) draws 0 (omega arith) in
    let whole : length (p ++ rest) ≡ 64 =
      omega (arith, length-append p rest, size, length-lower prefix) in
    let digits =
      all-append p rest (lower_hex prefix hex)
        (fill_rest_hex (64 - length p) (64 - length p) draws 0) in
    rw (fill_key-append p 64 draws (omega (arith, length-lower prefix)))
      (rw (whole, digits) refl, starts_with-append p rest)
