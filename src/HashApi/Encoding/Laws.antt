-- ===== src/HashApi/Encoding/Laws.antt =====
-- vendor/hashapi/HashApiEncoding.cpp with a decoder that is written for the proofs.
use x1miner.Base.{
  ℕ, zero, suc, ◌+◌, ◌*◌, ◌/◌, ◌%◌, ◌^◌, ◌<◌, ◌≡◌, refl, ap, sym, arith, Bool, true, false, List,
  [], ◌∷◌, ltb, ltb→lt, Bool-cases, subst, inl, inr, ◌&&◌, ◌==◌, if◌then◌else◌, length, replicate,
  All,
}
use x1miner.Base.Text.{Text}
use x1miner.HashApi.Encoding.{
  base64_chars, char_at, base64_encoded_length, sextet, encode_groups, base64_encode_to, overwrite,
  base64_encode,
}

length-encode_groups :
    (bytes : List ℕ) → length (encode_groups bytes) ≡ base64_encoded_length (length bytes)
unfolding encode_groups base64_encoded_length
length-encode_groups [] = refl
length-encode_groups (a ∷ []) = refl
length-encode_groups (a ∷ b ∷ []) = refl
length-encode_groups (a ∷ b ∷ c ∷ rest) = ground (arith, length-encode_groups rest)

ltb_irrefl : (n : ℕ) → ltb n n ≡ false
ltb_irrefl n = ground arith

overwrite_all : (w : Text) (n : ℕ) → n ≡ length w → overwrite w (replicate n 0) ≡ w
unfolding overwrite
overwrite_all [] zero h = refl
overwrite_all [] (suc n) h = ground arith
overwrite_all (c ∷ w) zero h = ground arith
overwrite_all (c ∷ w) (suc n) h = ap (λ t. c ∷ t) (overwrite_all w n (omega arith))

-- The zeros are all written over: the encoding is the characters of the groups.
pub base64_encode-groups : (bytes : List ℕ) → base64_encode bytes ≡ encode_groups bytes
unfolding base64_encode base64_encode_to
base64_encode-groups bytes = rw (ltb_irrefl (base64_encoded_length (length bytes))) (
    overwrite_all (encode_groups bytes) (base64_encoded_length (length bytes))
      (sym (length-encode_groups bytes)))

-- The value of a character: its place in the alphabet.
place : ℕ → Text → ℕ
place c [] = 0
place c (d ∷ s) = let rest = place c s in if c == d then 0 else suc rest

-- The three bytes of four sextets.
abbrev byte_0 : ℕ → ℕ → ℕ
byte_0 p q = p * 4 + q / 16

abbrev byte_1 : ℕ → ℕ → ℕ
byte_1 q r = q % 16 * 16 + r / 4

abbrev byte_2 : ℕ → ℕ → ℕ
byte_2 r s = r % 4 * 64 + s

unfoldable pub at : ℕ → ℕ
unfolding place
at c = place c base64_chars

-- An independent decoder of base64 without padding.
unfoldable pub decode : Text → List ℕ
unfolding at
decode [] = []
decode (p ∷ []) = []
decode (p ∷ q ∷ []) = byte_0 (at p) (at q) ∷ []
decode (p ∷ q ∷ r ∷ []) = byte_0 (at p) (at q) ∷ byte_1 (at q) (at r) ∷ []
decode (p ∷ q ∷ r ∷ s ∷ rest) =
    byte_0 (at p) (at q) ∷ byte_1 (at q) (at r) ∷ byte_2 (at r) (at s) ∷ decode rest

module _ (f : ℕ → ℕ) where
  -- The function keeps each of the first n numbers.
  keeps : ℕ → Bool
  keeps zero = true
  keeps (suc n) = (f n == n) && keeps n

  keeps-below : (n k : ℕ) → k < n → keeps n ≡ true → f k ≡ k
  unfolding keeps
  keeps-below zero k h e = omega arith
  keeps-below (suc n) k h e = elim (Bool-cases (ltb k n)) [
    | inl l ↦ keeps-below n k (ltb→lt k n l) (ground arith)
    | inr l ↦ let same : n ≡ k = ground arith in subst (λ j. f j ≡ j) same (ground arith)
  ]

at_char-keeps : keeps (λ n. at (char_at n base64_chars)) 64 ≡ true
unfolding keeps at place char_at
at_char-keeps = refl

at-sextet : (v sh : ℕ) → at (sextet v sh) ≡ v / 2 ^ sh % 64
unfolding sextet
at-sextet v sh =
    keeps-below (λ n. at (char_at n base64_chars)) 64 (v / 2 ^ sh % 64) (omega arith) at_char-keeps

three_bytes :
    (a b c : ℕ)
    → a < 256
    → b < 256
    → c < 256
    → let v = a * 2 ^ 16 + b * 2 ^ 8 + c in
      (byte_0 (v / 2 ^ 18 % 64) (v / 2 ^ 12 % 64) ≡ a)
      × (byte_1 (v / 2 ^ 12 % 64) (v / 2 ^ 6 % 64) ≡ b)
      × (byte_2 (v / 2 ^ 6 % 64) (v / 2 ^ 0 % 64) ≡ c)
three_bytes a b c ha hb hc = (omega arith, omega arith, omega arith)

two_bytes :
    (a b : ℕ)
    → a < 256
    → b < 256
    → let v = a * 2 ^ 16 + b * 2 ^ 8 in
      (byte_0 (v / 2 ^ 18 % 64) (v / 2 ^ 12 % 64) ≡ a)
      × (byte_1 (v / 2 ^ 12 % 64) (v / 2 ^ 6 % 64) ≡ b)
two_bytes a b ha hb = (omega arith, omega arith)

one_byte : (a : ℕ) → a < 256 → byte_0 (a * 2 ^ 16 / 2 ^ 18 % 64) (a * 2 ^ 16 / 2 ^ 12 % 64) ≡ a
one_byte a ha = omega arith

decode-encode_groups :
    (bytes : List ℕ) → All (λ b. b < 256) bytes → decode (encode_groups bytes) ≡ bytes
unfolding decode encode_groups
decode-encode_groups [] h = refl
decode-encode_groups (a ∷ []) (ha, h) =
    rw (at-sextet (a * 2 ^ 16) 18, at-sextet (a * 2 ^ 16) 12) (ap (λ x. x ∷ []) (one_byte a ha))
decode-encode_groups (a ∷ b ∷ []) (ha, (hb, h)) =
    let v = a * 2 ^ 16 + b * 2 ^ 8 in
    let (e, f) = two_bytes a b ha hb in
    simp (at-sextet v 18, at-sextet v 12, at-sextet v 6, e, f) refl
decode-encode_groups (a ∷ b ∷ c ∷ rest) (ha, (hb, (hc, h))) =
    let v = a * 2 ^ 16 + b * 2 ^ 8 + c in
    let (e, f, g) = three_bytes a b c ha hb hc in
    simp
      (
        at-sextet v 18,
        at-sextet v 12,
        at-sextet v 6,
        at-sextet v 0,
        e,
        f,
        g,
        decode-encode_groups rest h,
      )
      refl

-- Every list of bytes is read back from its encoding.
pub decode-base64_encode :
    (bytes : List ℕ) → All (λ b. b < 256) bytes → decode (base64_encode bytes) ≡ bytes
decode-base64_encode bytes h = rw (base64_encode-groups bytes) (decode-encode_groups bytes h)
