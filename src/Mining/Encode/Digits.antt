-- ===== src/Mining/Encode/Digits.antt =====
-- `std::to_string` and `std::stoi` as src/mining/argon2_encode.cpp uses them.
use x1miner.Base.{
  ℕ, zero, suc, ◌+◌, ◌-◌, ◌*◌, ◌/◌, ◌%◌, ◌<◌, ◌≡◌, refl, ap, ◌∙◌, arith, true, false, [], ◌∷◌, ◌++◌,
  ltb, All, Bool-cases, inl, inr,
}
use x1miner.Base.Text.{Text, is_digit, is_empty}
use x1miner.Mining.Encode.{digits_value, digits_from, to_string, span_digits}

-- All characters are digits.
abbrev pub AllDigits : Text → Type 0
AllDigits = All (λ c. is_digit c ≡ true)

-- The accumulator is moved on by the power of ten that the new digits take.
digits_from_value :
    (fuel n : ℕ) (acc : Text)
    → n < fuel
    → digits_value 0 (digits_from fuel n acc) ≡ digits_value n acc
unfolding digits_from digits_value
digits_from_value zero n acc h = omega arith
digits_from_value (suc fuel) n acc h = elim (Bool-cases (ltb n 10)) [
  | inl e ↦
      let same : 0 * 10 + (b'0' + n % 10 - b'0') ≡ n = ground arith in
      rw e (ap (λ v. digits_value v acc) same)
  | inr e ↦
      let same : n / 10 * 10 + (b'0' + n % 10 - b'0') ≡ n = omega arith in
      let later = digits_from_value fuel (n / 10) ((b'0' + n % 10) ∷ acc) (ground arith) in
      rw e (later ∙ ap (λ v. digits_value v acc) same)
]

pub to_string_value : (n : ℕ) → digits_value 0 (to_string n) ≡ n
unfolding to_string digits_value
to_string_value n = digits_from_value (suc n) n [] (omega arith)

digits_from-AllDigits :
    (fuel n : ℕ) (acc : Text) → AllDigits acc → AllDigits (digits_from fuel n acc)
unfolding digits_from is_digit
digits_from-AllDigits zero n acc h = h
digits_from-AllDigits (suc fuel) n acc h =
    let here : is_digit (b'0' + n % 10) ≡ true = ground arith in
    let later = digits_from-AllDigits fuel (n / 10) ((b'0' + n % 10) ∷ acc) (here, h) in
    elim (Bool-cases (ltb n 10)) [ inl e ↦ rw e (here, h) | inr e ↦ rw e later ]

pub to_string-AllDigits : (n : ℕ) → AllDigits (to_string n)
unfolding to_string
to_string-AllDigits n = digits_from-AllDigits (suc n) n [] tt

pub span_digits-append :
    (ds : Text) (c : ℕ) (rest : Text)
    → AllDigits ds
    → is_digit c ≡ false
    → span_digits (ds ++ c ∷ rest) ≡ (ds, c ∷ rest)
unfolding span_digits
span_digits-append [] c rest h e = rw e refl
span_digits-append (d ∷ ds) c rest h e = rw (span_digits-append ds c rest h.1 e, h.0) refl

digits_from-nonempty : (fuel n c : ℕ) (acc : Text) → is_empty (digits_from fuel n (c ∷ acc)) ≡ false
unfolding digits_from is_empty
digits_from-nonempty zero n c acc = refl
digits_from-nonempty (suc fuel) n c acc =
    let later = digits_from-nonempty fuel (n / 10) (b'0' + n % 10) (c ∷ acc) in
    elim (Bool-cases (ltb n 10)) [ inl e ↦ rw e refl | inr e ↦ rw e later ]

pub to_string-nonempty : (n : ℕ) → is_empty (to_string n) ≡ false
unfolding to_string digits_from is_empty
to_string-nonempty n = elim (Bool-cases (ltb n 10)) [
  | inl e ↦ rw e refl
  | inr e ↦ rw e (digits_from-nonempty n (n / 10) (b'0' + n % 10) [])
]
