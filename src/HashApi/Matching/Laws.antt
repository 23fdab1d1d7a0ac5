-- ===== src/HashApi/Matching/Laws.antt =====
-- vendor/hashapi/HashApiMatching.cpp beside the plain searches and src/mining/block_types.cpp.
use x1miner.Base.{
  ℕ, ◌≡◌, refl, ap, subst, sym, ◌∙◌, arith, Bool, true, false, not, ◌&&◌, ◌||◌, List, [], ◌∷◌, ltb,
  ◌==◌, length, All, All-append, Bool-cases, inl, inr,
}
use x1miner.Base.Text.{Text, codes, starts_with, contains, text_eq}
use x1miner.Mining.BlockTypes.{xuni_re, head_xuni, classify_block}
use x1miner.Mining.Encode.{is_hex64_key}
use x1miner.HashApi.Types.{HashApiRequest, HashApiMatch}
use x1miner.HashApi.Matching.{
  xen11_from, contains_xen11, xuni_from, has_xuni_match, contains_pattern_raw, is_hex64_key_raw,
  append_matches, push_if,
}

abbrev is_xen11 : ℕ → ℕ → ℕ → ℕ → ℕ → Bool
is_xen11 a b c d e = (a == b'X') && (b == b'E') && (c == b'N') && (d == b'1') && (e == b'1')

is_xen11-starts_with :
    (a b c d e : ℕ) (h : Text)
    → is_xen11 a b c d e ≡ starts_with (codes "XEN11") (a ∷ b ∷ c ∷ d ∷ e ∷ h)
unfolding starts_with
is_xen11-starts_with a b c d e h = ground arith

xen11_from-contains : (h : Text) → xen11_from h ≡ contains (codes "XEN11") h
unfolding xen11_from contains
xen11_from-contains [] = refl
xen11_from-contains (a ∷ []) = ground arith
xen11_from-contains (a ∷ b ∷ []) = ground arith
xen11_from-contains (a ∷ b ∷ c ∷ []) = ground arith
xen11_from-contains (a ∷ b ∷ c ∷ d ∷ []) = ground arith
xen11_from-contains (a ∷ b ∷ c ∷ d ∷ e ∷ h) =
    ap (λ x. is_xen11 a b c d e || x) (xen11_from-contains (b ∷ c ∷ d ∷ e ∷ h))
    ∙ ap (λ x. x || contains (codes "XEN11") (b ∷ c ∷ d ∷ e ∷ h)) (is_xen11-starts_with a b c d e h)

xuni_from-xuni_re : (h : Text) → xuni_from h ≡ xuni_re h
unfolding xuni_from xuni_re
xuni_from-xuni_re [] = refl
xuni_from-xuni_re (a ∷ []) = refl
xuni_from-xuni_re (a ∷ b ∷ []) = refl
xuni_from-xuni_re (a ∷ b ∷ c ∷ []) = refl
xuni_from-xuni_re (a ∷ b ∷ c ∷ d ∷ []) = refl
xuni_from-xuni_re (a ∷ b ∷ c ∷ d ∷ e ∷ h) =
    ap (λ x. head_xuni (a ∷ b ∷ c ∷ d ∷ e ∷ h) || x) (xuni_from-xuni_re (b ∷ c ∷ d ∷ e ∷ h))

short_xen11 : (h : Text) → ltb (length h) 5 ≡ true → xen11_from h ≡ false
unfolding xen11_from
short_xen11 [] e = refl
short_xen11 (a ∷ []) e = refl
short_xen11 (a ∷ b ∷ []) e = refl
short_xen11 (a ∷ b ∷ c ∷ []) e = refl
short_xen11 (a ∷ b ∷ c ∷ d ∷ []) e = refl
short_xen11 (a ∷ b ∷ c ∷ d ∷ x ∷ h) e = ground arith

short_xuni : (h : Text) → ltb (length h) 5 ≡ true → xuni_from h ≡ false
unfolding xuni_from
short_xuni [] e = refl
short_xuni (a ∷ []) e = refl
short_xuni (a ∷ b ∷ []) e = refl
short_xuni (a ∷ b ∷ c ∷ []) e = refl
short_xuni (a ∷ b ∷ c ∷ d ∷ []) e = refl
short_xuni (a ∷ b ∷ c ∷ d ∷ x ∷ h) e = ground arith

-- The hand-written searches of the hot path find what the miner's classification looks for: XEN11 as
-- a substring, and XUNI followed by a digit.
pub fast_searches :
    (h : Text) → (contains_xen11 h ≡ contains (codes "XEN11") h) × (has_xuni_match h ≡ xuni_re h)
unfolding contains_xen11 has_xuni_match
fast_searches h = elim (Bool-cases (ltb (length h) 5)) [
  | inl e ↦ (
    rw e (sym (short_xen11 h e) ∙ xen11_from-contains h),
    rw e (sym (short_xuni h e) ∙ xuni_from-xuni_re h),
  )
  | inr e ↦ (rw e (xen11_from-contains h), rw e (xuni_from-xuni_re h))
]

-- The miner keeps a match: its key is one, and its hash is classified as a block.
abbrev pub Keeps : HashApiMatch → Type 0
Keeps x =
    (is_hex64_key x.key ≡ true)
    × ((text_eq (classify_block x.hash x.matched_pattern) (codes "OTHER")) ≡ false)

classify_xen :
    (h t : Text)
    → contains (codes "XEN11") h ≡ true
    → text_eq (classify_block h t) (codes "OTHER") ≡ false
unfolding classify_block text_eq
classify_xen h t e = ground arith

classify_xuni :
    (h t : Text) → xuni_re h ≡ true → text_eq (classify_block h t) (codes "OTHER") ≡ false
unfolding classify_block text_eq
classify_xuni h t e = ground arith

contains_pattern_xen11 :
    (h : Text) → contains_pattern_raw h (codes "XEN11") ≡ contains (codes "XEN11") h
unfolding contains_pattern_raw text_eq
contains_pattern_xen11 h = (fast_searches h).0

same_key_test : (k : Text) → is_hex64_key_raw k ≡ is_hex64_key k
unfolding is_hex64_key_raw is_hex64_key
same_key_test k = refl

and_right : (a b : Bool) → (a && b) ≡ true → b ≡ true
and_right a b h = ground arith

push_if-All :
    (P : HashApiMatch → Type 0) (found : Bool) (x : HashApiMatch) (l : List HashApiMatch)
    → (found ≡ true → P x)
    → All P l
    → All P (push_if found x l)
unfolding push_if
push_if-All P true x l f h = All-append P l (x ∷ []) h (f refl, tt)
push_if-All P false x l f h = h

-- For the target XEN11, every match that one attempt appends is kept by the miner: the key is 64
-- hexadecimal digits and the hash is no OTHER.
pub append_matches-Keeps :
    (r : HashApiRequest) (l : List HashApiMatch) (k h : Text) (i : ℕ)
    → r.target_pattern ≡ codes "XEN11"
    → All Keeps l
    → All Keeps (append_matches r l k h i)
unfolding append_matches
append_matches-Keeps r l k h i target old =
    let xen = contains_pattern_raw h r.target_pattern in
    let xuni = r.allow_xuni && has_xuni_match h in
    elim (Bool-cases (is_hex64_key_raw k)) [
      | inr e ↦ rw e old
      | inl e ↦ elim (Bool-cases (not xen && not xuni)) [
        | inl f ↦ rw (e, f) old
        | inr f ↦
            rw (e, f)
              (push_if-All Keeps xuni _ _
                (λ g. (
                  sym (same_key_test k) ∙ e,
                  classify_xuni h (codes "XUNI")
                      (sym (fast_searches h).1 ∙ and_right r.allow_xuni (has_xuni_match h) g),
                ))
                (push_if-All Keeps xen _ l
                  (λ g. (
                    sym (same_key_test k) ∙ e,
                    classify_xen h r.target_pattern (
                        sym (contains_pattern_xen11 h)
                        ∙ subst (λ t. contains_pattern_raw h t ≡ true) target g),
                  ))
                  old))
      ]
    ]
