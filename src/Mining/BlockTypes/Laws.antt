-- ===== src/Mining/BlockTypes/Laws.antt =====
-- `classify_block` and `hash_digest_for_superblock` of src/mining/block_types.cpp.
use x1miner.Base.{
  ℕ, false, ◌&&◌, ◌≡◌, ◌⊎◌, refl, arith, inl, inr, [], ◌∷◌, ◌++◌, ◌==◌, tally, tally-append,
  Bool-cases,
}
use x1miner.Base.Text.{Text, codes, text_eq, contains, upper, trim_by, is_space}
use x1miner.Mining.BlockTypes.{after_last, xuni_re, is_superblock, tidy_kind, classify_block}

-- Its four values.
pub classify_block-cases :
    (h t : Text)
    → (classify_block h t ≡ codes "XUNI")
      ⊎ ((xuni_re h ≡ false) × (classify_block h t ≡ codes "XBLK"))
      ⊎ ((xuni_re h ≡ false)
          × ((contains (codes "XEN11") h && is_superblock h 50) ≡ false)
          × (classify_block h t ≡ codes "XNM"))
      ⊎ ((xuni_re h ≡ false)
          × (contains (codes "XEN11") h ≡ false)
          × (classify_block h t ≡ codes "OTHER"))
unfolding classify_block
classify_block-cases h t = ground arith

tidy_kinds :
    (tidy_kind (codes "XUNI") ≡ codes "XUNI")
    × (tidy_kind (codes "XBLK") ≡ codes "XBLK")
    × (tidy_kind (codes "XNM") ≡ codes "XNM")
    × (tidy_kind (codes "OTHER") ≡ codes "OTHER")
unfolding tidy_kind upper trim_by is_space
tidy_kinds = (refl, refl, refl, refl)

xuni_stays : (h : Text) → classify_block h (codes "XUNI") ≡ codes "XUNI"
unfolding classify_block text_eq
xuni_stays h = rw tidy_kinds.0 refl

xblk_stays : (h : Text) → xuni_re h ≡ false → classify_block h (codes "XBLK") ≡ codes "XBLK"
unfolding classify_block text_eq
xblk_stays h e = rw (tidy_kinds.1, e) refl

xnm_stays :
    (h : Text)
    → xuni_re h ≡ false
    → (contains (codes "XEN11") h && is_superblock h 50) ≡ false
    → classify_block h (codes "XNM") ≡ codes "XNM"
unfolding classify_block text_eq
xnm_stays h e f = elim (Bool-cases (contains (codes "XEN11") h)) [
  | inl c ↦ let g : is_superblock h 50 ≡ false = (rw c at f) in rw (tidy_kinds.2, e, c, g) refl
  | inr c ↦ rw (tidy_kinds.2, e, c) refl
]

other_stays :
    (h : Text)
    → xuni_re h ≡ false
    → contains (codes "XEN11") h ≡ false
    → classify_block h (codes "OTHER") ≡ codes "OTHER"
unfolding classify_block text_eq
other_stays h e f = rw (tidy_kinds.3, e, f) refl

-- Classifying again, with the kind found, gives the same kind.
pub classify_block_idempotent :
    (h t : Text) → classify_block h (classify_block h t) ≡ classify_block h t
classify_block_idempotent h t = elim (classify_block-cases h t) [
  | inl e ↦ rw e (xuni_stays h)
  | inr (inl (x, e)) ↦ rw e (xblk_stays h x)
  | inr (inr (inl (x, s, e))) ↦ rw e (xnm_stays h x s)
  | inr (inr (inr (x, c, e))) ↦ rw e (other_stays h x c)
]

abbrev pub dollars : Text → ℕ
dollars = tally (λ c. c == b'$')

after_last-none : (t : Text) → dollars t ≡ 0 → after_last b'$' t ≡ t
unfolding after_last
after_last-none [] h = refl
after_last-none (c ∷ t) h = ground (arith, after_last-none t)

pub after_last-append : (s t : Text) → dollars t ≡ 0 → after_last b'$' (s ++ b'$' ∷ t) ≡ t
unfolding after_last
after_last-append [] t h = ground arith
after_last-append (a ∷ s) t h =
    ground (arith, after_last-append s t h, tally-append (λ c. c == b'$') s (b'$' ∷ t))
