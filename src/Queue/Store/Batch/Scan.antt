-- ===== src/Queue/Store/Batch/Scan.antt =====
-- The loops of `list_flush_batch` of src/queue/store.cpp, counted by any test of the blocks.
use x1miner.Base.{
  ℕ, ◌+◌, ◌≤◌, ◌<◌, min, ◌≡◌, refl, inl, inr, Bool, true, not, ◌&&◌, List, [], ◌∷◌, ◌++◌, arith,
  length, tally, tally-append, tally-le-length, Bool-cases, length-append,
}
use x1miner.Queue.Codec.{PendingBlock}
use x1miner.Queue.Store.Batch.{Wave, is_eligible, take_block, is_skipped, scan_blocks, refill}

module _ {F : Type 0} where
  pub tally-refill :
      (q : PendingBlock F → Bool) (cap : ℕ) (pre wra : List (PendingBlock F))
      → tally q (refill cap pre wra) ≤ tally q pre + tally q wra
  unfolding refill
  tally-refill q cap pre [] = omega arith
  tally-refill q cap pre (b ∷ wra) =
      ground (arith, tally-refill q cap (pre ++ b ∷ []) wra, tally-append q pre (b ∷ []))

  pub length-refill :
      (cap : ℕ) (pre wra : List (PendingBlock F))
      → length pre < cap
      → length (refill cap pre wra) ≡ min cap (length pre + length wra)
  unfolding refill
  length-refill cap pre [] h = omega arith
  length-refill cap pre (b ∷ wra) h =
      ground (arith, length-refill cap (pre ++ b ∷ []) wra, length-append pre (b ∷ []))

  -- What the second loop only adds does not count for `preferred`.
  pub tally-refill_ge :
      (q : PendingBlock F → Bool) (cap : ℕ) (pre wra : List (PendingBlock F))
      → tally q pre ≤ tally q (refill cap pre wra)
  unfolding refill
  tally-refill_ge q cap pre [] = omega arith
  tally-refill_ge q cap pre (b ∷ wra) =
      ground (arith, tally-refill_ge q cap (pre ++ b ∷ []) wra, tally-append q pre (b ∷ []))

module _ {F : Type 0} where
  pub refill_only :
      (q : PendingBlock F → Bool) (cap : ℕ) (pre wra : List (PendingBlock F))
      → tally q pre ≡ length pre
      → tally q wra ≡ length wra
      → tally q (refill cap pre wra) ≡ length (refill cap pre wra)
  unfolding refill
  refill_only q cap pre [] h k = h
  refill_only q cap pre (b ∷ wra) h k = ground (
    arith,
    refill_only q cap (pre ++ b ∷ []) wra,
    tally-append q pre (b ∷ []),
    length-append pre (b ∷ []),
    tally-le-length q wra,
  )

module _ {F : Type 0} (w : Wave) where
  -- Eligible, and from `skip_before_id` on.
  abbrev pub is_preferred : PendingBlock F → Bool
  is_preferred pb = is_eligible w pb && not (is_skipped w pb)

  abbrev pub is_wrapped : PendingBlock F → Bool
  is_wrapped pb = is_eligible w pb && is_skipped w pb

  pub tally_split :
      (l : List (PendingBlock F))
      → tally is_preferred l + tally is_wrapped l ≡ tally (is_eligible w) l
  tally_split [] = refl
  tally_split (x ∷ l) = ground (arith, tally_split l)

  module _ (cap : ℕ) where
    tally_take :
        (q : PendingBlock F → Bool) (dest : List (PendingBlock F)) (pb : PendingBlock F)
        → tally q (take_block w cap dest pb)
          ≤ tally q dest + tally (λ x. is_eligible w x && q x) (pb ∷ [])
    unfolding take_block
    tally_take q dest pb = ground (arith, tally-append q dest (pb ∷ []))

    length-take_block :
        (dest : List (PendingBlock F)) (pb : PendingBlock F)
        → length dest ≤ cap
        → length (take_block w cap dest pb)
          ≡ min cap (length dest + tally (is_eligible w) (pb ∷ []))
    unfolding take_block
    length-take_block dest pb h = ground (arith, length-append dest (pb ∷ []))

    take_only :
        (q : PendingBlock F → Bool) (dest : List (PendingBlock F)) (pb : PendingBlock F)
        → tally q dest ≡ length dest
        → (is_eligible w pb ≡ true → q pb ≡ true)
        → tally q (take_block w cap dest pb) ≡ length (take_block w cap dest pb)
    unfolding take_block
    take_only q dest pb h k =
        ground (arith, length-append dest (pb ∷ []), tally-append q dest (pb ∷ []))

    -- Whatever is counted, the two vectors hold no more of it than the eligible blocks.
    pub scan_bound :
        (q : PendingBlock F → Bool) (l pre wra : List (PendingBlock F))
        → let (p, s) = scan_blocks w cap l pre wra in
          tally q p + tally q s ≤ tally q pre + tally q wra + tally (λ x. is_eligible w x && q x) l
    unfolding scan_blocks
    scan_bound q [] pre wra = omega arith
    scan_bound q (b ∷ l) pre wra = elim (Bool-cases (is_skipped w b)) [
      | inl e ↦ ground (arith, scan_bound q l pre (take_block w cap wra b), tally_take q wra b)
      | inr e ↦ ground (arith, scan_bound q l (take_block w cap pre b) wra, tally_take q pre b)
    ]

    pub scan_only :
        (l pre wra : List (PendingBlock F))
        → tally is_preferred pre ≡ length pre
        → tally is_wrapped wra ≡ length wra
        → let (p, s) = scan_blocks w cap l pre wra in
          (tally is_preferred p ≡ length p) × (tally is_wrapped s ≡ length s)
    unfolding scan_blocks
    scan_only [] pre wra h k = (h, k)
    scan_only (b ∷ l) pre wra h k = elim (Bool-cases (is_skipped w b)) [
      | inl e ↦ ground (arith, scan_only l pre (take_block w cap wra b), take_only is_wrapped wra b)
      | inr e ↦
          ground (arith, scan_only l (take_block w cap pre b) wra, take_only is_preferred pre b)
    ]

    pub scan_exact :
        (l pre wra : List (PendingBlock F))
        → length pre < cap
        → length wra ≤ cap
        → let (p, s) = scan_blocks w cap l pre wra in
          (length p ≡ min cap (length pre + tally is_preferred l))
          × (length p < cap → length s ≡ min cap (length wra + tally is_wrapped l))
    unfolding scan_blocks
    scan_exact [] pre wra h k = (omega arith, λ _. omega arith)
    scan_exact (b ∷ l) pre wra h k = elim (Bool-cases (is_skipped w b)) [
      | inl e ↦ ground (arith, scan_exact l pre (take_block w cap wra b), length-take_block wra b k)
      | inr e ↦ ground (arith, scan_exact l (take_block w cap pre b) wra, length-take_block pre b)
    ]
