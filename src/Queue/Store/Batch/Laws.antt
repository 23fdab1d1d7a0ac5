-- ===== src/Queue/Store/Batch/Laws.antt =====
-- `list_flush_batch` of src/queue/store.cpp as a whole.
use x1miner.Base.{
  ℕ, ◌≤◌, ◌<◌, min, ◌≡◌, refl, sym, ◌∙◌, ◌⊎◌, inl, inr, Bool, true, ◌&&◌, List, [], ◌∷◌, arith,
  if◌then◌else◌, length, tally, tally-le-length, All-of_tally, All-mono, tally_all, All,
}
use x1miner.Base.Int.{ℤ, pos, pos_part, ◌<ℤ?◌, ◌≤ℤ◌}
use x1miner.Queue.Codec.{PendingBlock}
use x1miner.Queue.Policy.{ready_to_flush}
use x1miner.Queue.Store.{BlockStore, hit_m}
use x1miner.Queue.Store.Batch.{
  Wave, is_eligible, scan_blocks, sort_blocks, wave_cap, gather, list_flush_batch,
}
use x1miner.Queue.Store.Batch.Order.{IsFlushOrdered, sort_blocks-IsFlushOrdered, tally-sort_blocks}
use x1miner.Queue.Store.Batch.Scan.{
  is_preferred, tally-refill, length-refill, tally-refill_ge, refill_only, tally_split, scan_bound,
  scan_only, scan_exact,
}

module _ {F : Type 0} (w : Wave) (cap : ℕ) (pending : List (PendingBlock F)) where
  tally_and :
      (q r : PendingBlock F → Bool) (l : List (PendingBlock F))
      → tally (λ x. q x && r x) l ≤ tally r l
  tally_and q r [] = omega arith
  tally_and q r (x ∷ l) = ground (arith, tally_and q r l)

  tally_weaken : (l : List (PendingBlock F)) → tally (is_preferred w) l ≤ tally (is_eligible w) l
  tally_weaken l = omega (arith, tally_split w l)

  abbrev preferred_of : List (PendingBlock F)
  preferred_of = (scan_blocks w cap pending [] []).0

  abbrev wrapped_of : List (PendingBlock F)
  wrapped_of = (scan_blocks w cap pending [] []).1

  pub gather_bound : (q : PendingBlock F → Bool) → tally q (gather w cap pending) ≤ tally q pending
  unfolding gather
  gather_bound q = ground (
    arith,
    tally-refill q cap preferred_of wrapped_of,
    scan_bound w cap q pending [] [],
    tally_and (is_eligible w) q pending,
  )

  all_eligible : tally (is_eligible w) (gather w cap pending) ≡ length (gather w cap pending)
  unfolding gather
  all_eligible = ground (
    arith,
    scan_only w cap pending [] [],
    refill_only (is_eligible w) cap preferred_of wrapped_of,
    tally-le-length (is_eligible w) preferred_of,
    tally-le-length (is_eligible w) wrapped_of,
    tally_split w preferred_of,
    tally_split w wrapped_of,
  )

  module _ (room : 0 < cap) where
    length-gather : length (gather w cap pending) ≡ min cap (tally (is_eligible w) pending)
    unfolding gather
    length-gather = ground (
      arith,
      scan_exact w cap pending [] [],
      length-refill cap preferred_of wrapped_of,
      tally_split w pending,
    )

    preferred_first :
        tally (is_preferred w) (gather w cap pending) ≡ min cap (tally (is_preferred w) pending)
    preferred_first = omega (
      arith,
      gather_bound (is_preferred w),
      length-gather,
      tally-le-length (is_preferred w) (gather w cap pending),
      at_least,
    )
      where
        at_least :
            min cap (tally (is_preferred w) pending) ≤ tally (is_preferred w) (gather w cap pending)
        at_least =
            unfold gather in
            ground (
              arith,
              scan_exact w cap pending [] [],
              scan_only w cap pending [] [],
              tally-refill_ge (is_preferred w) cap preferred_of wrapped_of,
            )

module _ {F : Type 0} where
  same_length : (l : List (PendingBlock F)) → length (sort_blocks l) ≡ length l
  same_length l = sym (tally_all (sort_blocks l)) ∙ tally-sort_blocks (λ _. true) l ∙ tally_all l

  cap_room : (limit : ℤ) (l : List (PendingBlock F)) → (l ≡ []) ⊎ (0 < wave_cap limit l)
  unfolding wave_cap
  cap_room limit [] = inl refl
  cap_room limit (x ∷ l) = inr (ground arith)

  exact_count :
      (w : Wave) (cap : ℕ) (l : List (PendingBlock F))
      → (l ≡ []) ⊎ (0 < cap)
      → (length (gather w cap l) ≡ min cap (tally (is_eligible w) l))
        × (tally (is_preferred w) (gather w cap l) ≡ min cap (tally (is_preferred w) l))
  exact_count w cap l (inl e) = rw e (unfold gather in ground arith)
  exact_count w cap l (inr room) = (length-gather w cap l room, preferred_first w cap l room)

  -- The block's m= is at least that of the network, and its kind may be flushed at this minute.
  abbrev pub IsDue : Wave → PendingBlock F → Type 0
  IsDue w pb =
      (w.net_m ≤ℤ hit_m w.default_m w.net_m pb)
      × ((ready_to_flush w.minute pb.hit.block_type).0 ≡ true)

  eligible-IsDue : (w : Wave) (pb : PendingBlock F) → is_eligible w pb ≡ true → IsDue w pb
  unfolding is_eligible
  eligible-IsDue w pb h = (ground (arith, h), ground (arith, h))

module _ {F Doc : Type 0} (w : Wave) (limit : ℤ) (s : BlockStore F Doc) where
  -- Every block of a wave has an m= of at least the network's and a kind that may be flushed at this
  -- minute, the wave is in flush order, and counted by any test it holds no more blocks than are
  -- pending: none is made up and none is sent twice.
  pub flush_batch_sound :
      let wave = list_flush_batch w limit s in
      All (IsDue w) wave
      × IsFlushOrdered wave
      × ((q : PendingBlock F → Bool) → tally q wave ≤ tally q s.pending)
  unfolding list_flush_batch
  flush_batch_sound =
      let cap = wave_cap limit s.pending in
      let sorted = tally-sort_blocks in
      let raw = gather w cap s.pending in
      (
        All-mono (λ pb. is_eligible w pb ≡ true) (IsDue w) (eligible-IsDue w) _
            (All-of_tally _ _
              (sorted (is_eligible w) raw ∙ all_eligible w cap s.pending ∙ sym (same_length raw))),
        sort_blocks-IsFlushOrdered raw,
        λ q. rw (sorted q raw) (gather_bound w cap s.pending q),
      )

  -- A wave is as large as the limit and the eligible blocks allow (a limit of 0 or less is none),
  -- and it takes blocks below `skip_before_id` only when it holds all eligible ones from there on.
  pub flush_batch_complete :
      let wave = list_flush_batch w limit s in
      let cap = if pos 0 <ℤ? limit then pos_part limit else length s.pending in
      (length wave ≡ min cap (tally (is_eligible w) s.pending))
      × (tally (is_preferred w) wave ≡ min cap (tally (is_preferred w) s.pending))
  unfolding list_flush_batch wave_cap
  flush_batch_complete =
      let cap = wave_cap limit s.pending in
      let raw = gather w cap s.pending in
      (
        same_length raw ∙ (exact_count w cap s.pending (cap_room limit s.pending)).0,
        tally-sort_blocks (is_preferred w) raw
            ∙ (exact_count w cap s.pending (cap_room limit s.pending)).1,
      )
