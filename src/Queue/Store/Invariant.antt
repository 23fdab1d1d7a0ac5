-- ===== src/Queue/Store/Invariant.antt =====
-- The invariant of the block store of src/queue/store.cpp, and the helpers of its methods. It
-- speaks of the ids and digests of the pending blocks alone.
use x1miner.Base.{
  ℕ, suc, ◌+◌, ◌≤◌, ◌≡◌, refl, ap, ◌∙◌, Bool, false, not, ◌&&◌, ◌||◌, List, [], ◌∷◌, ◌++◌, arith,
  leb, if◌then◌else◌, keep, All, All-append, map,
}
use x1miner.Base.Int.{ℤ, pos, ◌<ℤ◌, ◌≤ℤ◌, ◌==ℤ◌, ==ℤ→eq}
use x1miner.Base.Text.{Text, text_eq, text_eq_iff, is_empty, mem_text}
use x1miner.Queue.Codec.{PendingBlock}
use x1miner.Queue.Store.{
  insert_hash, erase_hash, index_hit, unindex_hit, unindex_matches, is_indexed, update_first,
  set_reason, set_forwarded, forward_all, deferred,
}

abbrev pub Entry : Type 0
Entry = ℤ × Text

abbrev pub entries : {F : Type 0} → List (PendingBlock F) → List Entry
entries [] = []
entries (pb ∷ l) = (pb.id, pb.hit.hash_str) ∷ entries l

unfoldable pub count_id : ℤ → List Entry → ℕ
count_id i [] = 0
count_id i (e ∷ l) = if e.0 ==ℤ i then suc (count_id i l) else count_id i l

unfoldable pub count_hash : Text → List Entry → ℕ
count_hash h [] = 0
count_hash h (e ∷ l) = if text_eq e.1 h then suc (count_hash h l) else count_hash h l

-- Entries with both.
unfoldable pub count_both : ℤ → Text → List Entry → ℕ
count_both i h [] = 0
count_both i h (e ∷ l) =
    if (e.0 ==ℤ i) && text_eq e.1 h then suc (count_both i h l) else count_both i h l

abbrev pub other_id : ℤ → Entry → Bool
other_id i e = not (e.0 ==ℤ i)

-- Ids are distinct, positive and below the next one, a digest that is not empty is pending at most
-- once, and the index holds exactly the digests that are pending.
pub record WellIndexed (l : List Entry) (index : List Text) (next : ℤ) : Type 0 where
  pub ids_unique : (i : ℤ) → count_id i l ≤ 1
  pub ids_fresh : All (λ e. (pos 1 ≤ℤ e.0) × (e.0 <ℤ next)) l
  pub next_positive : pos 1 ≤ℤ next
  pub hashes_unique : (h : Text) → is_empty h ≡ false → count_hash h l ≤ 1
  pub index_exact : (h : Text) → mem_text h index ≡ (not (is_empty h) && leb 1 (count_hash h l))

pub mem_text-insert_hash :
    (h g : Text) (index : List Text)
    → mem_text h (insert_hash g index) ≡ (text_eq g h || mem_text h index)
unfolding insert_hash mem_text
mem_text-insert_hash h g index = ground (arith, text_eq_iff g h)

pub mem_text-erase_hash :
    (h g : Text) (index : List Text)
    → mem_text h (erase_hash g index) ≡ (not (text_eq g h) && mem_text h index)
unfolding erase_hash mem_text
mem_text-erase_hash h g [] = ground arith
mem_text-erase_hash h g (t ∷ index) =
    ground (arith, mem_text-erase_hash h g index, text_eq_iff g h, text_eq_iff t h, text_eq_iff t g)

pub mem_text-unindex_hit :
    (h g : Text) (index : List Text)
    → is_empty h ≡ false
    → mem_text h (unindex_hit g index) ≡ (not (text_eq g h) && mem_text h index)
unfolding unindex_hit
mem_text-unindex_hit h g index ne = ground (arith, mem_text-erase_hash h g index, text_eq_iff g h)

pub count_hash-append :
    (h : Text) (l : List Entry) (e : Entry)
    → count_hash h (l ++ e ∷ []) ≡ count_hash h l + count_hash h (e ∷ [])
unfolding count_hash
count_hash-append h [] e = ground arith
count_hash-append h (d ∷ l) e = ground (arith, count_hash-append h l e)

count_id-append :
    (i : ℤ) (l : List Entry) (e : Entry)
    → count_id i (l ++ e ∷ []) ≡ count_id i l + count_id i (e ∷ [])
unfolding count_id
count_id-append i [] e = ground arith
count_id-append i (d ∷ l) e = ground (arith, count_id-append i l e)

-- An id at or above the bound is not there.
pub count_id_fresh :
    (i next : ℤ) (l : List Entry)
    → All (λ e. (pos 1 ≤ℤ e.0) × (e.0 <ℤ next)) l
    → next ≤ℤ i
    → count_id i l ≡ 0
unfolding count_id
count_id_fresh i next [] a h = refl
count_id_fresh i next (e ∷ l) a h = ground (arith, count_id_fresh i next l a.1)

count_id-keep : (i j : ℤ) (l : List Entry) → count_id j (keep (other_id i) l) ≤ count_id j l
unfolding count_id
count_id-keep i j [] = omega arith
count_id-keep i j (e ∷ l) = ground (arith, count_id-keep i j l)

pub count_hash-keep :
    (i : ℤ) (h : Text) (l : List Entry)
    → count_hash h (keep (other_id i) l) + count_both i h l ≡ count_hash h l
unfolding count_hash count_both
count_hash-keep i h [] = omega arith
count_hash-keep i h (e ∷ l) = ground (arith, count_hash-keep i h l)

pub count_both-keep :
    (j i : ℤ) (h : Text) (l : List Entry) → count_both i h (keep (other_id j) l) ≤ count_both i h l
unfolding count_both
count_both-keep j i h [] = omega arith
count_both-keep j i h (e ∷ l) = ground (arith, count_both-keep j i h l)

All-keep {κ} : (P : Entry → Type κ) (i : ℤ) (l : List Entry) → All P l → All P (keep (other_id i) l)
All-keep P i [] a = tt
All-keep P i (e ∷ l) a = ground (arith, All-keep P i l a.1)

module _ {F : Type 0} where
  pub entries-append :
      (l : List (PendingBlock F)) (pb : PendingBlock F)
      → entries (l ++ pb ∷ []) ≡ entries l ++ (pb.id, pb.hit.hash_str) ∷ []
  entries-append [] pb = refl
  entries-append (x ∷ l) pb = ap (◌∷◌ (x.id, x.hit.hash_str)) (entries-append l pb)

  pub entries-keep :
      (i : ℤ) (l : List (PendingBlock F))
      → entries (keep (λ pb. not (pb.id ==ℤ i)) l) ≡ keep (other_id i) (entries l)
  entries-keep i [] = refl
  entries-keep i (x ∷ l) = ground (arith, entries-keep i l)

  pub entries-set_reason :
      (r : Text) (i : ℤ) (l : List (PendingBlock F))
      → entries (update_first (set_reason r) i l) ≡ entries l
  unfolding update_first
  entries-set_reason r i [] = refl
  entries-set_reason r i (x ∷ l) = ground (arith, entries-set_reason r i l)

  entries-set_forwarded :
      (i : ℤ) (l : List (PendingBlock F)) → entries (update_first set_forwarded i l) ≡ entries l
  unfolding update_first
  entries-set_forwarded i [] = refl
  entries-set_forwarded i (x ∷ l) = ground (arith, entries-set_forwarded i l)

  pub entries-forward_all :
      (is : List ℤ) (l : List (PendingBlock F)) → entries (forward_all is l) ≡ entries l
  unfolding forward_all
  entries-forward_all [] l = refl
  entries-forward_all (i ∷ is) l =
      entries-forward_all is (update_first set_forwarded i l) ∙ entries-set_forwarded i l

  pub entries-deferred :
      (m : ℕ) (l : List (PendingBlock F)) → entries (map (deferred m) l) ≡ entries l
  unfolding deferred
  entries-deferred m [] = refl
  entries-deferred m (x ∷ l) = ground (arith, entries-deferred m l)

  pub mem_text-unindex_matches :
      (i : ℤ) (h : Text) (l : List (PendingBlock F)) (index : List Text)
      → is_empty h ≡ false
      → mem_text h (unindex_matches i l index)
        ≡ (mem_text h index && not (leb 1 (count_both i h (entries l))))
  unfolding unindex_matches count_both
  mem_text-unindex_matches i h [] index ne = ground arith
  mem_text-unindex_matches i h (x ∷ l) index ne = ground (
    arith,
    mem_text-unindex_matches i h l (unindex_hit x.hit.hash_str index) ne,
    mem_text-unindex_matches i h l index ne,
    mem_text-unindex_hit h x.hit.hash_str index ne,
  )

  mem_text_empty-unindex :
      (i : ℤ) (h : Text) (l : List (PendingBlock F)) (index : List Text)
      → mem_text h index ≡ false
      → mem_text h (unindex_matches i l index) ≡ false
  unfolding unindex_matches unindex_hit
  mem_text_empty-unindex i h [] index a = a
  mem_text_empty-unindex i h (x ∷ l) index a = ground (
    arith,
    mem_text_empty-unindex i h l (unindex_hit x.hit.hash_str index),
    mem_text_empty-unindex i h l index a,
    mem_text-erase_hash h x.hit.hash_str index,
  )

  -- Removing an id keeps the invariant.
  pub remove-WellIndexed :
      (i : ℤ) (l : List (PendingBlock F)) (index : List Text) (next : ℤ)
      → WellIndexed (entries l) index next
      → WellIndexed (keep (other_id i) (entries l)) (unindex_matches i l index) next
  remove-WellIndexed i l index next w = record {
    ids_unique = λ j. omega (arith, count_id-keep i j (entries l), w.ids_unique j);
    ids_fresh = All-keep _ i (entries l) w.ids_fresh;
    next_positive = w.next_positive;
    hashes_unique = λ h ne. omega (arith, count_hash-keep i h (entries l), w.hashes_unique h ne);
    index_exact = exact;
  }
    where
      exact :
          (h : Text)
          → mem_text h (unindex_matches i l index)
            ≡ (not (is_empty h) && leb 1 (count_hash h (keep (other_id i) (entries l))))
      exact h = ground (
        arith,
        w.index_exact h,
        w.hashes_unique h,
        count_hash-keep i h (entries l),
        mem_text-unindex_matches i h l index,
        mem_text_empty-unindex i h l index,
      )

-- Appending an entry whose digest is not indexed, under an id that is not taken.
pub append-WellIndexed :
    (l : List Entry) (index : List Text) (next next' : ℤ) (e : Entry)
    → WellIndexed l index next
    → is_indexed e.1 index ≡ false
    → count_id e.0 l ≡ 0
    → pos 1 ≤ℤ e.0
    → e.0 <ℤ next'
    → next ≤ℤ next'
    → WellIndexed (l ++ e ∷ []) (index_hit e.1 index) next'
unfolding count_id count_hash is_indexed index_hit
append-WellIndexed l index next next' e w new free low high grow = record {
  ids_unique = λ j. ground (arith, count_id-append j l e, w.ids_unique j, ==ℤ→eq e.0 j, free);
  ids_fresh = All-append _ l (e ∷ []) (raise l w.ids_fresh) ((low, high), tt);
  next_positive = omega (arith, w.next_positive);
  hashes_unique = λ h ne.
      ground
        (arith, count_hash-append h l e, w.hashes_unique h ne, text_eq_iff e.1 h, w.index_exact h);
  index_exact = λ h. ground (
    arith,
    count_hash-append h l e,
    w.index_exact h,
    text_eq_iff e.1 h,
    mem_text-insert_hash h e.1 index,
  );
}
  where
    raise :
        (m : List Entry)
        → All (λ d. (pos 1 ≤ℤ d.0) × (d.0 <ℤ next)) m
        → All (λ d. (pos 1 ≤ℤ d.0) × (d.0 <ℤ next')) m
    raise [] a = tt
    raise (d ∷ m) a = ((a.0.0, omega arith), raise m a.1)
