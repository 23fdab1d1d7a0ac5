-- ===== src/Queue/Store/Effects.antt =====
-- src/queue/store.cpp: what single calls do to the pending blocks, the index and the files.
use x1miner.Base.{
  ◌<◌, ◌≡◌, refl, ap, ◌∙◌, sym, ◌⊎◌, inl, inr, true, false, not, some, List, [], ◌∷◌, ◌++◌, arith,
  ltb, leb, keep, any, Bool-cases,
}
use x1miner.Base.Int.{ℤ, pos, ◌+ℤ◌, ◌==ℤ◌}
use x1miner.Base.Text.{Text, text_eq_iff, is_empty, mem_text}
use x1miner.Common.{BlockHit}
use x1miner.Common.Json.{JsonLib}
use x1miner.Queue.Codec.{PendingBlock}
use x1miner.Queue.Store.{
  BlockStore, Disk, save_every_ops, is_indexed, index_hit, enqueue, push_block, new_block,
  append_rejection, remove_id, remove_ids, mark_submitted_many, mark_pending_reason,
  mark_forwarded_many, defer_all_to_next_start, flush, save_db_unlocked, maybe_save_unlocked,
  mark_dirty_unlocked, db_json, queue_line, update_first, set_reason,
}
use x1miner.Queue.Store.Invariant.{mem_text-insert_hash}
use x1miner.Queue.Store.Methods.{StoreCall, step, run, record_rejection_cases}

module _ {F : Type 0} (J : JsonLib F) where
  open J use {Doc, dump}

  -- Saving writes no other part of the memory.
  maybe_save_keeps :
      (s : BlockStore F Doc)
      → let t = maybe_save_unlocked J s in
        (t.pending ≡ s.pending)
        × (t.hash_index ≡ s.hash_index)
        × (t.next_id ≡ s.next_id)
        × (t.disk.jsonl ≡ s.disk.jsonl)
  unfolding maybe_save_unlocked
  maybe_save_keeps s = elim (Bool-cases (leb save_every_ops s.dirty_ops)) [
    | inl e ↦ rw (e, maybe_save_unlocked) (refl, refl, refl, refl)
    | inr e ↦ rw (e, maybe_save_unlocked) (refl, refl, refl, refl)
  ]

  -- A hit whose digest is already bagged changes nothing and gets the id 0. Any other hit gets the
  -- next id, goes to the end of the list, unsent and with its reason, and is logged as the last
  -- line of the jsonl file.
  pub enqueue_cases :
      (now : Text) (s : BlockStore F Doc) (hit : BlockHit F) (reason : Text)
      → ((is_indexed hit.hash_str s.hash_index ≡ true) × (enqueue J now s hit reason ≡ (pos 0, s)))
        ⊎ (let (id, t) = enqueue J now s hit reason in
            (is_indexed hit.hash_str s.hash_index ≡ false)
            × (id ≡ s.next_id)
            × (t.pending ≡ s.pending ++ new_block J s hit reason ∷ [])
            × (t.next_id ≡ s.next_id +ℤ pos 1)
            × (t.disk.jsonl
                ≡ s.disk.jsonl ++ dump (queue_line J now (new_block J s hit reason)) ∷ [])
            × ((h : Text)
                → mem_text h t.hash_index ≡ mem_text h (index_hit hit.hash_str s.hash_index)))
  unfolding enqueue
  enqueue_cases now s hit reason = elim (Bool-cases (is_indexed hit.hash_str s.hash_index)) [
    | inl e ↦ inl (e, rw (e, enqueue))
    | inr e ↦
        let (p, x, n, j) = maybe_save_keeps (push_block J now s (new_block J s hit reason)) in
        inr (
          e,
          rw (e, enqueue),
          rw (e, enqueue) p,
          rw (e, enqueue) n,
          rw (e, enqueue) j,
          λ h. rw (e, enqueue) (ap (mem_text h) x),
        )
  ]

  pub indexed_after_enqueue :
      (now : Text) (s : BlockStore F Doc) (hit : BlockHit F) (reason : Text)
      → is_empty hit.hash_str ≡ false
      → is_indexed hit.hash_str (enqueue J now s hit reason).1.hash_index ≡ true
  unfolding is_indexed index_hit
  indexed_after_enqueue now s hit reason ne = elim (enqueue_cases now s hit reason) [
    | inl (old, e) ↦ rw e old
    | inr (new, _, _, _, _, x) ↦ rw (
      x hit.hash_str,
      ne,
      mem_text-insert_hash hit.hash_str hit.hash_str s.hash_index,
      (text_eq_iff hit.hash_str hit.hash_str).1 refl,
    )
  ]

  -- Once a hit with a digest was bagged, another hit with that digest is refused, whatever else it
  -- holds: it gets the id 0 and the store stays as it was.
  pub enqueue_twice :
      (now later : Text) (s : BlockStore F Doc) (hit twin : BlockHit F) (reason why : Text)
      → is_empty hit.hash_str ≡ false
      → twin.hash_str ≡ hit.hash_str
      → let t = (enqueue J now s hit reason).1 in enqueue J later t twin why ≡ (pos 0, t)
  unfolding enqueue
  enqueue_twice now later s hit twin reason why ne same =
      rw (same, indexed_after_enqueue now s hit reason ne)

  remove_ids_keeps :
      (ids : List ℤ) (s : BlockStore F Doc)
      → let t = remove_ids J ids s in
        (t.pending ≡ keep (λ pb. not (any (λ i. pb.id ==ℤ i) ids)) s.pending)
        × (t.disk ≡ s.disk)
        × (t.next_id ≡ s.next_id)
  unfolding remove_ids
  remove_ids_keeps [] s = (sym (keep_all s.pending), refl, refl)
    where
      keep_all : (l : List (PendingBlock F)) → keep (λ pb. true) l ≡ l
      keep_all [] = refl
      keep_all (x ∷ l) = ap (◌∷◌ x) (keep_all l)
  remove_ids_keeps (id ∷ ids) s =
      let (p, d, n) = remove_ids_keeps ids (remove_id J id s) in (p ∙ keep_twice s.pending, d, n)
    where
      keep_twice :
          (l : List (PendingBlock F))
          → keep (λ pb. not (any (λ i. pb.id ==ℤ i) ids)) (keep (λ pb. not (pb.id ==ℤ id)) l)
            ≡ keep (λ pb. not (any (λ i. pb.id ==ℤ i) (id ∷ ids))) l
      keep_twice [] = refl
      keep_twice (x ∷ l) = ground (arith, keep_twice l)

  -- A flush wave removes exactly the blocks with the given ids, keeps the others in their order,
  -- and leaves the jsonl log and `next_id_` alone.
  pub submitted_removes :
      (s : BlockStore F Doc) (ids : List ℤ)
      → let t = mark_submitted_many J s ids in
        (t.pending ≡ keep (λ pb. not (any (λ i. pb.id ==ℤ i) ids)) s.pending)
        × (t.disk.jsonl ≡ s.disk.jsonl)
        × (t.next_id ≡ s.next_id)
  unfolding mark_submitted_many
  submitted_removes s [] =
      let (p, d, n) = remove_ids_keeps [] s in (unfold remove_ids in p, refl, refl)
  submitted_removes s (id ∷ ids) =
      let (p, d, n) = remove_ids_keeps (id ∷ ids) s in (p, ap (λ (k : Disk Doc). k.jsonl) d, n)

  -- The database file says what is in memory, unless changes are still counted as unsaved.
  abbrev pub IsSynced : BlockStore F Doc → Type 0
  IsSynced s = s.dirty_ops ≡ 0 → s.disk.db ≡ some (dump (db_json J s))

  pub save-IsSynced : (s : BlockStore F Doc) → IsSynced (save_db_unlocked J s)
  unfolding save_db_unlocked db_json
  save-IsSynced s _ = refl

  dirty_save-IsSynced :
      (s : BlockStore F Doc) → 0 < s.dirty_ops → IsSynced (maybe_save_unlocked J s)
  unfolding maybe_save_unlocked
  dirty_save-IsSynced s h = elim (Bool-cases (leb save_every_ops s.dirty_ops)) [
    | inl e ↦ rw (e, maybe_save_unlocked) (save-IsSynced s)
    | inr e ↦ rw (e, maybe_save_unlocked) (λ z. absurd (omega arith))
  ]

  enqueue-IsSynced :
      (now : Text) (s : BlockStore F Doc) (hit : BlockHit F) (reason : Text)
      → IsSynced s
      → IsSynced (enqueue J now s hit reason).1
  unfolding enqueue
  enqueue-IsSynced now s hit reason v = elim (Bool-cases (is_indexed hit.hash_str s.hash_index)) [
    | inl e ↦ rw (e, enqueue) v
    | inr e ↦
        rw (e, enqueue)
          (dirty_save-IsSynced (push_block J now s (new_block J s hit reason))
            (unfold push_block in omega arith))
  ]

  step-IsSynced : (s : BlockStore F Doc) (c : StoreCall F) → IsSynced s → IsSynced (step J s c)
  unfolding step
  step-IsSynced s (StoreCall.enqueues now hit reason) v = enqueue-IsSynced now s hit reason v
  step-IsSynced s (StoreCall.rejects now hit status body source reason) v =
      elim (record_rejection_cases J now s hit status body source reason) [
        | inl e ↦ rw (e, step) v
        | inr e ↦
            rw (e, step)
              (enqueue-IsSynced now (append_rejection J now s hit status body source) hit reason
                (unfold append_rejection db_json in v))
      ]
  step-IsSynced s (StoreCall.submits []) v = unfold mark_submitted_many in v
  step-IsSynced s (StoreCall.submits (id ∷ ids)) v = unfold mark_submitted_many in save-IsSynced _
  step-IsSynced s (StoreCall.gives_reason id reason) v =
      unfold mark_pending_reason in
      dirty_save-IsSynced
        (mark_dirty_unlocked J
          (record s { pending = update_first (set_reason reason) id s.pending }))
        (unfold mark_dirty_unlocked in omega arith)
  step-IsSynced s (StoreCall.forwards []) v = unfold mark_forwarded_many in v
  step-IsSynced s (StoreCall.forwards (id ∷ ids)) v = unfold mark_forwarded_many in save-IsSynced _
  step-IsSynced s (StoreCall.defers minute) v = unfold defer_all_to_next_start in save-IsSynced _
  step-IsSynced s StoreCall.flushes v = elim (Bool-cases (ltb 0 s.dirty_ops)) [
    | inl e ↦ unfold flush in rw (e, flush) (save-IsSynced s)
    | inr e ↦ unfold flush in rw (e, flush) v
  ]

  run-IsSynced :
      (s : BlockStore F Doc) (cs : List (StoreCall F)) → IsSynced s → IsSynced (run J s cs)
  unfolding run
  run-IsSynced s [] v = v
  run-IsSynced s (c ∷ cs) v = run-IsSynced (step J s c) cs (step-IsSynced s c v)

  flush-clean : (s : BlockStore F Doc) → (flush J s).dirty_ops ≡ 0
  unfolding flush
  flush-clean s = ground arith

  -- After any calls on a store whose database file is current, `flush` leaves a file that holds
  -- exactly the pending blocks and the next id that the store has in memory.
  pub flush-run_synced :
      (s : BlockStore F Doc) (cs : List (StoreCall F))
      → IsSynced s
      → let t = flush J (run J s cs) in
        (t.disk.db ≡ some (dump (db_json J t)))
        × (t.dirty_ops ≡ 0)
        × (t.pending ≡ (run J s cs).pending)
  unfolding step flush
  flush-run_synced s cs v = (
    step-IsSynced (run J s cs) StoreCall.flushes (run-IsSynced s cs v) (flush-clean (run J s cs)),
    flush-clean (run J s cs),
    keeps (run J s cs),
  )
    where
      keeps : (t : BlockStore F Doc) → (flush J t).pending ≡ t.pending
      keeps t = unfold flush in ground arith
