-- ===== src/Queue/Store/Methods.antt =====
-- The methods of src/queue/store.cpp over any sequence of calls.
use x1miner.Base.{
  ℕ, ◌<◌, ◌≡◌, ◌⊎◌, refl, inl, inr, true, false, none, some, List, [], ◌∷◌, arith, ltb, leb,
  Bool-cases,
}
use x1miner.Base.Int.{ℤ, pos, +ℤ_parts}
use x1miner.Base.Text.{Text}
use x1miner.Common.{BlockHit}
use x1miner.Common.Json.{JsonLib}
use x1miner.Queue.Store.{
  BlockStore, save_every_ops, is_indexed, enqueue, push_block, new_block, record_rejection,
  log_rejection, append_rejection, remove_id, remove_ids, mark_submitted_many, mark_pending_reason,
  mark_forwarded_many, defer_all_to_next_start, flush, maybe_save_unlocked, mark_dirty_unlocked,
  update_first, set_reason,
}
use x1miner.Queue.Store.Invariant.{
  WellIndexed, entries, entries-append, entries-keep, entries-set_reason, entries-forward_all,
  entries-deferred, remove-WellIndexed, append-WellIndexed, count_id_fresh,
}

pub record IsValid {F Doc : Type 0} (s : BlockStore F Doc) : Type 0 where
  pub indexed : WellIndexed (entries s.pending) s.hash_index s.next_id
  pub written_back : s.dirty_ops < save_every_ops

-- The calls that change the store, with the time at which they are made.
pub data StoreCall (F : Type 0) : Type 0 where
  enqueues : Text → BlockHit F → Text → StoreCall F
  rejects : Text → BlockHit F → ℤ → Text → Text → Text → StoreCall F
  submits : List ℤ → StoreCall F
  gives_reason : ℤ → Text → StoreCall F
  forwards : List ℤ → StoreCall F
  defers : ℕ → StoreCall F
  flushes : StoreCall F

module _ {F : Type 0} (J : JsonLib F) where
  open J use {Doc, dump}

  -- The store after a call; a throw leaves it as it was.
  unfoldable pub step : BlockStore F Doc → StoreCall F → BlockStore F Doc
  step s (StoreCall.enqueues now hit reason) = (enqueue J now s hit reason).1
  step s (StoreCall.rejects now hit status body source reason) =
      elim (record_rejection J now s hit status body source reason) as (λ _. BlockStore F Doc) [
        | none ↦ s
        | some (_, t) ↦ t
      ]
  step s (StoreCall.submits ids) = mark_submitted_many J s ids
  step s (StoreCall.gives_reason id reason) = mark_pending_reason J s id reason
  step s (StoreCall.forwards ids) = mark_forwarded_many J s ids
  step s (StoreCall.defers minute) = defer_all_to_next_start J minute s
  step s StoreCall.flushes = flush J s

  unfoldable pub run : BlockStore F Doc → List (StoreCall F) → BlockStore F Doc
  run s [] = s
  run s (c ∷ cs) = run (step s c) cs

  -- `dump` throws, or the log is written.
  pub log_rejection_cases :
      (now : Text) (s : BlockStore F Doc) (hit : BlockHit F) (status : ℤ) (body source : Text)
      → (log_rejection J now s hit status body source ≡ none)
        ⊎ (log_rejection J now s hit status body source
            ≡ some (append_rejection J now s hit status body source))
  unfolding log_rejection
  log_rejection_cases now s hit status body source = elim (Bool-cases (J.prints (J.text body))) [
    | inl e ↦ rw e (inr refl)
    | inr e ↦ rw e (inl refl)
  ]

  pub record_rejection_prints :
      (now : Text) (s : BlockStore F Doc) (hit : BlockHit F) (status : ℤ)
      (body source reason : Text)
      → J.prints (J.text body) ≡ true
      → record_rejection J now s hit status body source reason
        ≡ some
            (true, (enqueue J now (append_rejection J now s hit status body source) hit reason).1)
  unfolding record_rejection log_rejection
  record_rejection_prints now s hit status body source reason e = rw (e, record_rejection) refl

  pub record_rejection_cases :
      (now : Text) (s : BlockStore F Doc) (hit : BlockHit F) (status : ℤ)
      (body source reason : Text)
      → (record_rejection J now s hit status body source reason ≡ none)
        ⊎ (record_rejection J now s hit status body source reason
            ≡ some (
              true,
              (enqueue J now (append_rejection J now s hit status body source) hit reason).1,
            ))
  unfolding record_rejection
  record_rejection_cases now s hit status body source reason =
      elim (log_rejection_cases now s hit status body source) [
        | inl e ↦ rw (e, record_rejection) (inl refl)
        | inr e ↦ rw (e, record_rejection) (inr refl)
      ]

  pub append_rejection-IsValid :
      (now : Text) (s : BlockStore F Doc) (hit : BlockHit F) (status : ℤ) (body source : Text)
      → IsValid s
      → IsValid (append_rejection J now s hit status body source)
  unfolding append_rejection
  append_rejection-IsValid now s hit status body source v = record {
    indexed = v.indexed;
    written_back = v.written_back;
  }

  -- A new block is appended, indexed and logged under the next id.
  push_block-WellIndexed :
      (now : Text) (s : BlockStore F Doc) (hit : BlockHit F) (reason : Text)
      → WellIndexed (entries s.pending) s.hash_index s.next_id
      → is_indexed hit.hash_str s.hash_index ≡ false
      → let t = push_block J now s (new_block J s hit reason) in
        WellIndexed (entries t.pending) t.hash_index t.next_id
  unfolding push_block new_block
  push_block-WellIndexed now s hit reason w new = rw entries-append (
      append-WellIndexed (entries s.pending) s.hash_index s.next_id _ (s.next_id, hit.hash_str) w
        new (count_id_fresh s.next_id s.next_id (entries s.pending) w.ids_fresh (omega arith))
        w.next_positive (omega (arith, +ℤ_parts s.next_id (pos 1)))
        (omega (arith, +ℤ_parts s.next_id (pos 1))))

  maybe_save-IsValid :
      (s : BlockStore F Doc)
      → WellIndexed (entries s.pending) s.hash_index s.next_id
      → IsValid (maybe_save_unlocked J s)
  unfolding maybe_save_unlocked
  maybe_save-IsValid s w = elim (Bool-cases (leb save_every_ops s.dirty_ops)) [
    | inl e ↦ rw (e, maybe_save_unlocked) (record { indexed = w; written_back = omega arith })
    | inr e ↦ rw (e, maybe_save_unlocked) (record { indexed = w; written_back = ground arith })
  ]

  pub enqueue-IsValid :
      (now : Text) (s : BlockStore F Doc) (hit : BlockHit F) (reason : Text)
      → IsValid s
      → IsValid (enqueue J now s hit reason).1
  unfolding enqueue
  enqueue-IsValid now s hit reason v = elim (Bool-cases (is_indexed hit.hash_str s.hash_index)) [
    | inl e ↦ rw (e, enqueue) v
    | inr e ↦
        rw (e, enqueue)
          (maybe_save-IsValid (push_block J now s (new_block J s hit reason))
            (push_block-WellIndexed now s hit reason v.indexed e))
  ]

  remove_ids-WellIndexed :
      (ids : List ℤ) (s : BlockStore F Doc)
      → WellIndexed (entries s.pending) s.hash_index s.next_id
      → let t = remove_ids J ids s in WellIndexed (entries t.pending) t.hash_index t.next_id
  unfolding remove_ids
  remove_ids-WellIndexed [] s w = w
  remove_ids-WellIndexed (id ∷ ids) s w =
      remove_ids-WellIndexed ids (remove_id J id s)
        (rw (entries-keep id s.pending) (remove-WellIndexed id s.pending s.hash_index s.next_id w))

  submit-IsValid :
      (s : BlockStore F Doc) (ids : List ℤ) → IsValid s → IsValid (mark_submitted_many J s ids)
  unfolding mark_submitted_many
  submit-IsValid s [] v = v
  submit-IsValid s (id ∷ ids) v = record {
    indexed = remove_ids-WellIndexed (id ∷ ids) s v.indexed;
    written_back = omega arith;
  }

  forward-IsValid :
      (s : BlockStore F Doc) (ids : List ℤ) → IsValid s → IsValid (mark_forwarded_many J s ids)
  unfolding mark_forwarded_many
  forward-IsValid s [] v = v
  forward-IsValid s (id ∷ ids) v = record {
    indexed = rw (entries-forward_all (id ∷ ids) s.pending) v.indexed;
    written_back = omega arith;
  }

  flush-IsValid : (s : BlockStore F Doc) → IsValid s → IsValid (flush J s)
  unfolding flush
  flush-IsValid s v = elim (Bool-cases (ltb 0 s.dirty_ops)) [
    | inl e ↦ rw (e, flush) (record { indexed = v.indexed; written_back = omega arith })
    | inr e ↦ rw (e, flush) v
  ]

  pub step-IsValid : (s : BlockStore F Doc) (c : StoreCall F) → IsValid s → IsValid (step s c)
  unfolding step
  step-IsValid s (StoreCall.enqueues now hit reason) v = enqueue-IsValid now s hit reason v
  step-IsValid s (StoreCall.rejects now hit status body source reason) v =
      elim (record_rejection_cases now s hit status body source reason) [
        | inl e ↦ rw (e, step) v
        | inr e ↦
            rw (e, step)
              (enqueue-IsValid now (append_rejection J now s hit status body source) hit reason
                (append_rejection-IsValid now s hit status body source v))
      ]
  step-IsValid s (StoreCall.submits ids) v = submit-IsValid s ids v
  step-IsValid s (StoreCall.gives_reason id reason) v =
      unfold mark_pending_reason in
      maybe_save-IsValid
        (mark_dirty_unlocked J
          (record s { pending = update_first (set_reason reason) id s.pending }))
        (rw (entries-set_reason reason id s.pending) v.indexed)
  step-IsValid s (StoreCall.forwards ids) v = forward-IsValid s ids v
  step-IsValid s (StoreCall.defers minute) v =
      unfold defer_all_to_next_start in
      record {
        indexed = rw (entries-deferred minute s.pending) v.indexed;
        written_back = omega arith;
      }
  step-IsValid s StoreCall.flushes v = flush-IsValid s v

  -- Any sequence of calls on a valid store leaves it valid: ids stay distinct, positive and below
  -- `next_id_`, no digest is pending twice, the digest index holds exactly the digests that are
  -- pending, and fewer than eight changes wait for the write-back.
  pub run-IsValid :
      (s : BlockStore F Doc) (cs : List (StoreCall F)) → IsValid s → IsValid (run s cs)
  unfolding run
  run-IsValid s [] v = v
  run-IsValid s (c ∷ cs) v = run-IsValid (step s c) cs (step-IsValid s c v)
