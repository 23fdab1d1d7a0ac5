-- ===== src/Queue/Store.antt =====
-- src/queue/store.cpp: the block store. The mutex makes each method one step, so a method is a
-- function of the store. The files are part of the state: the database as its last document, the
-- two logs as the documents of their lines. The clock is an argument, as text or as a minute.
pub mod Invariant
pub mod Methods
pub mod Effects
pub mod Codecs
pub mod Batch
pub mod Load
use x1miner.Base.{
  ℕ, suc, ◌+◌, Bool, true, false, not, ◌&&◌, ◌||◌, Option, none, some, List, [], ◌∷◌, ◌++◌, map,
  ltb, leb, if◌then◌else◌, length, keep, any, value_or,
}
use x1miner.Base.Int.{ℤ, pos, ◌+ℤ◌, ◌<ℤ?◌, ◌≤ℤ?◌, ◌==ℤ◌}
use x1miner.Base.Text.{Text, codes, text_eq, is_empty, mem_text}
use x1miner.Common.{BlockHit}
use x1miner.Common.Json.{JsonLib}
use x1miner.Queue.Codec.{PendingBlock, block_to_json, hit_fields}
use x1miner.Queue.Policy.{in_xuni_submit_window}

-- The three files.
pub record Disk (Doc : Type 0) : Type 0 where
  pub db : Option Doc
  pub jsonl : List Doc
  pub rejected : List Doc

pub record BlockStore (F Doc : Type 0) : Type 0 where
  pub pending : List (PendingBlock F)
  pub hash_index : List Text
  pub next_id : ℤ
  pub dirty_ops : ℕ
  pub disk : Disk Doc

abbrev pub save_every_ops : ℕ
save_every_ops = 8

-- The reasons of src/queue/policy.hpp and of the callers.
abbrev pub outside_xuni_window_reason : Text
outside_xuni_window_reason = codes "outside_xuni_window"

abbrev pub shutdown_pending_reason : Text
shutdown_pending_reason = codes "shutdown_pending"

-- `hash_index_.insert(h)` and `hash_index_.erase(h)` on the set of digests.
unfoldable pub insert_hash : Text → List Text → List Text
insert_hash h index = if mem_text h index then index else h ∷ index

unfoldable pub erase_hash : Text → List Text → List Text
erase_hash h [] = []
erase_hash h (t ∷ index) = let rest = erase_hash h index in if text_eq t h then rest else t ∷ rest

-- An empty digest is never indexed.
unfoldable pub index_hit : Text → List Text → List Text
unfolding insert_hash
index_hit h index = if is_empty h then index else insert_hash h index

unfoldable pub unindex_hit : Text → List Text → List Text
unfolding erase_hash
unindex_hit h index = if is_empty h then index else erase_hash h index

unfoldable pub is_indexed : Text → List Text → Bool
is_indexed h index = not (is_empty h) && mem_text h index

module _ {F : Type 0} where
  -- `remove_if` with the predicate's side effect on the index.
  unfoldable pub unindex_matches : ℤ → List (PendingBlock F) → List Text → List Text
  unfolding unindex_hit
  unindex_matches id [] index = index
  unindex_matches id (pb ∷ rest) index =
      unindex_matches id rest (if pb.id ==ℤ id then unindex_hit pb.hit.hash_str index else index)

  -- A write to the first block with the id, if there is one.
  unfoldable pub update_first :
      (PendingBlock F → PendingBlock F) → ℤ → List (PendingBlock F) → List (PendingBlock F)
  update_first f id [] = []
  update_first f id (pb ∷ rest) =
      let later = update_first f id rest in if pb.id ==ℤ id then f pb ∷ rest else pb ∷ later

  abbrev pub set_reason : Text → PendingBlock F → PendingBlock F
  set_reason reason pb = record pb { queue_reason = reason }

  abbrev pub set_forwarded : PendingBlock F → PendingBlock F
  set_forwarded pb = record pb { forwarded = true }

  unfoldable pub forward_all : List ℤ → List (PendingBlock F) → List (PendingBlock F)
  unfolding update_first
  forward_all [] pending = pending
  forward_all (id ∷ ids) pending = forward_all ids (update_first set_forwarded id pending)

  -- `value_or(default_m > 0 ? default_m : m)`
  unfoldable pub hit_m : ℤ → ℤ → PendingBlock F → ℤ
  hit_m default_m m pb = value_or pb.hit.memory_cost (if pos 0 <ℤ? default_m then default_m else m)

  unfoldable pub deferred : ℕ → PendingBlock F → PendingBlock F
  unfolding in_xuni_submit_window
  deferred minute pb =
      if text_eq pb.hit.block_type (codes "XUNI") && not (in_xuni_submit_window minute)
      then set_reason outside_xuni_window_reason pb
      else set_reason shutdown_pending_reason pb

  -- The kind under which `pending_by_type` counts a block.
  unfoldable pub type_key : PendingBlock F → Text
  type_key pb =
      let k = pb.hit.block_type in
      if not (text_eq k (codes "XUNI")) && not (text_eq k (codes "XBLK")) then codes "XNM" else k

  unfoldable pub is_counted : Bool → PendingBlock F → Bool
  is_counted resubmission_only pb = not (
      resubmission_only
      && not (text_eq pb.queue_reason (codes "resubmission"))
      && not (text_eq pb.queue_reason (codes "parked")))

  unfoldable pub unforwarded_from :
      ℤ → List (PendingBlock F) → List (PendingBlock F) → List (PendingBlock F)
  unforwarded_from limit [] out = out
  unforwarded_from limit (pb ∷ rest) out =
      let out' = out ++ pb ∷ [] in
      let go = unforwarded_from limit rest out' in
      let skip = unforwarded_from limit rest out in
      if pb.forwarded
      then skip
      else if (pos 0 <ℤ? limit) && (limit ≤ℤ? pos (length out'))
      then out'
      else go

module _ {F Doc : Type 0} where
  unfoldable pub pending_count : BlockStore F Doc → ℕ
  pending_count s = length s.pending

  unfoldable pub pending_matching_m : BlockStore F Doc → ℤ → ℤ → ℕ
  unfolding hit_m
  pending_matching_m s m default_m = length (keep (λ pb. hit_m default_m m pb ==ℤ m) s.pending)

  unfoldable pub pending_eligible_m : BlockStore F Doc → ℤ → ℤ → ℕ
  unfolding hit_m
  pending_eligible_m s net_m default_m =
      length (keep (λ pb. net_m ≤ℤ? hit_m default_m net_m pb) s.pending)

  -- The count that `pending_by_type` gives for one key.
  unfoldable pub pending_by_type : BlockStore F Doc → Bool → Text → ℕ
  unfolding type_key is_counted
  pending_by_type s resubmission_only k =
      length (keep (λ pb. is_counted resubmission_only pb && text_eq (type_key pb) k) s.pending)

  unfoldable pub list_pending : BlockStore F Doc → List (PendingBlock F)
  list_pending s = s.pending

  unfoldable pub list_unforwarded : BlockStore F Doc → ℤ → List (PendingBlock F)
  unfolding unforwarded_from
  list_unforwarded s limit = unforwarded_from limit s.pending []

module _ {F : Type 0} (J : JsonLib F) where
  open J use {Json, Doc, dump, prints, object, array, text, int}

  -- The document that `save_db_unlocked` writes.
  unfoldable pub db_json : BlockStore F Doc → Json
  db_json s = object (
      (codes "next_id", int s.next_id)
      ∷ (codes "pending", array (map (block_to_json J) s.pending))
      ∷ [])

  unfoldable pub save_db_unlocked : BlockStore F Doc → BlockStore F Doc
  save_db_unlocked s = record s {
    dirty_ops = 0;
    disk = record {
      db = some (dump (db_json s));
      jsonl = s.disk.jsonl;
      rejected = s.disk.rejected;
    };
  }

  unfoldable pub mark_dirty_unlocked : BlockStore F Doc → BlockStore F Doc
  mark_dirty_unlocked s = record s { dirty_ops = s.dirty_ops + 1 }

  unfoldable pub maybe_save_unlocked : BlockStore F Doc → BlockStore F Doc
  unfolding save_db_unlocked
  maybe_save_unlocked s = if leb save_every_ops s.dirty_ops then save_db_unlocked s else s

  unfoldable pub flush : BlockStore F Doc → BlockStore F Doc
  unfolding save_db_unlocked
  flush s = if ltb 0 s.dirty_ops then save_db_unlocked s else s

  -- The line for a newly queued block; `now` is `now_iso_local()`.
  unfoldable pub queue_line : Text → PendingBlock F → Json
  queue_line now pb = object (
      hit_fields J pb.hit
      ++ (codes "queued_at", text now)
        ∷ (codes "reason", text pb.queue_reason)
        ∷ (codes "id", int pb.id)
        ∷ [])

  unfoldable pub append_queue_jsonl : Text → PendingBlock F → BlockStore F Doc → BlockStore F Doc
  append_queue_jsonl now pb s = record s {
    disk = record {
      db = s.disk.db;
      jsonl = s.disk.jsonl ++ dump (queue_line now pb) ∷ [];
      rejected = s.disk.rejected;
    };
  }

  unfoldable pub new_block : BlockStore F Doc → BlockHit F → Text → PendingBlock F
  new_block s hit reason = record {
    id = s.next_id;
    hit = hit;
    queue_reason = reason;
    reject_count = pos 0;
    forwarded = false;
  }

  -- The store once the block is in the list and the log, before the write-back.
  unfoldable pub push_block : Text → BlockStore F Doc → PendingBlock F → BlockStore F Doc
  unfolding append_queue_jsonl index_hit mark_dirty_unlocked
  push_block now s pb =
      let s1 : BlockStore F Doc = record s {
        next_id = s.next_id +ℤ pos 1;
        hash_index = index_hit pb.hit.hash_str s.hash_index;
      } in
      let s2 = append_queue_jsonl now pb s1 in
      mark_dirty_unlocked (record s2 { pending = s2.pending ++ pb ∷ [] })

  -- `enqueue`, which passes `write_jsonl = true` to `enqueue_unlocked`. The result is the new id,
  -- or 0 for a digest that is already there.
  unfoldable pub enqueue : Text → BlockStore F Doc → BlockHit F → Text → ℤ × BlockStore F Doc
  unfolding push_block maybe_save_unlocked is_indexed new_block
  enqueue now s hit reason =
      if is_indexed hit.hash_str s.hash_index
      then (pos 0, s)
      else (s.next_id, maybe_save_unlocked (push_block now s (new_block s hit reason)))

  unfoldable pub mark_forwarded_many : BlockStore F Doc → List ℤ → BlockStore F Doc
  unfolding save_db_unlocked mark_dirty_unlocked forward_all
  mark_forwarded_many s [] = s
  mark_forwarded_many s (id ∷ ids) =
      save_db_unlocked
        (mark_dirty_unlocked (record s { pending = forward_all (id ∷ ids) s.pending }))

  -- The store once the record is in the file.
  unfoldable pub append_rejection :
      Text → BlockStore F Doc → BlockHit F → ℤ → Text → Text → BlockStore F Doc
  append_rejection now s hit http_status body source = record s {
    disk = record {
      db = s.disk.db;
      jsonl = s.disk.jsonl;
      rejected =
          s.disk.rejected
          ++ dump (
              object (
                hit_fields J hit
                ++ (codes "rejected_at", text now)
                  ∷ (codes "http_status", int http_status)
                  ∷ (codes "response_body", text body)
                  ∷ (codes "source", text source)
                  ∷ (codes "category", text (codes "resubmission"))
                  ∷ []))
            ∷ [];
    };
  }

  -- `none` when `dump` throws. The other texts of the record are UTF-8 (constants, and those of a hit
  -- that was made here or read from a JSON file), so it prints just when the answer's body does.
  unfoldable pub log_rejection :
      Text → BlockStore F Doc → BlockHit F → ℤ → Text → Text → Option (BlockStore F Doc)
  unfolding append_rejection
  log_rejection now s hit http_status body source =
      if prints (text body) then some (append_rejection now s hit http_status body source) else none

  unfoldable pub record_direct_submit : BlockStore F Doc → BlockHit F → ℤ → Text → BlockStore F Doc
  record_direct_submit s hit http_status body = s

  -- `none` when the log throws, before the block is queued.
  unfoldable pub record_rejection :
      Text
      → BlockStore F Doc
      → BlockHit F
      → ℤ
      → Text
      → Text
      → Text
      → Option (Bool × BlockStore F Doc)
  unfolding log_rejection enqueue
  record_rejection now s hit http_status body source reason =
      elim (log_rejection now s hit http_status body source)
        as (λ _. Option (Bool × BlockStore F Doc)) [
          | none ↦ none
          | some logged ↦ some (true, (enqueue now logged hit reason).1)
        ]

  -- One round of the loop of `mark_submitted_many`.
  unfoldable pub remove_id : ℤ → BlockStore F Doc → BlockStore F Doc
  unfolding unindex_matches
  remove_id id s = record s {
    pending = keep (λ pb. not (pb.id ==ℤ id)) s.pending;
    hash_index = unindex_matches id s.pending s.hash_index;
  }

  unfoldable pub remove_ids : List ℤ → BlockStore F Doc → BlockStore F Doc
  unfolding remove_id
  remove_ids [] s = s
  remove_ids (id ∷ ids) s = remove_ids ids (remove_id id s)

  unfoldable pub mark_submitted_many : BlockStore F Doc → List ℤ → BlockStore F Doc
  unfolding save_db_unlocked mark_dirty_unlocked remove_ids
  mark_submitted_many s [] = s
  mark_submitted_many s (id ∷ ids) =
      save_db_unlocked (mark_dirty_unlocked (remove_ids (id ∷ ids) s))

  unfoldable pub mark_submitted : BlockStore F Doc → ℤ → ℤ → Text → BlockStore F Doc
  unfolding mark_submitted_many
  mark_submitted s id http_status body = mark_submitted_many s (id ∷ [])

  unfoldable pub mark_pending_reason : BlockStore F Doc → ℤ → Text → BlockStore F Doc
  unfolding mark_dirty_unlocked maybe_save_unlocked update_first
  mark_pending_reason s id reason =
      maybe_save_unlocked
        (mark_dirty_unlocked (record s { pending = update_first (set_reason reason) id s.pending }))

  unfoldable pub defer_all_to_next_start : ℕ → BlockStore F Doc → BlockStore F Doc
  unfolding save_db_unlocked mark_dirty_unlocked deferred
  defer_all_to_next_start minute s =
      save_db_unlocked
        (mark_dirty_unlocked (record s { pending = map (deferred minute) s.pending }))
