-- ===== src/Queue/Store/Load.antt =====
-- src/queue/store.cpp: `load` and `recover_jsonl_unlocked`, which the constructor runs. `none` is
-- an exception that leaves the constructor.
pub mod Recovery
pub mod RoundTrip
pub mod Returns
use x1miner.Base.{
  ℕ, suc, Bool, true, false, not, ◌&&◌, ◌||◌, Option, none, some, List, [], ◌∷◌, ◌++◌, any,
  if◌then◌else◌,
}
use x1miner.Base.Int.{ℤ, pos, ◌+ℤ◌, ◌<ℤ?◌, ◌==ℤ◌, max_ℤ}
use x1miner.Base.Text.{Text, codes, is_empty, mem_text}
use x1miner.Common.{BlockHit}
use x1miner.Common.Json.{JsonLib}
use x1miner.Queue.Codec.{
  PendingBlock, ◌>>=◌, value_int, value_int64, value_text, hit_from_json, block_from_json, array_at,
}
use x1miner.Queue.Store.{BlockStore, Disk, index_hit, save_db_unlocked}

-- A block that was read joins the list.
unfoldable pub add_block : {F Doc : Type 0} → BlockStore F Doc → PendingBlock F → BlockStore F Doc
unfolding index_hit
add_block s pb = record s {
  pending = s.pending ++ pb ∷ [];
  hash_index = index_hit pb.hit.hash_str s.hash_index;
  next_id = max_ℤ s.next_id (pb.id +ℤ pos 1);
}

-- The id of a recovered block: its own, unless that is below 1 or taken.
unfoldable pub recover_id : {F Doc : Type 0} → BlockStore F Doc → ℤ → ℤ
recover_id s id =
    let id' = if id <ℤ? pos 1 then s.next_id else id in
    if any (λ existing. existing.id ==ℤ id') s.pending then s.next_id else id'

module _ {F : Type 0} (J : JsonLib F) (zero : F) where
  open J use {Json, Doc, parse, is_object}

  -- The loop over `root["pending"]`: `next_id_++` is evaluated for every item, and an item that
  -- throws ends the loop.
  unfoldable pub load_items : List Json → BlockStore F Doc → BlockStore F Doc
  unfolding add_block
  load_items [] s = s
  load_items (item ∷ rest) s =
      let s' : BlockStore F Doc = record s { next_id = s.next_id +ℤ pos 1 } in
      elim (block_from_json J zero s.next_id item) [
        | none ↦ s'
        | some pb ↦ load_items rest (add_block s' pb)
      ]

  unfoldable pub cleared : Disk Doc → BlockStore F Doc
  cleared disk = record {
    pending = [];
    hash_index = [];
    next_id = pos 1;
    dirty_ops = 0;
    disk = disk;
  }

  unfoldable pub load_root : Json → BlockStore F Doc → BlockStore F Doc
  unfolding load_items
  load_root root s = elim (value_int J root (codes "next_id") (pos 1)) [
    | none ↦ s
    | some n ↦
        let s' : BlockStore F Doc = record s { next_id = n } in
        elim (array_at J root (codes "pending")) [ none ↦ s' | some l ↦ load_items l s' ]
  ]

  -- The part of `load` under `try`.
  unfoldable pub load_db : Disk Doc → BlockStore F Doc
  unfolding cleared load_root
  load_db disk = elim disk.db [
    | none ↦ cleared disk
    | some doc ↦ elim (parse doc) [
      | none ↦ cleared disk
      | some root ↦ load_root root (cleared disk)
    ]
  ]

  -- The block that a record of the log stands for.
  unfoldable pub recovered : Json → BlockHit F → BlockStore F Doc → Option (PendingBlock F)
  unfolding recover_id
  recovered rec hit s = do
    id ← value_int64 J rec (codes "id") s.next_id
    reason ← value_text J rec (codes "reason") (codes "jsonl_recover")
    queue_reason ← value_text J rec (codes "queue_reason") reason
    reject_count ← value_int J rec (codes "reject_count") (pos 0)
    some (record {
      id = recover_id s id;
      hit = hit;
      queue_reason = queue_reason;
      reject_count = reject_count;
      forwarded = false;
    })

  -- One line of the log, once it is parsed: whether a block was added, and the store.
  unfoldable pub recover_record : Json → BlockStore F Doc → Option (Bool × BlockStore F Doc)
  unfolding add_block recovered
  recover_record rec s = elim (hit_from_json J zero rec) [
    | none ↦ none
    | some hit ↦
        if is_empty hit.hash_str || mem_text hit.hash_str s.hash_index
        then some (false, s)
        else (recovered rec hit s >>= λ pb. some (true, add_block s pb))
  ]

  unfoldable pub recover_line : Doc → BlockStore F Doc → Option (Bool × BlockStore F Doc)
  unfolding recover_record
  recover_line line s = elim (parse line) [
    | none ↦ some (false, s)
    | some rec ↦ if is_object rec then recover_record rec s else some (false, s)
  ]

  unfoldable pub recover_lines :
      List Doc → Bool → BlockStore F Doc → Option (Bool × BlockStore F Doc)
  unfolding recover_line
  recover_lines [] added s = some (added, s)
  recover_lines (line ∷ rest) added s = elim (recover_line line s) [
    | none ↦ none
    | some (now_added, s') ↦ recover_lines rest (added || now_added) s'
  ]

  unfoldable pub recover_jsonl_unlocked : BlockStore F Doc → Option (BlockStore F Doc)
  unfolding recover_lines save_db_unlocked
  recover_jsonl_unlocked s = elim (recover_lines s.disk.jsonl false s) [
    | none ↦ none
    | some (added, t) ↦ some (if added then save_db_unlocked J t else t)
  ]

  -- The constructor.
  unfoldable pub load : Disk Doc → Option (BlockStore F Doc)
  unfolding load_db recover_jsonl_unlocked
  load disk = recover_jsonl_unlocked (load_db disk)
