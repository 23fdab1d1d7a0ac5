-- ===== src/Tests/Queue.antt =====
-- The queue's policy and the block store on small inputs.
use x1miner.Base.{
  ℕ, ◌≡◌, refl, ap, ◌≤◌, min, Bool, false, not, none, some, List, [], ◌∷◌, ◌++◌, arith, keep, any,
  tally, length, All, if◌then◌else◌,
}
use x1miner.Base.Int.{pos, ◌+ℤ◌, ◌==ℤ◌}
use x1miner.Base.Text.{Text, codes, text_eq, is_empty, mem_text}
use x1miner.Common.{BlockHit}
use x1miner.Queue.Codec.{PendingBlock, hit_to_json, hit_from_json}
use x1miner.Queue.Store.{
  BlockStore, Disk, enqueue, mark_submitted_many, flush, db_json, save_db_unlocked,
}
use x1miner.Queue.Store.Invariant.{entries, count_id, count_hash}
use x1miner.Queue.Store.Methods.{IsValid, StoreCall, step, run, run-IsValid}
use x1miner.Queue.Store.Effects.{enqueue_twice, submitted_removes, flush-run_synced}
use x1miner.Queue.Store.Batch.{Wave, list_flush_batch, is_eligible}
use x1miner.Queue.Store.Batch.Order.{IsFlushOrdered}
use x1miner.Queue.Store.Batch.Scan.{is_preferred}
use x1miner.Queue.Store.Batch.Laws.{IsDue, flush_batch_sound, flush_batch_complete}
use x1miner.Queue.Store.Codecs.{hit_from_json-hit_to_json}
use x1miner.Queue.Store.Load.{load, load_db, recover_lines}
use x1miner.Queue.Store.Load.RoundTrip.{IsStorable, LoadsAs, load_db-save, load-IsValid}
use x1miner.Queue.Store.Load.Returns.{submitted_returns}
use x1miner.Tests.Sample.{Tree, trees, trees_laws, hit_of, no_files, fresh}

abbrev clock : Text
clock = codes "2026-08-12T10:00:00"

abbrev xnm : BlockHit ℕ
xnm = hit_of (codes "hash-one") (codes "XNM") (pos 10000)

abbrev xuni : BlockHit ℕ
xuni = hit_of (codes "hash-two") (codes "XUNI") (pos 12000)

abbrev calls : List (StoreCall ℕ)
calls =
    StoreCall.enqueues clock xnm (codes "network_down")
    ∷ StoreCall.enqueues clock xuni (codes "outside_xuni_window")
    ∷ StoreCall.enqueues clock xnm (codes "again")
    ∷ []

fresh-IsValid : IsValid fresh
unfolding count_id count_hash mem_text
fresh-IsValid = record {
  indexed = record {
    ids_unique = λ i. omega arith;
    ids_fresh = tt;
    next_positive = omega arith;
    hashes_unique = λ h ne. omega arith;
    index_exact = λ h. ground arith;
  };
  written_back = omega arith;
}

-- The store after two hits; the third call finds its digest bagged.
abbrev two : BlockStore ℕ Tree
two = run trees fresh calls

two-ids : entries two.pending ≡ (pos 1, codes "hash-one") ∷ (pos 2, codes "hash-two") ∷ []
unfolding run step enqueue text_eq mem_text is_empty ◌+ℤ◌
two-ids = refl

run-IsValid_example : IsValid two
run-IsValid_example = run-IsValid trees fresh calls fresh-IsValid

enqueue_twice_example :
    let t = (enqueue trees clock fresh xnm (codes "a")).1 in
    enqueue trees clock t (record xnm { key = [] }) (codes "b") ≡ (pos 0, t)
unfolding is_empty
enqueue_twice_example =
    enqueue_twice trees clock clock fresh xnm (record xnm { key = [] }) (codes "a") (codes "b") refl
      refl

submitted_removes_example :
    let t = mark_submitted_many trees two (pos 1 ∷ []) in
    (t.pending ≡ keep (λ pb. not (any (λ i. pb.id ==ℤ i) (pos 1 ∷ []))) two.pending)
    × (t.disk.jsonl ≡ two.disk.jsonl)
    × (t.next_id ≡ two.next_id)
submitted_removes_example = submitted_removes trees two (pos 1 ∷ [])

flush-run_synced_example :
    let t = flush trees (run trees (save_db_unlocked trees fresh) calls) in
    (t.disk.db ≡ some (db_json trees t))
    × (t.dirty_ops ≡ 0)
    × (t.pending ≡ (run trees (save_db_unlocked trees fresh) calls).pending)
flush-run_synced_example =
    flush-run_synced trees (save_db_unlocked trees fresh) calls
      (λ _. unfold save_db_unlocked db_json in refl)

abbrev wave : Wave
wave = record { net_m = pos 10000; default_m = pos 0; skip_before_id = pos 2; minute = 56 }

flush_batch_sound_example :
    let l = list_flush_batch wave (pos 1) two in
    All (IsDue wave) l
    × IsFlushOrdered l
    × ((q : PendingBlock ℕ → Bool) → tally q l ≤ tally q two.pending)
flush_batch_sound_example = flush_batch_sound wave (pos 1) two

flush_batch_complete_example :
    let l = list_flush_batch wave (pos 1) two in
    (length l ≡ min 1 (tally (is_eligible wave) two.pending))
    × (tally (is_preferred wave) l ≡ min 1 (tally (is_preferred wave) two.pending))
flush_batch_complete_example = flush_batch_complete wave (pos 1) two

hit_from_json-hit_to_json_example : hit_from_json trees 0 (hit_to_json trees xnm) ≡ some xnm
hit_from_json-hit_to_json_example = hit_from_json-hit_to_json trees trees_laws 0 xnm (omega arith)

two-IsStorable : IsStorable trees trees_laws 0 two
unfolding run step enqueue text_eq mem_text is_empty ◌+ℤ◌
two-IsStorable = record { blocks = omega arith; next = omega arith; printable = tt }

load_db-save_example :
    let t = load_db trees 0 (record no_files { db = some (db_json trees two) }) in
    LoadsAs trees trees_laws 0 two t
    × (t.disk ≡ record no_files { db = some (db_json trees two) })
    × (t.dirty_ops ≡ 0)
load_db-save_example = load_db-save trees trees_laws 0 two _ run-IsValid_example two-IsStorable refl

abbrev saved : Disk Tree
saved = record no_files { db = some (db_json trees two) }

-- The log is empty, so the restart reads the database file only.
load-saved : load trees 0 saved ≡ some (load_db trees 0 saved)
unfolding load
load-saved =
    let t : BlockStore ℕ Tree = load_db trees 0 saved in
    ap
      (λ (l : List Tree). elim (recover_lines trees 0 l false t) [
        | none ↦ none
        | some (added, x) ↦ some (if added then save_db_unlocked trees x else x)
      ])
      (ap (λ (d : Disk Tree). d.jsonl) load_db-save_example.1)

load-IsValid_example :
    let t = load_db trees 0 saved in
    IsValid t × ((more : List (PendingBlock ℕ)) × (t.pending ≡ two.pending ++ more))
load-IsValid_example =
    load-IsValid trees trees_laws 0 two (load_db trees 0 saved) saved run-IsValid_example
      two-IsStorable refl load-saved

submitted_returns_example :
    let (id, bagged) = enqueue trees clock fresh xnm (codes "network_down") in
    let sent = mark_submitted_many trees bagged (id ∷ []) in
    (t : BlockStore ℕ Tree) × (load trees 0 sent.disk ≡ some t)
    × ((b : PendingBlock ℕ) × (t.pending ≡ sent.pending ++ b ∷ []) × (b.hit ≡ xnm))
unfolding is_empty enqueue mark_submitted_many mem_text text_eq ◌+ℤ◌
submitted_returns_example =
    submitted_returns trees trees_laws 0 clock fresh xnm (codes "network_down") fresh-IsValid refl
      refl refl (omega arith) (record { blocks = tt; next = omega arith; printable = tt }) tt
