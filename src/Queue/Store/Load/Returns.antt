-- ===== src/Queue/Store/Load/Returns.antt =====
-- src/queue/store.cpp: a submission followed by a restart.
use x1miner.Base.{
  ◌≤◌, ◌≡◌, refl, ap, ◌∙◌, Bool, true, false, not, ◌||◌, Option, none, some, List, [], ◌∷◌, ◌++◌,
  arith, if◌then◌else◌, keep, any, inl, inr,
}
use x1miner.Base.Int.{ℤ, pos, ◌+ℤ◌, ◌==ℤ◌, ==ℤ_refl}
use x1miner.Base.Text.{Text, codes, text_eq, is_empty, mem_text}
use x1miner.Common.{BlockHit}
use x1miner.Common.Json.{JsonLib, JsonLaws, lookup}
use x1miner.Queue.Codec.{PendingBlock, value_int, hit_fields, hit_from_json}
use x1miner.Queue.Store.{
  BlockStore, Disk, is_indexed, index_hit, db_json, save_db_unlocked, queue_line, enqueue,
  mark_submitted_many, new_block,
}
use x1miner.Queue.Store.Invariant.{entries, count_hash}
use x1miner.Queue.Store.Methods.{IsValid, StoreCall, step, step-IsValid}
use x1miner.Queue.Store.Effects.{enqueue_cases, submitted_removes}
use x1miner.Queue.Store.Codecs.{HitFits, int64_back, text_back, absent_text, hit_fields_back}
use x1miner.Queue.Store.Load.{
  add_block, load_db, recover_id, recovered, recover_record, recover_line, recover_lines,
  recover_jsonl_unlocked, load,
}
use x1miner.Queue.Store.Load.RoundTrip.{IsStorable, load_db-save}

module _ {F : Type 0} (J : JsonLib F) (L : JsonLaws J) (zero : F) where
  open J use {Json, Doc, parse, dump, object, int, text, is_object}

  abbrev line_tail : Text → PendingBlock F → List (Text × Json)
  line_tail now pb =
      (codes "queued_at", text now)
      ∷ (codes "reason", text pb.queue_reason)
      ∷ (codes "id", int pb.id)
      ∷ []

  line_lookups :
      (now : Text) (pb : PendingBlock F) (c : Option ℤ)
      → pb.hit.memory_cost ≡ c
      → let m = hit_fields J pb.hit ++ line_tail now pb in
        (lookup (codes "id") m ≡ some (int pb.id))
        × (lookup (codes "reason") m ≡ some (text pb.queue_reason))
        × (lookup (codes "queue_reason") m ≡ none)
        × (lookup (codes "reject_count") m ≡ none)
  unfolding hit_fields lookup text_eq
  line_lookups now pb none e =
      (rw (e, hit_fields), rw (e, hit_fields), rw (e, hit_fields), rw (e, hit_fields))
  line_lookups now pb (some c) e =
      (rw (e, hit_fields), rw (e, hit_fields), rw (e, hit_fields), rw (e, hit_fields))

  absent_int :
      (m : List (Text × Json)) (k : Text) (d : ℤ)
      → lookup k m ≡ none
      → value_int J (object m) k d ≡ some d
  unfolding value_int
  absent_int m k d e = simp (L.object_is, L.get?-object, e)

  -- The block that a logged line gives back.
  abbrev pub back : PendingBlock F → BlockStore F Doc → PendingBlock F
  back pb s = record {
    id = recover_id s pb.id;
    hit = pb.hit;
    queue_reason = pb.queue_reason;
    reject_count = pos 0;
    forwarded = false;
  }

  recovered-back :
      (now : Text) (pb : PendingBlock F) (s : BlockStore F Doc)
      → recovered J zero (queue_line J now pb) pb.hit s ≡ some (back pb s)
  unfolding recovered queue_line
  recovered-back now pb s =
      let m = hit_fields J pb.hit ++ line_tail now pb in
      let (a, b, c, d) = line_lookups now pb pb.hit.memory_cost refl in
      simp (
        int64_back J L zero m (codes "id") s.next_id pb.id a,
        text_back J L zero m (codes "reason") (codes "jsonl_recover") pb.queue_reason b,
        absent_text J L zero m (codes "queue_reason") pb.queue_reason c,
        absent_int m (codes "reject_count") (pos 0) d,
      )

  recover_line-back :
      (now : Text) (pb : PendingBlock F) (s : BlockStore F Doc)
      → HitFits pb.hit
      → J.IsPrintable (queue_line J now pb)
      → (is_empty pb.hit.hash_str || mem_text pb.hit.hash_str s.hash_index) ≡ false
      → recover_line J zero (dump (queue_line J now pb)) s ≡ some (true, add_block s (back pb s))
  unfolding recover_line
  recover_line-back now pb s fits prints new =
      let whole : is_object (queue_line J now pb) ≡ true = unfold queue_line in L.object_is _ in
      let hit : hit_from_json J zero (queue_line J now pb) ≡ some pb.hit =
        unfold queue_line in
        hit_fields_back J L zero pb.hit (line_tail now pb) fits (unfold lookup text_eq in refl) in
      rw (L.parse-dump (queue_line J now pb) prints, recover_line)
        (rw (whole, recover_line)
          (rw (hit, recover_record) (rw new (rw (recovered-back now pb s)))))

  -- A restart on a log of one line, whose digest is not in the database file.
  load_line :
      (now : Text) (pb : PendingBlock F) (s : BlockStore F Doc) (disk : Disk Doc)
      → IsValid s
      → IsStorable J L zero s
      → disk.db ≡ some (dump (db_json J s))
      → disk.jsonl ≡ dump (queue_line J now pb) ∷ []
      → HitFits pb.hit
      → J.IsPrintable (queue_line J now pb)
      → is_empty pb.hit.hash_str ≡ false
      → mem_text pb.hit.hash_str s.hash_index ≡ false
      → (t : BlockStore F Doc) × (load J zero disk ≡ some t)
        × ((b : PendingBlock F) × (t.pending ≡ s.pending ++ b ∷ []) × (b.hit ≡ pb.hit))
  unfolding load recover_jsonl_unlocked
  load_line now pb s disk v st e log fits prints full new =
      let u : BlockStore F Doc = load_db J zero disk in
      let (as_s, at, clean) = load_db-save J L zero s disk v st e in
      let line = dump (queue_line J now pb) in
      let only : u.disk.jsonl ≡ line ∷ [] = ap (λ (d : Disk Doc). d.jsonl) at ∙ log in
      let fresh : (is_empty pb.hit.hash_str || mem_text pb.hit.hash_str u.hash_index) ≡ false =
        ground (arith, as_s.2 pb.hit.hash_str) in
      let one = one_line line u (recover_line-back now pb u fits prints fresh) in
      let all_lines = ap (λ (l : List Doc). recover_lines J zero l false u) only ∙ one in
      (
        save_db_unlocked J (add_block u (back pb u)),
        ap
            (λ (r : Option (Bool × BlockStore F Doc)). elim r [
              | none ↦ none
              | some (added, x) ↦ some (if added then save_db_unlocked J x else x)
            ])
            all_lines,
        (
          back pb u,
          (unfold save_db_unlocked add_block in
              ap (λ (l : List (PendingBlock F)). l ++ back pb u ∷ []) as_s.0),
          refl,
        ),
      )
    where
      one_line :
          (line : Doc) (u : BlockStore F Doc) {t : BlockStore F Doc}
          → recover_line J zero line u ≡ some (true, t)
          → recover_lines J zero (line ∷ []) false u ≡ some (true, t)
      one_line line u e = unfold recover_lines in rw (e, recover_lines)

  enqueued_new :
      (now : Text) (s : BlockStore F Doc) (hit : BlockHit F) (reason : Text)
      → is_indexed hit.hash_str s.hash_index ≡ false
      → let (id, t) = enqueue J now s hit reason in
        (is_indexed hit.hash_str s.hash_index ≡ false)
        × (id ≡ s.next_id)
        × (t.pending ≡ s.pending ++ new_block J s hit reason ∷ [])
        × (t.next_id ≡ s.next_id +ℤ pos 1)
        × (t.disk.jsonl ≡ s.disk.jsonl ++ dump (queue_line J now (new_block J s hit reason)) ∷ [])
        × ((h : Text) → mem_text h t.hash_index ≡ mem_text h (index_hit hit.hash_str s.hash_index))
  enqueued_new now s hit reason new = elim (enqueue_cases J now s hit reason) [
    | inl (old, _) ↦ absurd (cc)
    | inr facts ↦ facts
  ]

  keep_last :
      (q : PendingBlock F → Bool) (l : List (PendingBlock F)) (x : PendingBlock F)
      → q x ≡ false
      → keep q (l ++ x ∷ []) ≡ keep q l
  keep_last q [] x e = rw e
  keep_last q (y ∷ l) x e = ground (arith, keep_last q l x e)

  count_keep_le :
      (q : PendingBlock F → Bool) (h : Text) (l : List (PendingBlock F))
      → count_hash h (entries (keep q l)) ≤ count_hash h (entries l)
  unfolding count_hash
  count_keep_le q h [] = omega arith
  count_keep_le q h (x ∷ l) = ground (arith, count_keep_le q h l)

  -- The digest of the block that was submitted is in no index.
  gone :
      (s : BlockStore F Doc) (hit : BlockHit F) (reason : Text) (id : ℤ)
      (bagged sent : BlockStore F Doc)
      → IsValid s
      → IsValid sent
      → is_empty hit.hash_str ≡ false
      → is_indexed hit.hash_str s.hash_index ≡ false
      → id ≡ s.next_id
      → bagged.pending ≡ s.pending ++ new_block J s hit reason ∷ []
      → sent.pending ≡ keep (λ pb. not (any (λ i. pb.id ==ℤ i) (id ∷ []))) bagged.pending
      → mem_text hit.hash_str sent.hash_index ≡ false
  unfolding is_indexed new_block
  gone s hit reason id bagged sent v vs full new at add rest =
      let q : PendingBlock F → Bool = λ pb. not (any (λ i. pb.id ==ℤ i) (id ∷ [])) in
      let drops : q (new_block J s hit reason) ≡ false =
        rw at (ground (arith, ==ℤ_refl s.next_id)) in
      let all : sent.pending ≡ keep q s.pending =
        rest ∙ ap (keep q) add ∙ keep_last q s.pending (new_block J s hit reason) drops in
      let few = ap (λ (l : List (PendingBlock F)). count_hash hit.hash_str (entries l)) all in
      ground (
        arith,
        few,
        count_keep_le q hit.hash_str s.pending,
        v.indexed.index_exact hit.hash_str,
        vs.indexed.index_exact hit.hash_str,
      )

  -- A hit that is bagged on an empty log, accepted by the pool and taken out of the store is pending
  -- again after the next restart: its line is still in the log, and its digest in no index.
  pub submitted_returns :
      (now : Text) (s : BlockStore F Doc) (hit : BlockHit F) (reason : Text)
      → let (id, bagged) = enqueue J now s hit reason in
        let sent = mark_submitted_many J bagged (id ∷ []) in
        IsValid s
        → s.disk.jsonl ≡ []
        → is_empty hit.hash_str ≡ false
        → is_indexed hit.hash_str s.hash_index ≡ false
        → HitFits hit
        → IsStorable J L zero sent
        → J.IsPrintable (queue_line J now (new_block J s hit reason))
        → (t : BlockStore F Doc) × (load J zero sent.disk ≡ some t)
          × ((b : PendingBlock F) × (t.pending ≡ sent.pending ++ b ∷ []) × (b.hit ≡ hit))
  unfolding new_block
  submitted_returns now s hit reason v empty full new fits st prints =
      let (id, bagged) = enqueue J now s hit reason in
      let vb : IsValid bagged =
        unfold step in step-IsValid J s (StoreCall.enqueues now hit reason) v in
      let vs : IsValid (mark_submitted_many J bagged (id ∷ [])) =
        unfold step in step-IsValid J bagged (StoreCall.submits (id ∷ [])) vb in
      let (p, j, n) = submitted_removes J bagged (id ∷ []) in
      let (a, b, c, d, e, f) = enqueued_new now s hit reason new in
      load_line now (new_block J s hit reason) (mark_submitted_many J bagged (id ∷ []))
        (mark_submitted_many J bagged (id ∷ [])).disk vs st
        (unfold mark_submitted_many save_db_unlocked db_json in refl)
        (j
          ∙ e
          ∙ ap (λ (l : List Doc). l ++ dump (queue_line J now (new_block J s hit reason)) ∷ [])
              empty)
        fits prints full (gone s hit reason id bagged _ v vs full new b c p)
