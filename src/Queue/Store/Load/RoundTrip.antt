-- ===== src/Queue/Store/Load/RoundTrip.antt =====
-- `load` of src/queue/store.cpp on the files of another store.
use mathlib.Core.List.{append-nil, append_assoc}
use x1miner.Base.{
  ℕ, suc, ◌≡◌, refl, ap, sym, ◌∙◌, subst, Bool, true, false, not, ◌&&◌, ◌||◌, Option, none, some,
  List, [], ◌∷◌, ◌++◌, map, arith, leb, if◌then◌else◌, length, All,
}
use x1miner.Base.Int.{ℤ, pos, ◌+ℤ◌, ◌≤ℤ◌, ◌<ℤ◌, max_ℤ, +ℤ_parts, int_laws}
use x1miner.Base.Text.{Text, codes, text_eq, text_eq_iff, is_empty, mem_text}
use x1miner.Common.Json.{JsonLib, JsonLaws, lookup}
use x1miner.Queue.Codec.{PendingBlock, block_to_json, array_at}
use x1miner.Queue.Store.{BlockStore, Disk, index_hit, db_json, save_db_unlocked}
use x1miner.Queue.Store.Invariant.{WellIndexed, entries, Entry, count_hash, mem_text-insert_hash}
use x1miner.Queue.Store.Methods.{IsValid}
use x1miner.Queue.Store.Codecs.{IsInt32, HitFits, int_back, block_from_json-block_to_json}
use x1miner.Queue.Store.Load.{
  add_block, load_items, cleared, load_root, load_db, recover_lines, recover_jsonl_unlocked, load,
}
use x1miner.Queue.Store.Load.Recovery.{Outcome, recover_lines-Recovers}

-- What of a block goes through an `int` when it is read.
abbrev pub BlockFits : {F : Type 0} → PendingBlock F → Type 0
BlockFits pb = HitFits pb.hit × IsInt32 pb.reject_count

max_after : (next id : ℤ) → id <ℤ next → max_ℤ (next +ℤ pos 1) (id +ℤ pos 1) ≡ next +ℤ pos 1
max_after next id h = ground (arith, +ℤ_parts next (pos 1), +ℤ_parts id (pos 1))

plus_zero : (a : ℤ) → a +ℤ pos 0 ≡ a
plus_zero a = omega int_laws

plus_suc : (a : ℤ) (n : ℕ) → (a +ℤ pos 1) +ℤ pos n ≡ a +ℤ pos (suc n)
plus_suc a n = omega int_laws

plus_lt : (a b : ℤ) → a <ℤ b → a <ℤ b +ℤ pos 1
plus_lt a b h = omega int_laws

module _ {F : Type 0} (J : JsonLib F) (L : JsonLaws J) (zero : F) where
  open J use {Json, Doc, parse, dump, object, array, int}

  -- The loop over the items that `save_db_unlocked` wrote.
  load_items_back :
      (l : List (PendingBlock F)) (s : BlockStore F Doc)
      → All BlockFits l
      → All (λ pb. pb.id <ℤ s.next_id) l
      → let t = load_items J zero (map (block_to_json J) l) s in
        (t.pending ≡ s.pending ++ l)
        × (t.next_id ≡ s.next_id +ℤ pos (length l))
        × (t.disk ≡ s.disk)
        × (t.dirty_ops ≡ s.dirty_ops)
        × ((h : Text)
            → mem_text h t.hash_index
              ≡ (mem_text h s.hash_index || (not (is_empty h) && leb 1 (count_hash h (entries l)))))
  unfolding load_items
  load_items_back [] s fits below = (
    sym (append-nil s.pending),
    sym (plus_zero s.next_id),
    refl,
    refl,
    λ h. unfold count_hash in ground arith,
  )
  load_items_back (pb ∷ l) s fits below =
      let e = block_from_json-block_to_json J L zero pb s.next_id fits.0.0 fits.0.1 in
      let s' : BlockStore F Doc = record s { next_id = s.next_id +ℤ pos 1 } in
      let u : BlockStore F Doc = add_block s' pb in
      let top : u.next_id ≡ s.next_id +ℤ pos 1 =
        unfold add_block in max_after s.next_id pb.id below.0 in
      let (p, n, d, o, x) = load_items_back l u fits.1 (rw top (higher l below.1)) in
      rw (e, load_items)
        (
          p ∙ (unfold add_block in append_assoc s.pending (pb ∷ []) l),
          n ∙ ap (λ (a : ℤ). a +ℤ pos (length l)) top ∙ plus_suc s.next_id (length l),
          d ∙ (unfold add_block in refl),
          o ∙ (unfold add_block in refl),
          λ h. x h ∙ indexed h,
        )
    where
      higher :
          (m : List (PendingBlock F))
          → All (λ pb. pb.id <ℤ s.next_id) m
          → All (λ pb. pb.id <ℤ s.next_id +ℤ pos 1) m
      higher [] a = tt
      higher (b ∷ m) a = (plus_lt b.id s.next_id a.0, higher m a.1)

      indexed :
          (h : Text)
          → (mem_text h (index_hit pb.hit.hash_str s.hash_index)
              || (not (is_empty h) && leb 1 (count_hash h (entries l))))
            ≡ (mem_text h s.hash_index
                || (not (is_empty h) && leb 1 (count_hash h (entries (pb ∷ l)))))
      indexed h =
          unfold index_hit count_hash in
          ground (
            arith,
            mem_text-insert_hash h pb.hit.hash_str s.hash_index,
            text_eq_iff pb.hit.hash_str h,
          )

  -- What is read of a database file that `s` wrote.
  abbrev pub LoadsAs : BlockStore F Doc → BlockStore F Doc → Type 0
  LoadsAs s t =
      (t.pending ≡ s.pending)
      × (t.next_id ≡ s.next_id +ℤ pos (length s.pending))
      × ((h : Text) → mem_text h t.hash_index ≡ mem_text h s.hash_index)

  -- The blocks as written, with an id and counts that fit an `int`, and a document that prints.
  pub record IsStorable (s : BlockStore F Doc) : Type 0 where
    pub blocks : All BlockFits s.pending
    pub next : IsInt32 s.next_id
    pub printable : J.IsPrintable (db_json J s)

  -- The pending array of a written document.
  array_back :
      (m : List (Text × Json)) (k : Text) (l : List Json)
      → lookup k m ≡ some (array l)
      → array_at J (object m) k ≡ some l
  unfolding array_at
  array_back m k l e = rw (L.get?-object m k, e, array_at) (rw (L.array_is, L.items-array))

  load_root_back :
      (s r : BlockStore F Doc)
      → IsStorable s
      → All (λ pb. pb.id <ℤ s.next_id) s.pending
      → r.pending ≡ []
      → r.hash_index ≡ []
      → ((h : Text)
          → mem_text h s.hash_index
            ≡ (not (is_empty h) && leb 1 (count_hash h (entries s.pending))))
      → let t = load_root J zero (db_json J s) r in
        LoadsAs s t × (t.disk ≡ r.disk) × (t.dirty_ops ≡ r.dirty_ops)
  unfolding load_root db_json mem_text
  load_root_back s r st below empty clear exact =
      let m : List (Text × Json) =
        (codes "next_id", int s.next_id)
        ∷ (codes "pending", array (map (block_to_json J) s.pending))
        ∷ [] in
      let a =
        int_back J L zero m (codes "next_id") (pos 1) s.next_id st.next
          (unfold lookup text_eq in refl) in
      let b =
        array_back m (codes "pending") (map (block_to_json J) s.pending)
          (unfold lookup text_eq in refl) in
      let (p, n, d, o, x) =
        load_items_back s.pending (record r { next_id = s.next_id }) st.blocks below in
      rw (a, b, load_root)
        (
          (
            p ∙ ap (λ (l : List (PendingBlock F)). l ++ s.pending) empty,
            n,
            λ h.
                x h
                ∙ ap
                    (λ (index : List Text).
                      mem_text h index
                      || (not (is_empty h) && leb 1 (count_hash h (entries s.pending))))
                    clear
                ∙ sym (exact h),
          ),
          d,
          o,
        )

  below_next :
      (l : List (PendingBlock F)) (next : ℤ)
      → All (λ e. (pos 1 ≤ℤ e.0) × (e.0 <ℤ next)) (entries l)
      → All (λ pb. pb.id <ℤ next) l
  below_next [] next a = tt
  below_next (b ∷ l) next a = (a.0.1, below_next l next a.1)

  load_db_root :
      (disk : Disk Doc) (doc : Doc) (root : Json)
      → disk.db ≡ some doc
      → parse doc ≡ some root
      → load_db J zero disk ≡ load_root J zero root (cleared J zero disk)
  unfolding load_db
  load_db_root disk doc root e p =
      ap
        (λ (db : Option Doc). elim db [
          | none ↦ cleared J zero disk
          | some doc ↦ elim (parse doc) [
            | none ↦ cleared J zero disk
            | some root ↦ load_root J zero root (cleared J zero disk)
          ]
        ])
        e
      ∙ ap
          (λ (r : Option Json). elim r [
            | none ↦ cleared J zero disk
            | some root ↦ load_root J zero root (cleared J zero disk)
          ])
          p

  -- A database file that a valid store wrote is read back as the same pending blocks in the same
  -- order under the same digest index, if the counts in it fit an `int`. The next id has moved on by
  -- one for each block, since the default of `value("id", next_id_++)` is evaluated for each.
  pub load_db-save :
      (s : BlockStore F Doc) (disk : Disk Doc)
      → IsValid s
      → IsStorable s
      → disk.db ≡ some (dump (db_json J s))
      → let t = load_db J zero disk in LoadsAs s t × (t.disk ≡ disk) × (t.dirty_ops ≡ 0)
  unfolding cleared
  load_db-save s disk v st e =
      rw (load_db_root disk _ _ e (L.parse-dump (db_json J s) st.printable)) (
        load_root_back s (cleared J zero disk) st
          (below_next s.pending s.next_id v.indexed.ids_fresh) refl refl v.indexed.index_exact)

  raise :
      (l : List Entry) (a b : ℤ)
      → a ≤ℤ b
      → All (λ e. (pos 1 ≤ℤ e.0) × (e.0 <ℤ a)) l
      → All (λ e. (pos 1 ≤ℤ e.0) × (e.0 <ℤ b)) l
  raise [] a b h k = tt
  raise (e ∷ l) a b h k = ((k.0.0, omega arith), raise l a b h k.1)

  pub reload-WellIndexed :
      (s t : BlockStore F Doc)
      → LoadsAs s t
      → WellIndexed (entries s.pending) s.hash_index s.next_id
      → WellIndexed (entries t.pending) t.hash_index t.next_id
  reload-WellIndexed s t (p, n, x) w =
      rw (p, n)
        (record {
          ids_unique = w.ids_unique;
          ids_fresh = raise (entries s.pending) s.next_id _ (omega int_laws) w.ids_fresh;
          next_positive = omega (int_laws, w.next_positive);
          hashes_unique = w.hashes_unique;
          index_exact = λ h. x h ∙ w.index_exact h;
        })

  -- A restart on the database file of a valid store whose blocks can be written and read back
  -- (`IsStorable`), with any log, gives a valid store if it does not throw. That store holds every
  -- block that was pending, in the same order and in front of what the log adds.
  pub load-IsValid :
      (s t : BlockStore F Doc) (disk : Disk Doc)
      → IsValid s
      → IsStorable s
      → disk.db ≡ some (dump (db_json J s))
      → load J zero disk ≡ some t
      → IsValid t × ((more : List (PendingBlock F)) × (t.pending ≡ s.pending ++ more))
  unfolding load recover_jsonl_unlocked
  load-IsValid s t disk v st e h =
      let u : BlockStore F Doc = load_db J zero disk in
      let (as_s, at, clean) = load_db-save s disk v st e in
      after (recover_lines J zero u.disk.jsonl false u) refl as_s clean h
    where
      grown :
          (x : BlockStore F Doc)
          → WellIndexed (entries x.pending) x.hash_index x.next_id
          → ((more : List (PendingBlock F)) × (x.pending ≡ s.pending ++ more))
          → x.dirty_ops ≡ 0
          → (added : Bool) → (if added then save_db_unlocked J x else x) ≡ t
          → IsValid t × ((more : List (PendingBlock F)) × (t.pending ≡ s.pending ++ more))
      grown x w p d true q =
          subst
            (λ y. IsValid y × ((more : List (PendingBlock F)) × (y.pending ≡ s.pending ++ more))) q
            (unfold save_db_unlocked in (record { indexed = w; written_back = omega arith }, p))
      grown x w p d false q =
          subst
            (λ y. IsValid y × ((more : List (PendingBlock F)) × (y.pending ≡ s.pending ++ more))) q
            (record { indexed = w; written_back = omega arith }, p)

      after :
          (r : Outcome J zero)
          → recover_lines J zero (load_db J zero disk).disk.jsonl false (load_db J zero disk) ≡ r
          → LoadsAs s (load_db J zero disk)
          → (load_db J zero disk).dirty_ops ≡ 0
          → ◌≡◌ {A = Option (BlockStore F Doc)}
              (elim r [
                | none ↦ none
                | some (added, x) ↦ some (if added then save_db_unlocked J x else x)
              ])
              (some t)
          → IsValid t × ((more : List (PendingBlock F)) × (t.pending ≡ s.pending ++ more))
      after none q as_s clean k = absurd (cc)
      after (some (added, x)) q as_s clean k =
          let (w, p, d) =
            recover_lines-Recovers J zero (load_db J zero disk).disk.jsonl false
              (load_db J zero disk) x added
              (reload-WellIndexed s (load_db J zero disk) as_s v.indexed) q in
          let (more, m) = p in
          grown x w (more, m ∙ ap (λ (l : List (PendingBlock F)). l ++ more) as_s.0) (d ∙ clean)
            added (cc)
