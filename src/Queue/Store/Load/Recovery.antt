-- ===== src/Queue/Store/Load/Recovery.antt =====
-- `recover_jsonl_unlocked` of src/queue/store.cpp and the invariant.
use mathlib.Core.List.{append-nil, append_assoc}
use x1miner.Base.{
  ◌≡◌, refl, ap, sym, ◌∙◌, subst, inl, inr, Bool, true, false, ◌||◌, Option, none, some, List, [],
  ◌∷◌, ◌++◌, arith, if◌then◌else◌, any, Bool-cases, Option-cases,
}
use x1miner.Base.Int.{ℤ, pos, ◌+ℤ◌, ◌≤ℤ◌, ◌<ℤ◌, ◌<ℤ?◌, ◌==ℤ◌, max_ℤ, +ℤ_parts}
use x1miner.Base.Text.{codes, is_empty, mem_text}
use x1miner.Common.{BlockHit}
use x1miner.Common.Json.{JsonLib}
use x1miner.Queue.Codec.{
  PendingBlock, ◌>>=◌, >>=-eq-some, value_int, value_int64, value_text, hit_from_json,
}
use x1miner.Queue.Store.{BlockStore, is_indexed}
use x1miner.Queue.Store.Invariant.{
  WellIndexed, entries, count_id, count_id_fresh, entries-append, append-WellIndexed,
}
use x1miner.Queue.Store.Load.{
  add_block, recover_id, recovered, recover_record, recover_line, recover_lines,
}

next_grows : (next id : ℤ) → (next ≤ℤ max_ℤ next (id +ℤ pos 1)) × (id <ℤ max_ℤ next (id +ℤ pos 1))
next_grows next id = ground (arith, +ℤ_parts id (pos 1))

module _ {F : Type 0} where
  -- No block has the id.
  no_id :
      (i : ℤ) (l : List (PendingBlock F))
      → any (λ pb. pb.id ==ℤ i) l ≡ false
      → count_id i (entries l) ≡ 0
  unfolding count_id
  no_id i [] h = refl
  no_id i (x ∷ l) h = ground (arith, no_id i l)

  recover_id_fresh :
      {Doc : Type 0} (s : BlockStore F Doc) (id : ℤ)
      → WellIndexed (entries s.pending) s.hash_index s.next_id
      → (count_id (recover_id s id) (entries s.pending) ≡ 0) × (pos 1 ≤ℤ recover_id s id)
  unfolding recover_id
  recover_id_fresh s id w =
      let own : ℤ = if id <ℤ? pos 1 then s.next_id else id in
      let fresh =
        count_id_fresh s.next_id s.next_id (entries s.pending) w.ids_fresh (omega arith) in
      elim (Bool-cases (any (λ e. e.id ==ℤ own) s.pending)) [
        | inl e ↦ rw (e, recover_id) (fresh, w.next_positive)
        | inr e ↦ rw (e, recover_id) (no_id own s.pending e, ground arith)
      ]

  add_block-WellIndexed :
      {Doc : Type 0} (s : BlockStore F Doc) (pb : PendingBlock F)
      → WellIndexed (entries s.pending) s.hash_index s.next_id
      → is_indexed pb.hit.hash_str s.hash_index ≡ false
      → count_id pb.id (entries s.pending) ≡ 0
      → pos 1 ≤ℤ pb.id
      → let t = add_block s pb in WellIndexed (entries t.pending) t.hash_index t.next_id
  unfolding add_block
  add_block-WellIndexed s pb w new free low = rw (entries-append s.pending pb) (
      append-WellIndexed (entries s.pending) s.hash_index s.next_id
        (max_ℤ s.next_id (pb.id +ℤ pos 1)) (pb.id, pb.hit.hash_str) w new free low
        (next_grows s.next_id pb.id).1 (next_grows s.next_id pb.id).0)

module _ {F : Type 0} (J : JsonLib F) (zero : F) where
  open J use {Json, Doc, parse, dump, is_object}

  recovered_lem :
      (rec : Json) (hit : BlockHit F) (s : BlockStore F Doc) (pb : PendingBlock F)
      → recovered J zero rec hit s ≡ some pb
      → (pb.hit ≡ hit) × ((id : ℤ) × (pb.id ≡ recover_id s id))
  unfolding recovered
  recovered_lem rec hit s pb h =
      let (id, _, h1) = >>=-eq-some (value_int64 J rec (codes "id") s.next_id) _ h in
      let (reason, _, h2) =
        >>=-eq-some (value_text J rec (codes "reason") (codes "jsonl_recover")) _ h1 in
      let (queue_reason, _, h3) =
        >>=-eq-some (value_text J rec (codes "queue_reason") reason) _ h2 in
      let (count, _, h4) = >>=-eq-some (value_int J rec (codes "reject_count") (pos 0)) _ h3 in
      (cc, (id, cc))

  abbrev pub Outcome : Type 0
  Outcome = Option (Bool × BlockStore F Doc)

  pub no_outcome : {b : Bool} {t : BlockStore F Doc} → ◌≡◌ {A = Outcome} none (some (b, t)) → ⊥
  no_outcome h = cc

  pub same_store :
      {a b : Bool} {s t : BlockStore F Doc} → ◌≡◌ {A = Outcome} (some (a, s)) (some (b, t)) → s ≡ t
  same_store h = cc

  -- What a recovery may do: it keeps the invariant and only appends.
  abbrev pub Recovers : BlockStore F Doc → BlockStore F Doc → Type 0
  Recovers s t =
      WellIndexed (entries t.pending) t.hash_index t.next_id
      × ((more : List (PendingBlock F)) × (t.pending ≡ s.pending ++ more))
      × (t.dirty_ops ≡ s.dirty_ops)

  recover_record-Recovers :
      (rec : Json) (s t : BlockStore F Doc) (b : Bool)
      → WellIndexed (entries s.pending) s.hash_index s.next_id
      → recover_record J zero rec s ≡ some (b, t)
      → Recovers s t
  unfolding recover_record
  recover_record-Recovers rec s t b w h = elim (Option-cases (hit_from_json J zero rec)) [
    | inl e ↦ absurd (no_outcome (rw (e, recover_record) at h))
    | inr (hit, e) ↦ split hit (rw (e, recover_record) at h)
  ]
    where
      keeps : (s ≡ t) → Recovers s t
      keeps e = subst (λ u. Recovers s u) e (w, ([], sym (append-nil s.pending)), refl)

      added :
          (hit : BlockHit F)
          → (is_empty hit.hash_str || mem_text hit.hash_str s.hash_index) ≡ false
          → (pb : PendingBlock F) × (recovered J zero rec hit s ≡ some pb)
            × ◌≡◌ {A = Outcome} (some (true, add_block s pb)) (some (b, t))
          → Recovers s t
      added hit new (pb, e, r) =
          let (same, some_id) = recovered_lem rec hit s pb e in
          let (id, at_id) = some_id in
          let (free, low) = recover_id_fresh s id w in
          subst (λ u. Recovers s u) (same_store r)
            (
              add_block-WellIndexed s pb w (unfold is_indexed in rw same (ground arith))
                  (rw at_id free) (rw at_id low),
              (unfold add_block in (pb ∷ [], refl)),
              unfold add_block in refl,
            )

      split :
          (hit : BlockHit F)
          → ◌≡◌ {A = Outcome}
              (if is_empty hit.hash_str || mem_text hit.hash_str s.hash_index
                then some (false, s)
                else (recovered J zero rec hit s >>= λ pb. some (true, add_block s pb)))
              (some (b, t))
          → Recovers s t
      split hit h =
          elim (Bool-cases (is_empty hit.hash_str || mem_text hit.hash_str s.hash_index)) [
            | inl e ↦ keeps (same_store (rw e at h))
            | inr e ↦ added hit e (>>=-eq-some (recovered J zero rec hit s) _ (rw e at h))
          ]

  pub recover_lines-Recovers :
      (lines : List Doc) (added : Bool) (s t : BlockStore F Doc) (b : Bool)
      → WellIndexed (entries s.pending) s.hash_index s.next_id
      → recover_lines J zero lines added s ≡ some (b, t)
      → Recovers s t
  unfolding recover_lines
  recover_lines-Recovers [] added s t b w h =
      subst (λ u. Recovers s u) (same_store h) (w, ([], sym (append-nil s.pending)), refl)
  recover_lines-Recovers (line ∷ rest) added s t b w h =
      go (recover_line J zero line s) refl
        (λ now_added u wu hu. recover_lines-Recovers rest (added || now_added) u t b wu hu) h
    where
      chain : (u : BlockStore F Doc) → Recovers s u → Recovers u t → Recovers s t
      chain u (_, (m, p), d) (w2, (n, q), f) = (
        w2,
        (m ++ n, q ∙ ap (λ (l : List (PendingBlock F)). l ++ n) p ∙ append_assoc s.pending m n),
        f ∙ d,
      )

      skipped :
          (now_added : Bool) (u : BlockStore F Doc)
          → ◌≡◌ {A = Outcome} (some (false, s)) (some (now_added, u))
          → Recovers s u
      skipped now_added u e =
          subst (λ v. Recovers s v) (same_store e) (w, ([], sym (append-nil s.pending)), refl)

      parsed :
          {now_added : Bool} {u : BlockStore F Doc} (d : Option Json)
          → parse line ≡ d
          → recover_line J zero line s ≡ some (now_added, u)
          → Recovers s u
      parsed {now_added} {u} none p e =
          skipped now_added u (unfold recover_line in rw (p, recover_line) at e)
      parsed {now_added} {u} (some rec) p e = elim (Bool-cases (is_object rec)) [
        | inl o ↦
            recover_record-Recovers rec s u now_added w
              (unfold recover_line in rw (p, o, recover_line) at e)
        | inr o ↦ skipped now_added u (unfold recover_line in rw (p, o, recover_line) at e)
      ]

      one :
          (now_added : Bool) (u : BlockStore F Doc)
          → recover_line J zero line s ≡ some (now_added, u)
          → Recovers s u
      one now_added u e = parsed (parse line) refl e

      go :
          (r : Option (Bool × BlockStore F Doc))
          → recover_line J zero line s ≡ r
          → ((now_added : Bool) (u : BlockStore F Doc)
              → WellIndexed (entries u.pending) u.hash_index u.next_id
              → recover_lines J zero rest (added || now_added) u ≡ some (b, t)
              → Recovers u t)
          → ◌≡◌ {A = Outcome}
              (elim r [
                | none ↦ none
                | some (now_added, s') ↦ recover_lines J zero rest (added || now_added) s'
              ])
              (some (b, t))
          → Recovers s t
      go none e ih h = absurd (no_outcome h)
      go (some (now_added, u)) e ih h =
          let first = one now_added u e in chain u first (ih now_added u first.0 h)
