-- ===== src/Supervisor/Worker/Flushes.antt =====
-- `try_flush_pending` of src/app/supervisor.cpp, seen by the digests of the bag, where every hit that is
-- bagged is encoded already.
use x1miner.Base.{
  by_if, ℕ, ◌≤◌, ◌≡◌, refl, sym, ◌∙◌, subst, arith, Bool, true, false, not, ◌||◌, List, [], ◌∷◌,
  ◌++◌, map, keep, All, All-append, any, leb, ltb, Bool-cases, inl, inr,
}
use x1miner.Base.Int.{ℤ, ◌==ℤ◌}
use x1miner.Base.Double.{Double}
use x1miner.Base.Text.{Text, text_eq, is_empty}
use x1miner.Common.{BlockHit}
use x1miner.Common.Json.{JsonLib}
use x1miner.Mining.Encode.{is_argon2_encoded}
use x1miner.Queue.Codec.{PendingBlock}
use x1miner.Queue.Store.{
  BlockStore, mark_pending_reason, maybe_save_unlocked, mark_dirty_unlocked, save_db_unlocked,
  append_rejection, defer_all_to_next_start, flush, update_first, set_reason, deferred, is_indexed,
}
use x1miner.Queue.Store.Invariant.{Entry, entries, count_both, entries-set_reason, entries-deferred}
use x1miner.Supervisor.Live.{Supervisor}
use x1miner.Supervisor.Live.Laws.{is_safe}
use x1miner.Supervisor.Flush.{WorkItem, FlushTally, accept_flush}

abbrev pub Fewer : List Entry → List Entry → Type 0
Fewer l m = (i : ℤ) (h : Text) → count_both i h l ≤ count_both i h m

module _ {F : Type 0} where
  abbrev pub is_reported : Text → List (BlockHit F) → Bool
  is_reported h reported = any (λ r. text_eq r.hash_str h) reported

  -- All blocks of this id have the digest of the item.
  abbrev pub Matches : List Entry → WorkItem F → Type 0
  Matches l item = (h : Text) → 1 ≤ count_both item.id h l → text_eq item.hit.hash_str h ≡ true

  -- What is bagged under this id is reported.
  abbrev pub Covered : List (BlockHit F) → List Entry → ℤ → Type 0
  Covered reported l i = (h : Text) → 1 ≤ count_both i h l → is_reported h reported ≡ true

  abbrev pub Encoded : List (PendingBlock F) → Type 0
  Encoded l = All (λ pb. is_argon2_encoded pb.hit.hash_str ≡ true) l

  pub Encoded-keep :
      (i : ℤ) (l : List (PendingBlock F)) → Encoded l → Encoded (keep (λ pb. not (pb.id ==ℤ i)) l)
  Encoded-keep i [] h = tt
  Encoded-keep i (x ∷ l) h = elim (Bool-cases (x.id ==ℤ i)) [
    | inl e ↦ rw e (Encoded-keep i l h.1)
    | inr e ↦ rw e (h.0, Encoded-keep i l h.1)
  ]

  Encoded-set_reason :
      (r : Text) (i : ℤ) (l : List (PendingBlock F))
      → Encoded l
      → Encoded (update_first (set_reason r) i l)
  unfolding update_first
  Encoded-set_reason r i [] h = tt
  Encoded-set_reason r i (x ∷ l) h = elim (Bool-cases (x.id ==ℤ i)) [
    | inl e ↦ rw e h
    | inr e ↦ rw e (h.0, Encoded-set_reason r i l h.1)
  ]

  pub Encoded-deferred :
      (m : ℕ) (l : List (PendingBlock F)) → Encoded l → Encoded (map (deferred m) l)
  unfolding deferred
  Encoded-deferred m [] h = tt
  Encoded-deferred m (x ∷ l) h = (ground (arith, h.0), Encoded-deferred m l h.1)

  is_reported-append :
      (h : Text) (r : List (BlockHit F)) (x : BlockHit F)
      → is_reported h (r ++ x ∷ []) ≡ (is_reported h r || text_eq x.hash_str h)
  is_reported-append h [] x = ground arith
  is_reported-append h (y ∷ r) x = ground (arith, is_reported-append h r x)

-- What a step of an attempt does to the digests.
pub record Guards {F Doc : Type 0} (s s' : Supervisor F Doc) : Type 0 where
  pub safe :
      (h : Text)
      → is_empty h ≡ false
      → is_safe h s.store.hash_index s.reported ≡ true
      → is_safe h s'.store.hash_index s'.reported ≡ true
  pub fewer : Fewer (entries s'.store.pending) (entries s.store.pending)
  pub more : (h : Text) → is_reported h s.reported ≡ true → is_reported h s'.reported ≡ true
  pub encoded : Encoded s.store.pending → Encoded s'.store.pending
  pub queue : s'.live_q ≡ s.live_q

module _ {F Doc : Type 0} where
  pub Guards-refl : (s : Supervisor F Doc) → Guards s s
  Guards-refl s = record {
    safe = λ h ne e. e;
    fewer = λ i h. omega arith;
    more = λ h e. e;
    encoded = λ e. e;
    queue = refl;
  }

  pub Guards-trans : (s t u : Supervisor F Doc) → Guards s t → Guards t u → Guards s u
  Guards-trans s t u x y = record {
    safe = λ h ne e. y.safe h ne (x.safe h ne e);
    fewer = λ i h. omega (arith, x.fewer i h, y.fewer i h);
    more = λ h e. y.more h (x.more h e);
    encoded = λ e. y.encoded (x.encoded e);
    queue = y.queue ∙ x.queue;
  }

  pub record Alike (st st' : BlockStore F Doc) : Type 0 where
    pub index : st'.hash_index ≡ st.hash_index
    pub same : entries st'.pending ≡ entries st.pending
    pub encoded : Encoded st.pending → Encoded st'.pending

  pub Alike-refl : (st : BlockStore F Doc) → Alike st st
  Alike-refl st = record { index = refl; same = refl; encoded = λ e. e }

  pub Alike-trans : (st su sv : BlockStore F Doc) → Alike st su → Alike su sv → Alike st sv
  Alike-trans st su sv x y = record {
    index = y.index ∙ x.index;
    same = y.same ∙ x.same;
    encoded = λ e. y.encoded (x.encoded e);
  }

  -- A step that leaves the digests in the bag, and may report.
  pub Alike-Guards :
      (s s' : Supervisor F Doc)
      → Alike s.store s'.store
      → s'.live_q ≡ s.live_q
      → ((h : Text) → is_reported h s.reported ≡ true → is_reported h s'.reported ≡ true)
      → Guards s s'
  unfolding is_safe
  Alike-Guards s s' a queue more = record {
    safe = λ h ne e.
        subst (λ x. (is_indexed h x || is_reported h s'.reported) ≡ true) (sym a.index)
          (ground (arith, e, more h));
    fewer = λ i h.
        subst (λ x. count_both i h x ≤ count_both i h (entries s.store.pending)) (sym a.same)
          (omega arith);
    more = more;
    encoded = a.encoded;
    queue = queue;
  }

module _ (D : Double) (J : JsonLib D.F) where
  open D use {F}
  open J use {Doc}

  saved-Alike : (st : BlockStore F Doc) → Alike st (maybe_save_unlocked J st)
  unfolding maybe_save_unlocked save_db_unlocked
  saved-Alike st =
      by_if (Alike st) (leb 8 st.dirty_ops) (record { index = refl; same = refl; encoded = λ e. e })
        (Alike-refl st)

  pub reason-Alike :
      (st : BlockStore F Doc) (id : ℤ) (r : Text) → Alike st (mark_pending_reason J st id r)
  unfolding mark_pending_reason mark_dirty_unlocked
  reason-Alike st id r =
      let marked : BlockStore F Doc =
        mark_dirty_unlocked J (record st { pending = update_first (set_reason r) id st.pending }) in
      Alike-trans st marked _
        (record {
          index = refl;
          same = entries-set_reason r id st.pending;
          encoded = Encoded-set_reason r id st.pending;
        })
        (saved-Alike marked)

  pub log-Alike :
      (now : Text) (st : BlockStore F Doc) (hit : BlockHit F) (status : ℤ) (body source : Text)
      → Alike st (append_rejection J now st hit status body source)
  unfolding append_rejection
  log-Alike now st hit status body source = record { index = refl; same = refl; encoded = λ e. e }

  pub defer-Alike :
      (minute : ℕ) (st : BlockStore F Doc) → Alike st (defer_all_to_next_start J minute st)
  unfolding defer_all_to_next_start mark_dirty_unlocked save_db_unlocked
  defer-Alike minute st = record {
    index = refl;
    same = entries-deferred minute st.pending;
    encoded = Encoded-deferred minute st.pending;
  }

  pub flush-Alike : (st : BlockStore F Doc) → Alike st (flush J st)
  unfolding flush save_db_unlocked
  flush-Alike st =
      by_if (Alike st) (ltb 0 st.dirty_ops) (record { index = refl; same = refl; encoded = λ e. e })
        (Alike-refl st)

  -- The round so far: the ids that it will take out are covered by reports.
  pub record InRound (s : Supervisor F Doc) (x : Supervisor F Doc × FlushTally) : Type 0 where
    pub guards : Guards s x.0
    pub covered : All (Covered x.0.reported (entries x.0.store.pending)) x.1.accepted_ids

  pub Covered-later :
      (s s' : Supervisor F Doc) (ids : List ℤ)
      → Guards s s'
      → All (Covered s.reported (entries s.store.pending)) ids
      → All (Covered s'.reported (entries s'.store.pending)) ids
  Covered-later s s' [] g a = tt
  Covered-later s s' (i ∷ ids) g a =
      (λ h e. g.more h (a.0 h (omega (arith, e, g.fewer i h))), Covered-later s s' ids g a.1)

  -- A step of the round that accepts nothing.
  pub goes_on :
      (s : Supervisor F Doc) (x : Supervisor F Doc × FlushTally) (s' : Supervisor F Doc)
      (y : FlushTally)
      → y.accepted_ids ≡ x.1.accepted_ids
      → Guards x.0 s'
      → InRound s x
      → InRound s (s', y)
  goes_on s x s' y same g r = record {
    guards = Guards-trans s x.0 s' r.guards g;
    covered =
        subst (λ ids. All (Covered s'.reported (entries s'.store.pending)) ids) (sym same)
          (Covered-later x.0 s' x.1.accepted_ids g r.covered);
  }

  pub accept-InRound :
      (s : Supervisor F Doc) (item : WorkItem F) (x : Supervisor F Doc × FlushTally)
      → Matches (entries x.0.store.pending) item
      → InRound s x
      → InRound s (accept_flush D J item x)
  unfolding accept_flush
  accept-InRound s item (u, y) m r =
      let v = (accept_flush D J item (u, y)).0 in
      let more : (h : Text) → is_reported h u.reported ≡ true → is_reported h v.reported ≡ true =
        λ h e. is_reported-append h u.reported item.hit ∙ ground (arith, e) in
      let g : Guards u v = Alike-Guards u v (Alike-refl u.store) refl more in
      record {
        guards = Guards-trans s u v r.guards g;
        covered =
            All-append (Covered v.reported (entries u.store.pending)) y.accepted_ids (item.id ∷ [])
              (Covered-later u v y.accepted_ids g r.covered)
              (λ h e. is_reported-append h u.reported item.hit ∙ ground (arith, m h e), tt);
      }
