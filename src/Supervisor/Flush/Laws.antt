-- ===== src/Supervisor/Flush/Laws.antt =====
-- `try_flush_pending` of src/app/supervisor.cpp: what an attempt does to the bag.
use x1miner.Base.{
  by_if, ℕ, zero, suc, ◌≡◌, ◌⊎◌, refl, ap, ◌∙◌, subst, All-append, arith, Bool, true, false, not,
  ◌&&◌, ◌||◌, List, [], ◌∷◌, keep, All, take, drop, leb, ltb, length, Bool-cases, inl, inr,
}
use x1miner.Base.Int.{ℤ, pos, ◌==ℤ◌, ==ℤ→eq}
use x1miner.Base.Double.{Double}
use x1miner.Base.Text.{Text, codes}
use x1miner.Common.{BlockHit, SubmitResult}
use x1miner.Common.Json.{JsonLib}
use x1miner.Network.Submit.{
  is_difficulty_mismatch, is_xuni_window_reject, is_transient_submit_failure, is_pool_hold,
}
use x1miner.Queue.Codec.{PendingBlock}
use x1miner.Queue.Store.{
  BlockStore, mark_submitted, mark_submitted_many, mark_pending_reason, maybe_save_unlocked,
  mark_dirty_unlocked, save_db_unlocked, append_rejection, defer_all_to_next_start, remove_id,
  remove_ids,
}
use x1miner.Queue.Store.Invariant.{
  Entry, entries, count_id, other_id, entries-keep, entries-set_reason, entries-deferred,
}
use x1miner.Queue.Store.Methods.{IsValid, StoreCall, step, step-IsValid, log_rejection_cases}
use x1miner.Supervisor.Oracle.{Config}
use x1miner.Supervisor.Live.{Supervisor, Moment, is_none_left, has_thrown}
use x1miner.Supervisor.Flush.{
  WorkItem, Choice, FlushTally, is_sent, take_choice, build_work, accept_flush, fail_flush,
  hold_flush, after_log, reject_flush, settle_item, settle_items, flush_round, flush_rounds,
}

-- The second store is valid when the first is, and it has as many blocks of each id, but for the ids
-- of which `P` holds.
pub record Sheds {F Doc : Type 0} (P : ℤ → Type 0) (s s' : BlockStore F Doc) : Type 0 where
  pub keeps : (i : ℤ) → (count_id i (entries s'.pending) ≡ count_id i (entries s.pending)) ⊎ P i
  pub valid : IsValid s → IsValid s'

count_id-other :
    (i j : ℤ) (l : List Entry) → (i ==ℤ j) ≡ false → count_id j (keep (other_id i) l) ≡ count_id j l
unfolding count_id
count_id-other i j [] h = refl
count_id-other i j (e ∷ l) h = ground (arith, count_id-other i j l h)

module _ (D : Double) (J : JsonLib D.F) (P : ℤ → Type 0) where
  open D use {F}
  open J use {Doc}

  pub Sheds-refl : (s : BlockStore F Doc) → Sheds P s s
  Sheds-refl s = record { keeps = λ i. inl refl; valid = λ v. v }

  both : (i : ℤ) (a b d : ℕ) → (b ≡ a) ⊎ P i → (d ≡ b) ⊎ P i → (d ≡ a) ⊎ P i
  both i a b d (inl e) (inl f) = inl (f ∙ e)
  both i a b d (inr p) y = inr p
  both i a b d (inl e) (inr p) = inr p

  pub Sheds-trans : (s t u : BlockStore F Doc) → Sheds P s t → Sheds P t u → Sheds P s u
  Sheds-trans s t u x y = record {
    keeps = λ i. both i _ _ _ (x.keeps i) (y.keeps i);
    valid = λ v. y.valid (x.valid v);
  }

  reason-Sheds :
      (s : BlockStore F Doc) (id : ℤ) (r : Text) → Sheds P s (mark_pending_reason J s id r)
  unfolding mark_pending_reason maybe_save_unlocked mark_dirty_unlocked save_db_unlocked step
  reason-Sheds s id r = record {
    keeps = λ i. inl (ap (count_id i) (ground (arith, entries-set_reason r id s.pending)));
    valid = λ v. step-IsValid J s (StoreCall.gives_reason id r) v;
  }

  log-Sheds :
      (now : Text) (s : BlockStore F Doc) (hit : BlockHit F) (status : ℤ) (body source : Text)
      → Sheds P s (append_rejection J now s hit status body source)
  unfolding append_rejection
  log-Sheds now s hit status body source = record {
    keeps = λ i. inl refl;
    valid = λ v. record { indexed = v.indexed; written_back = v.written_back };
  }

  pub defer-Sheds :
      (minute : ℕ) (s : BlockStore F Doc) → Sheds P s (defer_all_to_next_start J minute s)
  unfolding defer_all_to_next_start mark_dirty_unlocked save_db_unlocked step
  defer-Sheds minute s = record {
    keeps = λ i. inl (ap (count_id i) (entries-deferred minute s.pending));
    valid = λ v. step-IsValid J s (StoreCall.defers minute) v;
  }

  remove-count :
      (i j : ℤ) (l : List (PendingBlock F))
      → P i
      → (count_id j (entries (keep (λ pb. not (pb.id ==ℤ i)) l)) ≡ count_id j (entries l)) ⊎ P j
  remove-count i j l p = elim (Bool-cases (i ==ℤ j)) [
    | inl e ↦ inr (subst P (==ℤ→eq i j e) p)
    | inr e ↦ inl (ap (count_id j) (entries-keep i l) ∙ count_id-other i j (entries l) e)
  ]

  removes-count :
      (j : ℤ) (ids : List ℤ) (s : BlockStore F Doc)
      → All P ids
      → (count_id j (entries (remove_ids J ids s).pending) ≡ count_id j (entries s.pending)) ⊎ P j
  unfolding remove_ids remove_id
  removes-count j [] s p = inl refl
  removes-count j (id ∷ ids) s p =
      both j _ _ _ (remove-count id j s.pending p.0) (removes-count j ids (remove_id J id s) p.1)

  submit-count :
      (j : ℤ) (ids : List ℤ) (s : BlockStore F Doc)
      → All P ids
      → (count_id j (entries (mark_submitted_many J s ids).pending)
          ≡ count_id j (entries s.pending))
        ⊎ P j
  unfolding mark_submitted_many save_db_unlocked mark_dirty_unlocked
  submit-count j [] s p = inl refl
  submit-count j (id ∷ ids) s p = removes-count j (id ∷ ids) s p

  submit-Sheds :
      (s : BlockStore F Doc) (ids : List ℤ) → All P ids → Sheds P s (mark_submitted_many J s ids)
  unfolding step
  submit-Sheds s ids p = record {
    keeps = λ j. submit-count j ids s p;
    valid = λ v. step-IsValid J s (StoreCall.submits ids) v;
  }

  module _ (pool : BlockHit F → SubmitResult) where
    -- The block of an item may go when the pool takes it.
    abbrev pub MayGo : WorkItem F → Type 0
    MayGo item = (pool item.hit).ok ≡ true → P item.id

    abbrev pub MayPick : (PendingBlock F → Choice F) → PendingBlock F → Type 0
    MayPick pick pb =
        (pick pb ≡ Choice.drops → P pb.id)
        × ((item : WorkItem F) → pick pb ≡ Choice.sends item → MayGo item)

    -- The store so far, and the ids that the round has to submit.
    abbrev Holds : BlockStore F Doc → Supervisor F Doc × FlushTally → Type 0
    Holds s0 x = Sheds P s0 x.0.store × All P x.1.accepted_ids

    settle_item-Holds :
        (c : Config) (t : Moment F) (down : Bool) (item : WorkItem F) (s0 : BlockStore F Doc)
        (x : Supervisor F Doc × FlushTally)
        → MayGo item
        → Holds s0 x
        → Holds s0 (settle_item D J c t down item (pool item.hit) x)
    unfolding settle_item accept_flush fail_flush hold_flush reject_flush after_log
    settle_item-Holds c t down item s0 (s, y) go (h, a) =
        let r = pool item.hit in
        let Q = Holds s0 in
        let mark : (reason : Text) → Sheds P s0 (mark_pending_reason J s.store item.id reason) =
          λ reason. Sheds-trans s0 s.store _ h (reason-Sheds s.store item.id reason) in
        let logged = append_rejection J t.clock s.store item.hit r.status r.body (codes "flush") in
        let rejected : Sheds P s0 (mark_pending_reason J logged item.id (codes "resubmission")) =
          Sheds-trans s0 s.store _ h (
            Sheds-trans s.store logged _
              (log-Sheds t.clock s.store item.hit r.status r.body (codes "flush"))
              (reason-Sheds logged item.id (codes "resubmission"))) in
        elim (Bool-cases r.ok) [
          | inl e ↦ rw e (h, All-append P y.accepted_ids (item.id ∷ []) a (go e, tt))
          | inr e ↦ rw e (
              by_if Q ((r.status ==ℤ pos 0) || is_transient_submit_failure r.status r.body)
                (by_if Q down (h, a) (mark (codes "network_down"), a))
                (by_if Q
                  (is_pool_hold r.status r.body
                    || is_difficulty_mismatch r.status r.body
                    || is_xuni_window_reject r.status r.body)
                  (
                    by_if (λ z. Sheds P s0 z) (is_difficulty_mismatch r.status r.body)
                        (mark (codes "parked")) h,
                    a,
                  )
                  (elim (log_rejection_cases J t.clock s.store item.hit r.status r.body
                    (codes "flush")) [ inl e' ↦ rw e' (h, a) | inr e' ↦ rw e' (rejected, a) ])))
        ]

    settle_items-Holds :
        (c : Config) (t : Moment F) (down : Bool) (items : List (WorkItem F))
        (s0 : BlockStore F Doc) (x : Supervisor F Doc × FlushTally)
        → All MayGo items
        → Holds s0 x
        → Holds s0 (settle_items D J c pool t down items x)
    unfolding settle_items
    settle_items-Holds c t down [] s0 x go h = h
    settle_items-Holds c t down (item ∷ items) s0 x go h =
        let x' = settle_item D J c t down item (pool item.hit) x in
        let h' = settle_item-Holds c t down item s0 x go.0 h in
        by_if (Holds s0) (has_thrown x.0 x'.0) h' (settle_items-Holds c t down items s0 x' go.1 h')

    flush_round-Sheds :
        (c : Config) (t : Moment F) (down : Bool) (items : List (WorkItem F))
        (x : Supervisor F Doc × FlushTally)
        → All MayGo items
        → Sheds P x.0.store (flush_round D J c pool t down items x).0.store
    unfolding flush_round
    flush_round-Sheds c t down items (s, y) go =
        let start : Supervisor F Doc × FlushTally = (s, record y { accepted_ids = [] }) in
        let done = settle_items D J c pool t down items start in
        let (h, a) = settle_items-Holds c t down items s.store start go (Sheds-refl s.store, tt) in
        by_if (λ (z : Supervisor F Doc × FlushTally). Sheds P s.store z.0.store)
          (has_thrown s done.0) h
          (Sheds-trans s.store done.0.store _ h (submit-Sheds done.0.store done.1.accepted_ids a))

    All-take : (n : ℕ) (l : List (WorkItem F)) → All MayGo l → All MayGo (take n l)
    All-take zero l h = tt
    All-take (suc n) [] h = tt
    All-take (suc n) (x ∷ l) h = (h.0, All-take n l h.1)

    All-drop : (n : ℕ) (l : List (WorkItem F)) → All MayGo l → All MayGo (drop n l)
    All-drop zero l h = h
    All-drop (suc n) [] h = tt
    All-drop (suc n) (x ∷ l) h = All-drop n l h.1

    pub flush_rounds-Sheds :
        (c : Config) (t : Moment F) (down : Bool) (turns parallel : ℕ) (work : List (WorkItem F))
        (x : Supervisor F Doc × FlushTally)
        → All MayGo work
        → Sheds P x.0.store (flush_rounds D J c pool t down turns parallel work x).0.store
    unfolding flush_rounds
    flush_rounds-Sheds c t down zero parallel work x go = Sheds-refl x.0.store
    flush_rounds-Sheds c t down (suc turns) parallel work x go =
        let round = flush_round D J c pool t down (take parallel work) x in
        let Q : Supervisor F Doc × FlushTally → Type 0 = λ z. Sheds P x.0.store z.0.store in
        let first = flush_round-Sheds c t down (take parallel work) x (All-take parallel work go) in
        by_if Q (is_none_left work || x.1.transport_fail) (Sheds-refl x.0.store) (
          by_if Q (has_thrown x.0 round.0) first (
            Sheds-trans x.0.store round.0.store _ first (
              flush_rounds-Sheds c t down turns parallel (drop parallel work) round
                (All-drop parallel work go))))

    -- The items that are to be sent, and the store so far.
    abbrev pub Works : BlockStore F Doc → List (WorkItem F) × BlockStore F Doc → Type 0
    Works s0 x = All MayGo x.0 × Sheds P s0 x.1

    take_choice-Works :
        (a : Choice F) (id : ℤ) (s0 : BlockStore F Doc) (x : List (WorkItem F) × BlockStore F Doc)
        → (a ≡ Choice.drops → P id)
        → ((item : WorkItem F) → a ≡ Choice.sends item → MayGo item)
        → Works s0 x
        → Works s0 (take_choice D J a id x)
    unfolding take_choice mark_submitted
    take_choice-Works Choice.skips id s0 x dropped sent h = h
    take_choice-Works Choice.drops id s0 (work, store) dropped sent (go, h) =
        (go, Sheds-trans s0 store _ h (submit-Sheds store (id ∷ []) (dropped refl, tt)))
    take_choice-Works (Choice.sends item) id s0 (work, store) dropped sent (go, h) =
        (All-append MayGo work (item ∷ []) go (sent item refl, tt), h)

    pub build_work-Works :
        (pick : PendingBlock F → Choice F) (most : ℕ) (l : List (PendingBlock F))
        (s0 : BlockStore F Doc) (x : List (WorkItem F) × BlockStore F Doc)
        → All (MayPick pick) l
        → Works s0 x
        → Works s0 (build_work D J pick most l x)
    unfolding build_work
    build_work-Works pick most [] s0 x may h = h
    build_work-Works pick most (pb ∷ l) s0 x may h =
        let x' = take_choice D J (pick pb) pb.id x in
        let h' = take_choice-Works (pick pb) pb.id s0 x may.0.0 may.0.1 h in
        by_if (Works s0) (is_sent (pick pb) && ltb 0 most && leb most (length x'.0)) h'
          (build_work-Works pick most l s0 x' may.1 h')
