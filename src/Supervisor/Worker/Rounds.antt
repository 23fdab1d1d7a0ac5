-- ===== src/Supervisor/Worker/Rounds.antt =====
-- The rounds of `try_flush_pending` of src/app/supervisor.cpp, seen by the digests of the bag.
use x1miner.Base.{
  by_if, inl, inr, ℕ, zero, suc, ◌≡◌, refl, sym, subst, arith, Bool, true, ◌||◌, List, [], ◌∷◌, All,
  take, drop, if◌then◌else◌,
}
use x1miner.Base.Int.{ℤ, pos, ◌==ℤ◌}
use x1miner.Base.Double.{Double}
use x1miner.Base.Text.{codes}
use x1miner.Common.{BlockHit, SubmitResult}
use x1miner.Common.Json.{JsonLib}
use x1miner.Network.Submit.{
  is_difficulty_mismatch, is_xuni_window_reject, is_transient_submit_failure, is_pool_hold,
}
use x1miner.Queue.Store.{
  BlockStore, mark_submitted_many, mark_pending_reason, mark_dirty_unlocked, save_db_unlocked,
  append_rejection, remove_id, remove_ids, is_indexed,
}
use x1miner.Queue.Store.Invariant.{
  Entry, entries, entries-keep, mem_text-unindex_matches, count_both-keep,
}
use x1miner.Queue.Store.Methods.{log_rejection_cases}
use x1miner.Supervisor.Oracle.{Config}
use x1miner.Supervisor.Worker.Flushes.{
  Fewer, is_reported, Matches, Covered, Encoded-keep, Guards, Guards-refl, Guards-trans, Alike,
  Alike-refl, Alike-trans, Alike-Guards, reason-Alike, log-Alike, InRound, Covered-later, goes_on,
  accept-InRound,
}
use x1miner.Supervisor.Live.{has_thrown, Supervisor, Moment, is_none_left}
use x1miner.Supervisor.Live.Laws.{is_safe}
use x1miner.Supervisor.Flush.{
  WorkItem, FlushTally, fail_flush, hold_flush, after_log, reject_flush, settle_item, settle_items,
  flush_round, flush_rounds,
}

module _ (D : Double) (J : JsonLib D.F) where
  open D use {F}
  open J use {Doc}

  settle_item-InRound :
      (c : Config) (t : Moment F) (down : Bool) (item : WorkItem F) (result : SubmitResult)
      (s : Supervisor F Doc) (x : Supervisor F Doc × FlushTally)
      → Matches (entries x.0.store.pending) item
      → InRound D J s x
      → InRound D J s (settle_item D J c t down item result x)
  unfolding settle_item fail_flush hold_flush reject_flush after_log
  settle_item-InRound c t down item result s (u, y) m r =
      let P : Supervisor F Doc × FlushTally → Type 0 = InRound D J s in
      let from : (st : BlockStore F Doc) (v : Supervisor F Doc) (z : FlushTally)
          → Alike u.store st
          → v.store ≡ st
          → v.reported ≡ u.reported
          → v.live_q ≡ u.live_q
          → z.accepted_ids ≡ y.accepted_ids
          → P (v, z) =
        λ st v z a same told queue ids.
          goes_on D J s (u, y) v z ids
            (Alike-Guards u v (subst (Alike u.store) (sym same) a) queue
              (λ h e. subst (λ q. is_reported h q ≡ true) (sym told) e))
            r in
      let logged =
        append_rejection J t.clock u.store item.hit result.status result.body (codes "flush") in
      let marked = reason-Alike D J u.store item.id in
      by_if P result.ok (accept-InRound D J s item (u, y) m r) (
        by_if P ((result.status ==ℤ pos 0) || is_transient_submit_failure result.status result.body)
          (by_if P down r (from _ _ _ (marked (codes "network_down")) refl refl refl refl))
          (by_if P
            (is_pool_hold result.status result.body
              || is_difficulty_mismatch result.status result.body
              || is_xuni_window_reject result.status result.body)
            (from
              (if is_difficulty_mismatch result.status result.body
                then mark_pending_reason J u.store item.id (codes "parked")
                else u.store)
              _ _
              (by_if (Alike u.store) (is_difficulty_mismatch result.status result.body)
                (marked (codes "parked")) (Alike-refl u.store))
              refl refl refl refl)
            (elim (log_rejection_cases J t.clock u.store item.hit result.status result.body
              (codes "flush")) [
                | inl e ↦ rw e (from u.store _ _ (Alike-refl u.store) refl refl refl refl)
                | inr e ↦ rw e (
                    from _ _ _
                      (Alike-trans u.store logged _
                        (log-Alike D J t.clock u.store item.hit result.status result.body
                          (codes "flush"))
                        (reason-Alike D J logged item.id (codes "resubmission")))
                      refl refl refl refl)
              ])))

  Matches-later :
      (l m : List Entry) (items : List (WorkItem F))
      → Fewer m l
      → All (Matches l) items
      → All (Matches m) items
  Matches-later l m [] f a = tt
  Matches-later l m (item ∷ items) f a =
      (λ h e. a.0 h (omega (arith, e, f item.id h)), Matches-later l m items f a.1)

  module _ (c : Config) (pool : BlockHit F → SubmitResult) (t : Moment F) (down : Bool) where
    settle_items-InRound :
        (items : List (WorkItem F)) (s : Supervisor F Doc) (x : Supervisor F Doc × FlushTally)
        → All (Matches (entries s.store.pending)) items
        → InRound D J s x
        → InRound D J s (settle_items D J c pool t down items x)
    unfolding settle_items
    settle_items-InRound [] s x a r = r
    settle_items-InRound (item ∷ items) s x a r =
        let x' = settle_item D J c t down item (pool item.hit) x in
        let r' =
          settle_item-InRound c t down item (pool item.hit) s x
            (λ h e. a.0 h (omega (arith, e, r.guards.fewer item.id h))) r in
        by_if (InRound D J s) (has_thrown x.0 x'.0) r' (settle_items-InRound items s x' a.1 r')

  remove_id-Guards :
      (i : ℤ) (s : Supervisor F Doc)
      → Covered s.reported (entries s.store.pending) i
      → Guards s (record s { store = remove_id J i s.store })
  unfolding remove_id is_safe is_indexed
  remove_id-Guards i s cover = record {
    safe = λ h ne e.
        ground (
          arith,
          ne,
          e,
          cover h,
          mem_text-unindex_matches i h s.store.pending s.store.hash_index ne,
        );
    fewer = λ j h.
        rw (entries-keep i s.store.pending) (count_both-keep i j h (entries s.store.pending));
    more = λ h e. e;
    encoded = Encoded-keep i s.store.pending;
    queue = refl;
  }

  remove_ids-Guards :
      (ids : List ℤ) (s : Supervisor F Doc)
      → All (Covered s.reported (entries s.store.pending)) ids
      → Guards s (record s { store = remove_ids J ids s.store })
  unfolding remove_ids
  remove_ids-Guards [] s a = Guards-refl s
  remove_ids-Guards (i ∷ ids) s a =
      let s' : Supervisor F Doc = record s { store = remove_id J i s.store } in
      let g = remove_id-Guards i s a.0 in
      Guards-trans s s' _ g (remove_ids-Guards ids s' (Covered-later D J s s' ids g a.1))

  submit-Guards :
      (ids : List ℤ) (s : Supervisor F Doc)
      → All (Covered s.reported (entries s.store.pending)) ids
      → Guards s (record s { store = mark_submitted_many J s.store ids })
  unfolding mark_submitted_many mark_dirty_unlocked save_db_unlocked
  submit-Guards [] s a = Guards-refl s
  submit-Guards (i ∷ ids) s a =
      let s' : Supervisor F Doc = record s { store = remove_ids J (i ∷ ids) s.store } in
      Guards-trans s s' _ (remove_ids-Guards (i ∷ ids) s a) (
        Alike-Guards s' (record s { store = mark_submitted_many J s.store (i ∷ ids) })
          (record { index = refl; same = refl; encoded = λ e. e }) refl (λ h e. e))

  module _ (c : Config) (pool : BlockHit F → SubmitResult) (t : Moment F) (down : Bool) where
    flush_round-Guards :
        (items : List (WorkItem F)) (x : Supervisor F Doc × FlushTally)
        → All (Matches (entries x.0.store.pending)) items
        → Guards x.0 (flush_round D J c pool t down items x).0
    unfolding flush_round
    flush_round-Guards items (s, y) a =
        let z = settle_items D J c pool t down items (s, record y { accepted_ids = [] }) in
        let r =
          settle_items-InRound c pool t down items s (s, record y { accepted_ids = [] }) a
            (record { guards = Guards-refl s; covered = tt }) in
        by_if (λ (u : Supervisor F Doc × FlushTally). Guards s u.0) (has_thrown s z.0) r.guards
          (Guards-trans s z.0 _ r.guards (submit-Guards z.1.accepted_ids z.0 r.covered))

    All-take :
        (n : ℕ) (l : List Entry) (items : List (WorkItem F))
        → All (Matches l) items
        → All (Matches l) (take n items)
    All-take zero l items h = tt
    All-take (suc n) l [] h = tt
    All-take (suc n) l (x ∷ items) h = (h.0, All-take n l items h.1)

    All-drop :
        (n : ℕ) (l : List Entry) (items : List (WorkItem F))
        → All (Matches l) items
        → All (Matches l) (drop n items)
    All-drop zero l items h = h
    All-drop (suc n) l [] h = tt
    All-drop (suc n) l (x ∷ items) h = All-drop n l items h.1

    pub flush_rounds-Guards :
        (turns parallel : ℕ) (work : List (WorkItem F)) (x : Supervisor F Doc × FlushTally)
        → All (Matches (entries x.0.store.pending)) work
        → Guards x.0 (flush_rounds D J c pool t down turns parallel work x).0
    unfolding flush_rounds
    flush_rounds-Guards zero parallel work x a = Guards-refl x.0
    flush_rounds-Guards (suc turns) parallel work x a =
        let l = entries x.0.store.pending in
        let round = flush_round D J c pool t down (take parallel work) x in
        let g = flush_round-Guards (take parallel work) x (All-take parallel l work a) in
        let Q : Supervisor F Doc × FlushTally → Type 0 = λ z. Guards x.0 z.0 in
        by_if Q (is_none_left work || x.1.transport_fail) (Guards-refl x.0) (
          by_if Q (has_thrown x.0 round.0) g (
            Guards-trans x.0 round.0 _ g (
              flush_rounds-Guards turns parallel (drop parallel work) round (
                Matches-later l (entries round.0.store.pending) (drop parallel work) g.fewer
                  (All-drop parallel l work a)))))
