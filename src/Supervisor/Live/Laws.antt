-- ===== src/Supervisor/Live/Laws.antt =====
-- The steps of a hit in src/app/supervisor.cpp, seen by the digests that are bagged or reported.
use x1miner.Base.{
  by_if, ◌≡◌, refl, arith, Bool, true, false, not, ◌&&◌, ◌||◌, List, [], ◌∷◌, ◌++◌, if◌then◌else◌,
  any, value_or, Bool-cases, inl, inr,
}
use x1miner.Base.Int.{pos, ◌==ℤ◌}
use x1miner.Base.Double.{Double}
use x1miner.Base.Text.{Text, codes, text_eq, text_eq_refl, is_empty}
use x1miner.Common.{BlockHit, SubmitResult}
use x1miner.Common.Json.{JsonLib}
use x1miner.Network.Submit.{
  is_difficulty_mismatch, is_xuni_window_reject, is_transient_submit_failure, is_pool_hold,
}
use x1miner.Queue.Store.{
  outside_xuni_window_reason, shutdown_pending_reason, BlockStore, enqueue, is_indexed, index_hit,
  append_rejection, record_direct_submit,
}
use x1miner.Queue.Store.Invariant.{mem_text-insert_hash}
use x1miner.Queue.Store.Methods.{record_rejection_prints}
use x1miner.Queue.Store.Effects.{enqueue_cases, indexed_after_enqueue}
use x1miner.Supervisor.Oracle.{
  Config, mining_difficulty, oracle_says_m, live_submit_allowed, can_submit_hit_m,
}
use x1miner.Supervisor.Network.{refresh_network, note_submit_transport_failure}
use x1miner.Supervisor.Live.{
  Supervisor, LiveSubmitJob, Moment, Printable, has_thrown, xuni_waits, difficulty_change_reason,
  queue_hit, accept_live, after_rejection, reject_live, settle_live, process_live_submit,
}

-- A digest is bagged, or the pool accepted a hit with it.
unfoldable pub is_safe : {F : Type 0} → Text → List Text → List (BlockHit F) → Bool
is_safe h index reported = is_indexed h index || any (λ r. text_eq r.hash_str h) reported

not_and : (b : Bool) → (not b && b) ≡ false
not_and true = refl
not_and false = refl

pub has_thrown-same :
    {F Doc : Type 0} (s s' : Supervisor F Doc) → s'.ended ≡ s.ended → has_thrown s s' ≡ false
unfolding has_thrown
has_thrown-same s s' e = rw e (not_and s.ended)

-- What a step does from an index and a list of reports on: no digest is lost, and the digest `g` is
-- safe when it is one.
pub record Secures {F Doc : Type 0} (g : Text) (index : List Text) (reported : List (BlockHit F))
    (s : Supervisor F Doc) : Type 0 where
  pub keeps :
      (h : Text) → is_safe h index reported ≡ true → is_safe h s.store.hash_index s.reported ≡ true
  pub takes : is_empty g ≡ false → is_safe g s.store.hash_index s.reported ≡ true

module _ (D : Double) (J : JsonLib D.F) where
  open D use {F}
  open J use {Doc}

  abbrev Safe : Text → Supervisor F Doc → Type 0
  Safe h s = is_safe h s.store.hash_index s.reported ≡ true

  pub enqueue-keeps :
      (clock : Text) (s : BlockStore F Doc) (hit : BlockHit F) (reason h : Text)
      → is_indexed h s.hash_index ≡ true
      → is_indexed h (enqueue J clock s hit reason).1.hash_index ≡ true
  unfolding is_indexed index_hit
  enqueue-keeps clock s hit reason h e = elim (enqueue_cases J clock s hit reason) [
    | inl (_, same) ↦ rw same e
    | inr (_, _, _, _, _, x) ↦ ground (arith, x h, mem_text-insert_hash h hit.hash_str s.hash_index)
  ]

  pub safe_mono :
      (h : Text) (i j : List Text) (r : List (BlockHit F))
      → (is_indexed h i ≡ true → is_indexed h j ≡ true)
      → is_safe h i r ≡ true
      → is_safe h j r ≡ true
  unfolding is_safe
  safe_mono h i j r f e = elim (Bool-cases (is_indexed h i)) [
    | inl a ↦ rw (f a) refl
    | inr a ↦ let b = (rw a at e) in ground (arith, b)
  ]

  pub queue_hit-Secures :
      (clock : Text) (hit : BlockHit F) (kind reason : Text) (s : Supervisor F Doc)
      → Secures hit.hash_str s.store.hash_index s.reported (queue_hit D J clock hit kind reason s)
  unfolding queue_hit is_safe
  queue_hit-Secures clock hit kind reason s = record {
    keeps = (λ h.
        safe_mono h s.store.hash_index (enqueue J clock s.store hit reason).1.hash_index s.reported
          (enqueue-keeps clock s.store hit reason h));
    takes = λ ne. rw (indexed_after_enqueue J clock s.store hit reason ne) refl;
  }

  or_right : (a b : Bool) → b ≡ true → (a || b) ≡ true
  or_right a b e = ground (arith, e)

  any-append-left :
      (p : BlockHit F → Bool) (r : List (BlockHit F)) (x : BlockHit F)
      → any p r ≡ true
      → any p (r ++ x ∷ []) ≡ true
  any-append-left p [] x e = ground arith
  any-append-left p (y ∷ r) x e = ground (arith, any-append-left p r x)

  any-append-last :
      (p : BlockHit F → Bool) (r : List (BlockHit F)) (x : BlockHit F)
      → p x ≡ true
      → any p (r ++ x ∷ []) ≡ true
  any-append-last p [] x e = ground (arith, e)
  any-append-last p (y ∷ r) x e = or_right (p y) _ (any-append-last p r x e)

  report_mono :
      (h : Text) (i : List Text) (r : List (BlockHit F)) (x : BlockHit F)
      → is_safe h i r ≡ true
      → is_safe h i (r ++ x ∷ []) ≡ true
  unfolding is_safe
  report_mono h i r x e = elim (Bool-cases (is_indexed h i)) [
    | inl a ↦ rw a refl
    | inr a ↦
        let b = (rw a at e) in
        or_right (is_indexed h i) _ (any-append-left (λ y. text_eq y.hash_str h) r x b)
  ]

  accept_live-Secures :
      (hit : BlockHit F) (kind : Text) (result : SubmitResult) (s : Supervisor F Doc)
      → Secures hit.hash_str s.store.hash_index s.reported (accept_live D J hit kind result s)
  unfolding accept_live record_direct_submit is_safe
  accept_live-Secures hit kind result s = record {
    keeps = (λ h. report_mono h s.store.hash_index s.reported hit);
    takes = λ _. or_right (is_indexed hit.hash_str s.store.hash_index) _ (
        any-append-last (λ y. text_eq y.hash_str hit.hash_str) s.reported hit
          (text_eq_refl hit.hash_str));
  }

  reject_live-Secures :
      (clock : Text) (hit : BlockHit F) (kind : Text) (result : SubmitResult) (s : Supervisor F Doc)
      → J.prints (J.text result.body) ≡ true
      → Secures hit.hash_str s.store.hash_index s.reported (reject_live D J clock hit kind result s)
  unfolding reject_live after_rejection append_rejection is_safe
  reject_live-Secures clock hit kind result s prints =
      let logged = append_rejection J clock s.store hit result.status result.body (codes "live") in
      let reason =
        if is_difficulty_mismatch result.status result.body
        then codes "parked"
        else codes "resubmission" in
      rw
        (record_rejection_prints J clock s.store hit result.status result.body (codes "live") reason
          prints)
        (record {
          keeps = (λ h.
              safe_mono h s.store.hash_index (enqueue J clock logged hit reason).1.hash_index
                s.reported (enqueue-keeps clock logged hit reason h));
          takes = λ ne. rw (indexed_after_enqueue J clock logged hit reason ne) refl;
        })

  settle_live-Secures :
      (c : Config) (t : Moment F) (hit : BlockHit F) (kind : Text) (result : SubmitResult)
      (s : Supervisor F Doc)
      → J.prints (J.text result.body) ≡ true
      → Secures hit.hash_str s.store.hash_index s.reported (settle_live D J c t hit kind result s)
  unfolding settle_live
  settle_live-Secures c t hit kind result s prints =
      let P = Secures hit.hash_str s.store.hash_index s.reported in
      let failed : Supervisor F Doc = record s {
        net = note_submit_transport_failure D c result.status t.now s.net;
      } in
      let transient =
        (result.status ==ℤ pos 0) || is_transient_submit_failure result.status result.body in
      let bag = queue_hit-Secures t.clock hit kind in
      by_if P result.ok (accept_live-Secures hit kind result s) (
        by_if P transient (bag (codes "network_down") failed) (
          by_if P (is_pool_hold result.status result.body) (bag difficulty_change_reason s) (
            by_if P (is_difficulty_mismatch result.status result.body)
              (bag difficulty_change_reason s)
              (by_if P (is_xuni_window_reject result.status result.body)
                (bag outside_xuni_window_reason s)
                (reject_live-Secures t.clock hit kind result s prints)))))

  pub process_live_submit-Secures :
      (c : Config) (pool : BlockHit F → SubmitResult) (t : Moment F) (job : LiveSubmitJob F)
      (s : Supervisor F Doc)
      → Printable J pool
      → Secures job.hit.hash_str s.store.hash_index s.reported
          (process_live_submit D J c pool t job s)
  unfolding process_live_submit
  process_live_submit-Secures c pool t job s prints =
      let P = Secures job.hit.hash_str s.store.hash_index s.reported in
      let s' : Supervisor F Doc = record s {
        net = (refresh_network D false c t.poll t.now s.net).1;
      } in
      let hit_m = value_or job.hit.memory_cost (mining_difficulty c s'.net) in
      let reason =
        if live_submit_allowed D c s'.net t.now && not (oracle_says_m s'.net hit_m)
        then difficulty_change_reason
        else codes "network_down" in
      let bag = queue_hit-Secures t.clock job.hit job.kind in
      by_if P t.shutting_down (bag shutdown_pending_reason s) (
        by_if P (xuni_waits t.minute job.kind) (bag outside_xuni_window_reason s) (
          by_if P (not (can_submit_hit_m D c s'.net t.now hit_m)) (bag reason s')
            (settle_live-Secures c t job.hit job.kind (pool job.hit) s' (prints job.hit))))

  reject_live-runs :
      (clock : Text) (hit : BlockHit F) (kind : Text) (result : SubmitResult) (s : Supervisor F Doc)
      → J.prints (J.text result.body) ≡ true
      → (reject_live D J clock hit kind result s).ended ≡ s.ended
  unfolding reject_live after_rejection
  reject_live-runs clock hit kind result s prints =
      let reason =
        if is_difficulty_mismatch result.status result.body
        then codes "parked"
        else codes "resubmission" in
      rw
        (record_rejection_prints J clock s.store hit result.status result.body (codes "live") reason
          prints)
        refl

  settle_live-runs :
      (c : Config) (t : Moment F) (hit : BlockHit F) (kind : Text) (result : SubmitResult)
      (s : Supervisor F Doc)
      → J.prints (J.text result.body) ≡ true
      → (settle_live D J c t hit kind result s).ended ≡ s.ended
  unfolding settle_live queue_hit accept_live
  settle_live-runs c t hit kind result s prints =
      let P : Supervisor F Doc → Type 0 = λ z. z.ended ≡ s.ended in
      by_if P result.ok refl (
        by_if P ((result.status ==ℤ pos 0) || is_transient_submit_failure result.status result.body)
          refl
          (by_if P (is_pool_hold result.status result.body) refl (
            by_if P (is_difficulty_mismatch result.status result.body) refl (
              by_if P (is_xuni_window_reject result.status result.body) refl
                (reject_live-runs t.clock hit kind result s prints)))))

  -- An answer that can be printed throws nothing.
  pub process_live_submit-runs :
      (c : Config) (pool : BlockHit F → SubmitResult) (t : Moment F) (job : LiveSubmitJob F)
      (s : Supervisor F Doc)
      → Printable J pool
      → (process_live_submit D J c pool t job s).ended ≡ s.ended
  unfolding process_live_submit queue_hit
  process_live_submit-runs c pool t job s prints =
      let P : Supervisor F Doc → Type 0 = λ z. z.ended ≡ s.ended in
      let s' : Supervisor F Doc = record s {
        net = (refresh_network D false c t.poll t.now s.net).1;
      } in
      let hit_m = value_or job.hit.memory_cost (mining_difficulty c s'.net) in
      by_if P t.shutting_down refl (
        by_if P (xuni_waits t.minute job.kind) refl (
          by_if P (not (can_submit_hit_m D c s'.net t.now hit_m)) refl
            (settle_live-runs c t job.hit job.kind (pool job.hit) s' (prints job.hit))))
