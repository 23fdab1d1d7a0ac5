-- ===== src/Supervisor/Worker/Jobs.antt =====
-- The steps of a hit in src/app/supervisor.cpp, seen by the bag: it stays valid, its hits encoded, and the
-- live queue is as it was.
use x1miner.Base.{
  by_if, ◌≡◌, refl, sym, ◌∙◌, subst, true, false, not, ◌&&◌, ◌||◌, List, [], ◌∷◌, if◌then◌else◌,
  All, All-append, value_or, inl, inr,
}
use x1miner.Base.Int.{ℤ, pos, ◌==ℤ◌}
use x1miner.Base.Double.{Double}
use x1miner.Base.Text.{Text, codes}
use x1miner.Common.{BlockHit, SubmitResult}
use x1miner.Common.Json.{JsonLib}
use x1miner.Mining.Encode.{is_argon2_encoded}
use x1miner.Network.Submit.{
  is_difficulty_mismatch, is_xuni_window_reject, is_transient_submit_failure, is_pool_hold,
}
use x1miner.Queue.Store.{
  BlockStore, enqueue, new_block, append_rejection, record_direct_submit,
  outside_xuni_window_reason, shutdown_pending_reason,
}
use x1miner.Queue.Store.Effects.{enqueue_cases}
use x1miner.Queue.Store.Methods.{enqueue-IsValid, record_rejection_cases}
use x1miner.Supervisor.Oracle.{
  Config, mining_difficulty, oracle_says_m, live_submit_allowed, can_submit_hit_m,
}
use x1miner.Supervisor.Network.{refresh_network, note_submit_transport_failure}
use x1miner.Supervisor.Live.{
  Supervisor, LiveSubmitJob, Moment, xuni_waits, difficulty_change_reason, queue_hit, accept_live,
  after_rejection, reject_live, settle_live, process_live_submit, bag_job, bag_jobs, submit_jobs,
  bag_live_queue_to_store, is_none_left, drain_live_queue, has_thrown,
}
use x1miner.Supervisor.Worker.Flushes.{Encoded}
use x1miner.Supervisor.Worker.Attempt.{IsSealed}

module _ (D : Double) (J : JsonLib D.F) where
  open D use {F}
  open J use {Doc}

  pub enqueue-IsSealed :
      (clock : Text) (st : BlockStore F Doc) (hit : BlockHit F) (reason : Text)
      → is_argon2_encoded hit.hash_str ≡ true
      → IsSealed D J st
      → IsSealed D J (enqueue J clock st hit reason).1
  unfolding new_block
  enqueue-IsSealed clock st hit reason enc (v, e) = (
    enqueue-IsValid J clock st hit reason v,
    elim (enqueue_cases J clock st hit reason) [
      | inl (_, same) ↦ rw same e
      | inr (_, _, pending, _, _, _) ↦
          subst (λ l. Encoded l) (sym pending)
            (All-append (λ pb. is_argon2_encoded pb.hit.hash_str ≡ true) st.pending
              (new_block J st hit reason ∷ []) e (enc, tt))
    ],
  )

  log-IsSealed :
      (clock : Text) (st : BlockStore F Doc) (hit : BlockHit F) (status : ℤ) (body source : Text)
      → IsSealed D J st
      → IsSealed D J (append_rejection J clock st hit status body source)
  unfolding append_rejection
  log-IsSealed clock st hit status body source (v, e) =
      (record { indexed = v.indexed; written_back = v.written_back }, e)

  -- A step that keeps the bag sealed and the live queue.
  pub record Settles (s s' : Supervisor F Doc) : Type 0 where
    pub sealed : IsSealed D J s.store → IsSealed D J s'.store
    pub queue : s'.live_q ≡ s.live_q

  Settles-trans : (s t u : Supervisor F Doc) → Settles s t → Settles t u → Settles s u
  Settles-trans s t u x y = record {
    sealed = λ v. y.sealed (x.sealed v);
    queue = y.queue ∙ x.queue;
  }

  pub queue_hit-Settles :
      (clock : Text) (hit : BlockHit F) (kind reason : Text) (s : Supervisor F Doc)
      → is_argon2_encoded hit.hash_str ≡ true
      → Settles s (queue_hit D J clock hit kind reason s)
  unfolding queue_hit
  queue_hit-Settles clock hit kind reason s enc = record {
    sealed = enqueue-IsSealed clock s.store hit reason enc;
    queue = refl;
  }

  settle_live-Settles :
      (c : Config) (t : Moment F) (hit : BlockHit F) (kind : Text) (result : SubmitResult)
      (s : Supervisor F Doc)
      → is_argon2_encoded hit.hash_str ≡ true
      → Settles s (settle_live D J c t hit kind result s)
  unfolding settle_live accept_live reject_live after_rejection record_direct_submit
  settle_live-Settles c t hit kind result s enc =
      let P : Supervisor F Doc → Type 0 = Settles s in
      let failed : Supervisor F Doc = record s {
        net = note_submit_transport_failure D c result.status t.now s.net;
      } in
      let bag = λ (reason : Text). queue_hit-Settles t.clock hit kind reason s enc in
      let f = queue_hit-Settles t.clock hit kind (codes "network_down") failed enc in
      let logged =
        append_rejection J t.clock s.store hit result.status result.body (codes "live") in
      let reason =
        if is_difficulty_mismatch result.status result.body
        then codes "parked"
        else codes "resubmission" in
      by_if P result.ok (record { sealed = λ v. v; queue = refl })
        (by_if P
          ((result.status ==ℤ pos 0) || is_transient_submit_failure result.status result.body)
          (record { sealed = f.sealed; queue = f.queue })
          (by_if P (is_pool_hold result.status result.body) (bag difficulty_change_reason) (
            by_if P (is_difficulty_mismatch result.status result.body)
              (bag difficulty_change_reason)
              (by_if P (is_xuni_window_reject result.status result.body)
                (bag outside_xuni_window_reason)
                (elim (record_rejection_cases J t.clock s.store hit result.status result.body
                  (codes "live") reason) [
                    | inl e ↦ rw e (record { sealed = λ v. v; queue = refl })
                    | inr e ↦ rw e (record {
                      sealed = λ v. enqueue-IsSealed t.clock logged hit reason enc (
                          log-IsSealed t.clock s.store hit result.status result.body (codes "live")
                            v);
                      queue = refl;
                    })
                  ])))))

  process-Settles :
      (c : Config) (pool : BlockHit F → SubmitResult) (t : Moment F) (job : LiveSubmitJob F)
      (s : Supervisor F Doc)
      → is_argon2_encoded job.hit.hash_str ≡ true
      → Settles s (process_live_submit D J c pool t job s)
  unfolding process_live_submit
  process-Settles c pool t job s enc =
      let P : Supervisor F Doc → Type 0 = Settles s in
      let s' : Supervisor F Doc = record s {
        net = (refresh_network D false c t.poll t.now s.net).1;
      } in
      let hit_m = value_or job.hit.memory_cost (mining_difficulty c s'.net) in
      let reason =
        if live_submit_allowed D c s'.net t.now && not (oracle_says_m s'.net hit_m)
        then difficulty_change_reason
        else codes "network_down" in
      let bag =
        λ (r : Text) (x : Supervisor F Doc). queue_hit-Settles t.clock job.hit job.kind r x enc in
      let late = bag reason s' in
      let sent = settle_live-Settles c t job.hit job.kind (pool job.hit) s' enc in
      by_if P t.shutting_down (bag shutdown_pending_reason s) (
        by_if P (xuni_waits t.minute job.kind) (bag outside_xuni_window_reason s) (
          by_if P (not (can_submit_hit_m D c s'.net t.now hit_m))
            (record { sealed = late.sealed; queue = late.queue })
            (record { sealed = sent.sealed; queue = sent.queue })))

  abbrev pub EncodedJobs : List (LiveSubmitJob F) → Type 0
  EncodedJobs jobs = All (λ job. is_argon2_encoded job.hit.hash_str ≡ true) jobs

  submit_jobs-Settles :
      (c : Config) (pool : BlockHit F → SubmitResult) (t : Moment F) (jobs : List (LiveSubmitJob F))
      (s : Supervisor F Doc)
      → EncodedJobs jobs
      → Settles s (submit_jobs D J c pool t jobs s)
  unfolding submit_jobs
  submit_jobs-Settles c pool t [] s e = record { sealed = λ v. v; queue = refl }
  submit_jobs-Settles c pool t (job ∷ jobs) s e =
      let s' = process_live_submit D J c pool t job s in
      let z = process-Settles c pool t job s e.0 in
      by_if (Settles s) (has_thrown s s') z
        (Settles-trans s s' _ z (submit_jobs-Settles c pool t jobs s' e.1))

  bag_jobs-Settles :
      (clock reason : Text) (jobs : List (LiveSubmitJob F)) (s : Supervisor F Doc)
      → EncodedJobs jobs
      → Settles s (bag_jobs D J clock reason jobs s)
  unfolding bag_jobs bag_job
  bag_jobs-Settles clock reason [] s e = record { sealed = λ v. v; queue = refl }
  bag_jobs-Settles clock reason (job ∷ jobs) s e =
      Settles-trans s (bag_job D J clock reason job s) _
        (record { sealed = enqueue-IsSealed clock s.store job.hit reason e.0; queue = refl })
        (bag_jobs-Settles clock reason jobs (bag_job D J clock reason job s) e.1)

  -- The live queue is handled: it is empty, and the bag is sealed.
  pub bag_live_queue-done :
      (clock reason : Text) (s : Supervisor F Doc)
      → EncodedJobs s.live_q
      → IsSealed D J s.store
      → let s' = bag_live_queue_to_store D J clock reason s in
        (s'.live_q ≡ []) × IsSealed D J s'.store
  unfolding bag_live_queue_to_store
  bag_live_queue-done clock reason s e v =
      let start : Supervisor F Doc = record s { live_q = [] } in
      let b = bag_jobs-Settles clock reason s.live_q start e in
      by_if (λ (x : Supervisor F Doc). (x.live_q ≡ []) × IsSealed D J x.store)
        (is_none_left s.live_q) (b.queue, b.sealed v) (b.queue, b.sealed v)

  pub drain_live_queue-done :
      (c : Config) (pool : BlockHit F → SubmitResult) (t : Moment F) (s : Supervisor F Doc)
      → EncodedJobs s.live_q
      → IsSealed D J s.store
      → let s' = drain_live_queue D J c pool t s in (s'.live_q ≡ []) × IsSealed D J s'.store
  unfolding drain_live_queue
  drain_live_queue-done c pool t s e v =
      let start : Supervisor F Doc = record s { live_q = [] } in
      let b = submit_jobs-Settles c pool t s.live_q start e in
      by_if (λ (x : Supervisor F Doc). (x.live_q ≡ []) × IsSealed D J x.store) t.shutting_down
        (bag_live_queue-done t.clock shutdown_pending_reason s e v) (b.queue, b.sealed v)
