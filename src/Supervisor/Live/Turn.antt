-- ===== src/Supervisor/Live/Turn.antt =====
-- A turn of `submit_worker_loop` and a call of `handle_hit` of src/app/supervisor.cpp.
use x1miner.Base.{
  by_if, by_case, not_both, ◌≡◌, ◌⊎◌, refl, true, not, ◌&&◌, ◌||◌, some, List, [], ◌∷◌, ◌++◌,
  if◌then◌else◌, All, Bool-cases, value_or, inl, inr,
}
use x1miner.Base.Int.{pos, ◌<ℤ?◌}
use x1miner.Base.Double.{Double}
use x1miner.Base.Text.{Text, is_empty}
use x1miner.Common.{BlockHit, SubmitResult}
use x1miner.Common.Json.{JsonLib}
use x1miner.Common.Stats.{record_found}
use x1miner.Mining.Encode.{is_hex64_key, prepare_hit_for_submit}
use x1miner.Queue.Store.{enqueue, outside_xuni_window_reason, shutdown_pending_reason}
use x1miner.Queue.Store.Effects.{indexed_after_enqueue}
use x1miner.Supervisor.Oracle.{Config, mining_difficulty, can_submit_hit_m}
use x1miner.Supervisor.Live.{
  Supervisor, LiveSubmitJob, Moment, Printable, has_thrown, xuni_waits, found_kind,
  match_window_new_reason, wait_reason, queue_hit, enqueue_live_submit, route_hit, handle_hit,
  process_live_submit, bag_job, bag_jobs, bag_live_queue_to_store, is_none_left, submit_jobs,
  drain_live_queue,
}
use x1miner.Supervisor.Live.Laws.{
  is_safe, Secures, queue_hit-Secures, process_live_submit-Secures, process_live_submit-runs,
  has_thrown-same, enqueue-keeps, safe_mono,
}

module _ (D : Double) (J : JsonLib D.F) where
  open D use {F}
  open J use {Doc}

  -- The digest is bagged or accepted, if it is one.
  abbrev pub Kept : Supervisor F Doc → Text → Type 0
  Kept s h = (is_empty h || is_safe h s.store.hash_index s.reported) ≡ true

  pub takes-Kept :
      (g : Text) (i : List Text) (r : List (BlockHit F)) (s : Supervisor F Doc)
      → Secures g i r s
      → Kept s g
  takes-Kept g i r s v = elim (Bool-cases (is_empty g)) [
    | inl e ↦ rw e refl
    | inr e ↦ rw (e, v.takes e) refl
  ]

  pub keeps-Kept :
      (g h : Text) (s s' : Supervisor F Doc)
      → Secures g s.store.hash_index s.reported s'
      → Kept s h
      → Kept s' h
  keeps-Kept g h s s' v k = elim (Bool-cases (is_empty h)) [
    | inl e ↦ rw e refl
    | inr e ↦ let old = (rw e at k) in rw (e, v.keeps h old) refl
  ]

  bag_job-Secures :
      (clock reason : Text) (job : LiveSubmitJob F) (s : Supervisor F Doc)
      → Secures job.hit.hash_str s.store.hash_index s.reported (bag_job D J clock reason job s)
  unfolding bag_job is_safe
  bag_job-Secures clock reason job s = record {
    keeps = λ h.
        safe_mono D J h s.store.hash_index (enqueue J clock s.store job.hit reason).1.hash_index
          s.reported (enqueue-keeps D J clock s.store job.hit reason h);
    takes = λ ne. rw (indexed_after_enqueue J clock s.store job.hit reason ne) refl;
  }

  -- Both loops over the jobs are of this form.
  module _ (f : LiveSubmitJob F → Supervisor F Doc → Supervisor F Doc)
      (ok : (job : LiveSubmitJob F) (s : Supervisor F Doc)
        → Secures job.hit.hash_str s.store.hash_index s.reported (f job s)) where
    each : List (LiveSubmitJob F) → Supervisor F Doc → Supervisor F Doc
    each [] s = s
    each (job ∷ jobs) s = each jobs (f job s)

    each-keeps :
        (jobs : List (LiveSubmitJob F)) (s : Supervisor F Doc) (h : Text)
        → Kept s h
        → Kept (each jobs s) h
    unfolding each
    each-keeps [] s h k = k
    each-keeps (job ∷ jobs) s h k =
        each-keeps jobs (f job s) h (keeps-Kept job.hit.hash_str h s (f job s) (ok job s) k)

    each-takes :
        (jobs : List (LiveSubmitJob F)) (s : Supervisor F Doc)
        → All (λ job. Kept (each jobs s) job.hit.hash_str) jobs
    unfolding each
    each-takes [] s = tt
    each-takes (job ∷ jobs) s = (
      each-keeps jobs (f job s) job.hit.hash_str
          (takes-Kept job.hit.hash_str s.store.hash_index s.reported (f job s) (ok job s)),
      each-takes jobs (f job s),
    )

  submit_jobs-each :
      (c : Config) (pool : BlockHit F → SubmitResult) (t : Moment F) (jobs : List (LiveSubmitJob F))
      (s : Supervisor F Doc) (p : Printable J pool)
      → submit_jobs D J c pool t jobs s
        ≡ each
            (process_live_submit D J c pool t)
            (λ job u. process_live_submit-Secures D J c pool t job u p)
            jobs
            s
  unfolding submit_jobs each
  submit_jobs-each c pool t [] s p = refl
  submit_jobs-each c pool t (job ∷ jobs) s p =
      let s' = process_live_submit D J c pool t job s in
      by_case
        (λ z.
          z
          ≡ each (process_live_submit D J c pool t)
              (λ job u. process_live_submit-Secures D J c pool t job u p) jobs s')
        (has_thrown s s')
        (λ h.
          absurd
            (not_both (has_thrown-same s s' (process_live_submit-runs D J c pool t job s p)) h))
        (λ h. submit_jobs-each c pool t jobs s' p)

  bag_jobs-each :
      (clock reason : Text) (jobs : List (LiveSubmitJob F)) (s : Supervisor F Doc)
      → bag_jobs D J clock reason jobs s
        ≡ each (bag_job D J clock reason) (bag_job-Secures clock reason) jobs s
  unfolding bag_jobs each
  bag_jobs-each clock reason [] s = refl
  bag_jobs-each clock reason (job ∷ jobs) s =
      bag_jobs-each clock reason jobs (bag_job D J clock reason job s)

  pub bag_live_queue-Kept :
      (clock reason : Text) (s : Supervisor F Doc)
      → All (λ job. Kept (bag_live_queue_to_store D J clock reason s) job.hit.hash_str) s.live_q
  unfolding bag_live_queue_to_store
  bag_live_queue-Kept clock reason s =
      let start : Supervisor F Doc = record s { live_q = [] } in
      let P : Supervisor F Doc → Type 0 = λ x. All (λ job. Kept x job.hit.hash_str) s.live_q in
      let bagged : P (bag_jobs D J clock reason s.live_q start) =
        rw (bag_jobs-each clock reason s.live_q start)
          (each-takes (bag_job D J clock reason) (bag_job-Secures clock reason) s.live_q start) in
      by_if P (is_none_left s.live_q) bagged bagged

  pub bag_live_queue-keeps :
      (clock reason : Text) (s : Supervisor F Doc) (h : Text)
      → Kept s h
      → Kept (bag_live_queue_to_store D J clock reason s) h
  unfolding bag_live_queue_to_store
  bag_live_queue-keeps clock reason s h k =
      let start : Supervisor F Doc = record s { live_q = [] } in
      let P : Supervisor F Doc → Type 0 = λ x. Kept x h in
      let bagged : P (bag_jobs D J clock reason s.live_q start) =
        rw (bag_jobs-each clock reason s.live_q start) (
          each-keeps (bag_job D J clock reason) (bag_job-Secures clock reason) s.live_q start h
            k) in
      by_if P (is_none_left s.live_q) bagged bagged

  pub drain_live_queue-keeps :
      (c : Config) (pool : BlockHit F → SubmitResult) (t : Moment F) (s : Supervisor F Doc)
      (h : Text)
      → Printable J pool
      → Kept s h
      → Kept (drain_live_queue D J c pool t s) h
  unfolding drain_live_queue
  drain_live_queue-keeps c pool t s h p k =
      let start : Supervisor F Doc = record s { live_q = [] } in
      let P : Supervisor F Doc → Type 0 = λ x. Kept x h in
      let sent : P (submit_jobs D J c pool t s.live_q start) =
        rw (submit_jobs-each c pool t s.live_q start p) (
          each-keeps (process_live_submit D J c pool t)
            (λ job u. process_live_submit-Secures D J c pool t job u p) s.live_q start h k) in
      by_if P t.shutting_down (bag_live_queue-keeps t.clock shutdown_pending_reason s h k) sent

  -- One turn of the submit worker loses no hit: whatever the pool answers that can be printed, and also
  -- while the miner is shutting down, the digest of every hit that was in the live queue is in the bag afterwards, or
  -- the pool accepted a hit with it and that was reported.
  pub drain_live_queue-Kept :
      (c : Config) (pool : BlockHit F → SubmitResult) (t : Moment F) (s : Supervisor F Doc)
      → Printable J pool
      → All (λ job. Kept (drain_live_queue D J c pool t s) job.hit.hash_str) s.live_q
  unfolding drain_live_queue
  drain_live_queue-Kept c pool t s p =
      let start : Supervisor F Doc = record s { live_q = [] } in
      let P : Supervisor F Doc → Type 0 = λ x. All (λ job. Kept x job.hit.hash_str) s.live_q in
      let sent : P (submit_jobs D J c pool t s.live_q start) =
        rw (submit_jobs-each c pool t s.live_q start p) (
          each-takes (process_live_submit D J c pool t)
            (λ job u. process_live_submit-Secures D J c pool t job u p) s.live_q start) in
      by_if P t.shutting_down (bag_live_queue-Kept t.clock shutdown_pending_reason s) sent

  -- The hit is bagged, or it is the last job of the live queue.
  abbrev pub Routed : BlockHit F → Supervisor F Doc → Supervisor F Doc → Type 0
  Routed hit s s' =
      Kept s' hit.hash_str
      ⊎ (s'.live_q ≡ s.live_q ++ record { hit = hit; kind = hit.block_type } ∷ [])

  route_hit-Routed :
      (c : Config) (t : Moment F) (hit : BlockHit F) (s : Supervisor F Doc)
      → Routed hit s (route_hit D J c t hit s)
  unfolding route_hit enqueue_live_submit
  route_hit-Routed c t hit s =
      let P : Supervisor F Doc → Type 0 = Routed hit s in
      let hit_m = value_or hit.memory_cost (mining_difficulty c s.net) in
      let waits = xuni_waits t.minute hit.block_type in
      let bag : (reason : Text) → P (queue_hit D J t.clock hit hit.block_type reason s) = λ reason.
        inl (
          takes-Kept hit.hash_str s.store.hash_index s.reported _
            (queue_hit-Secures D J t.clock hit hit.block_type reason s)) in
      by_if P t.shutting_down
        (bag (if waits then outside_xuni_window_reason else shutdown_pending_reason))
        (by_if P waits (bag outside_xuni_window_reason) (
          by_if P (s.drain.active && (pos 0 <ℤ? s.drain.flushed)) (bag match_window_new_reason) (
            by_if P (not (can_submit_hit_m D c s.net t.now hit_m))
              (bag (wait_reason D J c t hit_m s)) (inr refl))))

  -- A hit of the engine with a proper key that can be prepared is handed over in its prepared form:
  -- it is the new last job of the live queue, or its digest is in the bag, whichever gate closed.
  pub handle_hit-Routed :
      (c : Config) (t : Moment F) (hit ready : BlockHit F) (s : Supervisor F Doc)
      → is_hex64_key hit.key ≡ true
      → prepare_hit_for_submit hit c.salt_hex (mining_difficulty c s.net) c.time_cost c.parallelism
        ≡ some ready
      → Routed ready s (handle_hit D J c t hit s)
  unfolding handle_hit
  handle_hit-Routed c t hit ready s key e =
      rw (key, e)
        (route_hit-Routed c t ready
          (record s { stats = record_found s.stats (found_kind hit.hash_str hit.block_type) }))
