-- ===== src/Supervisor/Events/Holds.antt =====
-- src/app/supervisor.cpp: where a digest may be, and the single steps of the two threads.
use x1miner.Base.{
  by_if, ◌≡◌, refl, sym, subst, arith, Bool, true, false, not, ◌&&◌, ◌||◌, List, [], ◌∷◌, ◌++◌,
  if◌then◌else◌, All, All-append, any, value_or, Bool-cases, Option-cases, not_both, inl, inr,
}
use x1miner.Base.Int.{pos, ◌<ℤ?◌}
use x1miner.Base.Double.{Double}
use x1miner.Base.Text.{Text, text_eq, text_eq→eq, is_empty}
use x1miner.Common.{BlockHit, SubmitResult}
use x1miner.Common.Json.{JsonLib}
use x1miner.Common.Stats.{record_found}
use x1miner.Mining.Encode.{is_argon2_encoded, is_hex64_key, prepare_hit_for_submit}
use x1miner.Mining.Encode.Prepare.{prepare_hit_for_submit-encoded}
use x1miner.Queue.Store.{
  BlockStore, outside_xuni_window_reason, shutdown_pending_reason, defer_all_to_next_start, flush,
}
use x1miner.Queue.Store.Methods.{IsValid, StoreCall, step, step-IsValid}
use x1miner.Supervisor.Oracle.{Config, mining_difficulty, can_submit_hit_m}
use x1miner.Supervisor.Network.{PaperStatus}
use x1miner.Supervisor.Live.{
  Supervisor, LiveSubmitJob, Moment, Printable, xuni_waits, found_kind, match_window_new_reason,
  wait_reason, queue_hit, enqueue_live_submit, route_hit, handle_hit, bag_live_queue_to_store,
  drain_live_queue,
}
use x1miner.Supervisor.Live.Laws.{is_safe, queue_hit-Secures}
use x1miner.Supervisor.Live.Turn.{
  Kept, bag_live_queue-Kept, bag_live_queue-keeps, drain_live_queue-Kept, drain_live_queue-keeps,
}
use x1miner.Supervisor.Flush.Send.{try_flush_pending}
use x1miner.Supervisor.Worker.Flushes.{Guards, Alike, Alike-Guards, defer-Alike, flush-Alike}
use x1miner.Supervisor.Worker.Attempt.{IsSealed, try_flush_pending-IsSealed}
use x1miner.Supervisor.Worker.Jobs.{
  EncodedJobs, queue_hit-Settles, bag_live_queue-done, drain_live_queue-done,
}

-- A job of the live queue has the digest.
abbrev pub is_queued : {F : Type 0} → Text → List (LiveSubmitJob F) → Bool
is_queued h jobs = any (λ job. text_eq job.hit.hash_str h) jobs

is_queued-append :
    {F : Type 0} (h : Text) (jobs : List (LiveSubmitJob F)) (job : LiveSubmitJob F)
    → is_queued h jobs ≡ true
    → is_queued h (jobs ++ job ∷ []) ≡ true
is_queued-append h [] job e = absurd (not_both refl e)
is_queued-append h (x ∷ jobs) job e = ground (arith, e, is_queued-append h jobs job)

module _ (D : Double) (J : JsonLib D.F) where
  open D use {F}
  open J use {Doc}

  -- The digest is bagged, its hit was accepted and reported, or it waits in the live queue.
  abbrev pub IsHeld : Text → Supervisor F Doc → Type 0
  IsHeld h s = (is_safe h s.store.hash_index s.reported || is_queued h s.live_q) ≡ true

  -- The store is valid, and every hit in the bag and in the live queue is encoded.
  pub record IsSteady (s : Supervisor F Doc) : Type 0 where
    pub sealed : IsSealed D J s.store
    pub jobs : EncodedJobs D J s.live_q

  pub record Holds (s s' : Supervisor F Doc) : Type 0 where
    pub steady : IsSteady s → IsSteady s'
    pub held : IsSteady s → (h : Text) → is_empty h ≡ false → IsHeld h s → IsHeld h s'

  pub Holds-refl : (s : Supervisor F Doc) → Holds s s
  Holds-refl s = record { steady = λ v. v; held = λ v h ne e. e }

  pub Holds-trans : (s t u : Supervisor F Doc) → Holds s t → Holds t u → Holds s u
  Holds-trans s t u x y = record {
    steady = λ v. y.steady (x.steady v);
    held = λ v h ne e. y.held (x.steady v) h ne (x.held v h ne e);
  }

  safer :
      (s s' : Supervisor F Doc) (h : Text)
      → s'.live_q ≡ s.live_q
      → (is_safe h s.store.hash_index s.reported ≡ true
          → is_safe h s'.store.hash_index s'.reported ≡ true)
      → IsHeld h s
      → IsHeld h s'
  safer s s' h queue f e =
      subst (λ q. (is_safe h s'.store.hash_index s'.reported || is_queued h q) ≡ true) (sym queue)
        (ground (arith, e, f))

  -- A step of a flush.
  Guards-Holds :
      (s s' : Supervisor F Doc)
      → Guards s s'
      → (IsSealed D J s.store → IsSealed D J s'.store)
      → Holds s s'
  Guards-Holds s s' g f = record {
    steady =
        λ v. record { sealed = f v.sealed; jobs = subst (EncodedJobs D J) (sym g.queue) v.jobs };
    held = λ v h ne e. safer s s' h g.queue (g.safe h ne) e;
  }

  pub flushed-Holds :
      (c : Config) (pool : BlockHit F → SubmitResult) (t : Moment F) (paper : PaperStatus F)
      (down : Bool) (s : Supervisor F Doc)
      → Holds s (try_flush_pending D J c pool t paper down s).1
  flushed-Holds c pool t paper down s =
      let s' = (try_flush_pending D J c pool t paper down s).1 in
      record {
        steady = λ v.
            let (g, sealed) = try_flush_pending-IsSealed D J c pool t paper down s v.sealed in
            record { sealed = sealed; jobs = subst (EncodedJobs D J) (sym g.queue) v.jobs };
        held = λ v h ne e.
            let (g, _) = try_flush_pending-IsSealed D J c pool t paper down s v.sealed in
            safer s s' h g.queue (g.safe h ne) e;
      }

  -- A change of the store that leaves its digests.
  pub Alike-Holds :
      (s : Supervisor F Doc) (store : BlockStore F Doc)
      → Alike s.store store
      → (IsValid s.store → IsValid store)
      → Holds s (record s { store = store })
  Alike-Holds s store a f =
      Guards-Holds s (record s { store = store })
        (Alike-Guards s (record s { store = store }) a refl (λ h e. e))
        (λ (v, e). (f v, a.encoded e))

  pub deferred-Holds :
      (t : Moment F) (s : Supervisor F Doc)
      → Holds s (record s { store = defer_all_to_next_start J t.minute s.store })
  unfolding step
  deferred-Holds t s =
      Alike-Holds s (defer_all_to_next_start J t.minute s.store) (defer-Alike D J t.minute s.store)
        (λ v. step-IsValid J s.store (StoreCall.defers t.minute) v)

  pub written-Holds : (s : Supervisor F Doc) → Holds s (record s { store = flush J s.store })
  unfolding step
  written-Holds s =
      Alike-Holds s (flush J s.store) (flush-Alike D J s.store)
        (λ v. step-IsValid J s.store StoreCall.flushes v)

  -- What is kept apart from the live queue is safe.
  Kept-safe : (s : Supervisor F Doc) (h : Text) → is_empty h ≡ false → Kept D J s h → IsHeld h s
  Kept-safe s h ne k = ground (arith, ne, k)

  queued-Kept :
      (s : Supervisor F Doc) (h : Text) (jobs : List (LiveSubmitJob F))
      → All (λ job. Kept D J s job.hit.hash_str) jobs
      → is_queued h jobs ≡ true
      → Kept D J s h
  queued-Kept s h [] a e = absurd (not_both refl e)
  queued-Kept s h (job ∷ jobs) a e = elim (Bool-cases (text_eq job.hit.hash_str h)) [
    | inl same ↦ subst (Kept D J s) (text_eq→eq job.hit.hash_str h same) a.0
    | inr other ↦ queued-Kept s h jobs a.1 (ground (arith, e, other))
  ]

  -- A step that empties the live queue.
  emptied-Holds :
      (s s' : Supervisor F Doc)
      → ((h : Text) → Kept D J s h → Kept D J s' h)
      → All (λ job. Kept D J s' job.hit.hash_str) s.live_q
      → (EncodedJobs D J s.live_q → IsSealed D J s.store → (s'.live_q ≡ []) × IsSealed D J s'.store)
      → Holds s s'
  emptied-Holds s s' keeps took done = record {
    steady = λ v.
        let (none_left, sealed) = done v.jobs v.sealed in
        record { sealed = sealed; jobs = subst (EncodedJobs D J) (sym none_left) tt };
    held = λ v h ne e. elim (Bool-cases (is_safe h s.store.hash_index s.reported)) [
      | inl safe ↦ Kept-safe s' h ne (keeps h (ground (arith, safe)))
      | inr loose ↦ Kept-safe s' h ne (queued-Kept s' h s.live_q took (ground (arith, e, loose)))
    ];
  }

  pub bagged-Holds :
      (clock reason : Text) (s : Supervisor F Doc)
      → Holds s (bag_live_queue_to_store D J clock reason s)
  bagged-Holds clock reason s =
      emptied-Holds s (bag_live_queue_to_store D J clock reason s)
        (λ h k. bag_live_queue-keeps D J clock reason s h k)
        (bag_live_queue-Kept D J clock reason s) (bag_live_queue-done D J clock reason s)

  pub drained-Holds :
      (c : Config) (pool : BlockHit F → SubmitResult) (t : Moment F) (s : Supervisor F Doc)
      → Printable J pool
      → Holds s (drain_live_queue D J c pool t s)
  drained-Holds c pool t s p =
      emptied-Holds s (drain_live_queue D J c pool t s)
        (λ h k. drain_live_queue-keeps D J c pool t s h p k)
        (drain_live_queue-Kept D J c pool t s p) (drain_live_queue-done D J c pool t s)

  -- A found hit.
  queued-Holds :
      (clock : Text) (hit : BlockHit F) (kind reason : Text) (s : Supervisor F Doc)
      → is_argon2_encoded hit.hash_str ≡ true
      → Holds s (queue_hit D J clock hit kind reason s)
  queued-Holds clock hit kind reason s enc =
      let z = queue_hit-Settles D J clock hit kind reason s enc in
      let w = queue_hit-Secures D J clock hit kind reason s in
      record {
        steady = λ v. record {
          sealed = z.sealed v.sealed;
          jobs = subst (EncodedJobs D J) (sym z.queue) v.jobs;
        };
        held = λ v h ne e. safer s (queue_hit D J clock hit kind reason s) h z.queue (w.keeps h) e;
      }

  routed-Holds :
      (c : Config) (t : Moment F) (hit : BlockHit F) (s : Supervisor F Doc)
      → is_argon2_encoded hit.hash_str ≡ true
      → Holds s (route_hit D J c t hit s)
  unfolding route_hit enqueue_live_submit
  routed-Holds c t hit s enc =
      let P : Supervisor F Doc → Type 0 = Holds s in
      let hit_m = value_or hit.memory_cost (mining_difficulty c s.net) in
      let waits = xuni_waits t.minute hit.block_type in
      let bag = λ (reason : Text). queued-Holds t.clock hit hit.block_type reason s enc in
      let job : LiveSubmitJob F = record { hit = hit; kind = hit.block_type } in
      by_if P t.shutting_down
        (bag (if waits then outside_xuni_window_reason else shutdown_pending_reason))
        (by_if P waits (bag outside_xuni_window_reason) (
          by_if P (s.drain.active && (pos 0 <ℤ? s.drain.flushed)) (bag match_window_new_reason) (
            by_if P (not (can_submit_hit_m D c s.net t.now hit_m))
              (bag (wait_reason D J c t hit_m s))
              (record {
                steady = λ v. record {
                  sealed = v.sealed;
                  jobs =
                      All-append (λ (j : LiveSubmitJob F). is_argon2_encoded j.hit.hash_str ≡ true)
                        s.live_q (job ∷ []) v.jobs (enc, tt);
                };
                held = λ v h ne e. ground (arith, e, is_queued-append h s.live_q job);
              }))))

  pub handled-Holds :
      (c : Config) (t : Moment F) (hit : BlockHit F) (s : Supervisor F Doc)
      → Holds s (handle_hit D J c t hit s)
  unfolding handle_hit
  handled-Holds c t hit s =
      let found : Supervisor F Doc = record s {
        stats = record_found s.stats (found_kind hit.hash_str hit.block_type);
      } in
      let m = mining_difficulty c s.net in
      let seen : Holds s found = record {
        steady = λ v. record { sealed = v.sealed; jobs = v.jobs };
        held = λ v h ne e. e;
      } in
      by_if (Holds s) (not (is_hex64_key hit.key)) (Holds-refl s)
        (elim (Option-cases (prepare_hit_for_submit hit c.salt_hex m c.time_cost c.parallelism)) [
          | inl e ↦ rw e seen
          | inr (ready, e) ↦ rw e (
              Holds-trans s found _ seen (
                routed-Holds c t ready found (
                  prepare_hit_for_submit-encoded hit ready c.salt_hex m c.time_cost c.parallelism
                    e)))
        ])
