-- ===== src/Supervisor/Events/Safety.antt =====
-- src/app/supervisor.cpp over any sequence of events of the two threads.
use x1miner.Base.{
  by_if, ◌≡◌, refl, sym, subst, arith, Bool, true, false, not, ◌&&◌, ◌||◌, Option, none, some, List,
  [], ◌∷◌, ◌++◌, if◌then◌else◌, ltb, All, not_both, inl, inr,
}
use x1miner.Base.Int.{pos, ◌<ℤ?◌, ◌≤ℤ?◌}
use x1miner.Base.Double.{Double}
use x1miner.Base.Text.{Text, codes, text_eq, text_eq_refl, is_empty, starts_with}
use x1miner.Common.{BlockHit, SubmitResult}
use x1miner.Common.Json.{JsonLib}
use x1miner.Mining.Encode.{is_argon2_encoded, is_hex64_key, prepare_hit_for_submit}
use x1miner.Mining.Encode.Prepare.{prepare_hit_for_submit-encoded}
use x1miner.Queue.Policy.{in_xuni_submit_window, in_xuni_taper_window}
use x1miner.Queue.Store.{
  BlockStore, shutdown_pending_reason, pending_by_type, pending_count, pending_eligible_m, flush,
  defer_all_to_next_start,
}
use x1miner.Supervisor.Oracle.{
  Config, mining_difficulty, bag_target_m, oracle_says_m, oracle_left_m, live_submit_allowed,
}
use x1miner.Supervisor.Network.{PaperStatus}
use x1miner.Supervisor.Drain.{DrainState, update_match_drain}
use x1miner.Supervisor.Live.{
  Supervisor, LiveSubmitJob, Moment, Printable, has_thrown, handle_hit, persist_queue_for_restart,
  bag_live_queue_to_store, drain_live_queue, is_none_left,
}
use x1miner.Supervisor.Live.Laws.{is_safe}
use x1miner.Supervisor.Live.Turn.{handle_hit-Routed}
use x1miner.Supervisor.Worker.{
  FlushTimes, flush_interval, open_window, service_pending_queue, end_worker, worker_turn,
  shutdown_queue, finalize_queue,
}
use x1miner.Supervisor.Worker.Attempt.{IsSealed}
use x1miner.Supervisor.Worker.Jobs.{EncodedJobs}
use x1miner.Supervisor.Events.{
  Both, Event, handle_hits, handle_batch_hits, take_event, on_event, run_events,
}
use x1miner.Supervisor.Events.Holds.{
  is_queued, IsHeld, IsSteady, Holds, Holds-refl, Holds-trans, flushed-Holds, deferred-Holds,
  written-Holds, bagged-Holds, drained-Holds, handled-Holds,
}

module _ (D : Double) (J : JsonLib D.F) where
  open D use {F, lit, sub, lt, le}
  open J use {Doc}

  bagged_and_deferred :
      (t : Moment F) (s : Supervisor F Doc)
      → let bagged = bag_live_queue_to_store D J t.clock shutdown_pending_reason s in
        Holds D J s (record bagged { store = defer_all_to_next_start J t.minute bagged.store })
  bagged_and_deferred t s =
      let bagged = bag_live_queue_to_store D J t.clock shutdown_pending_reason s in
      Holds-trans D J s bagged _ (bagged-Holds D J t.clock shutdown_pending_reason s)
        (deferred-Holds D J t bagged)

  module _ (c : Config) (pool : BlockHit F → SubmitResult) (t : Moment F)
      (paper : PaperStatus F) where
    opened-Holds :
        (s : Supervisor F Doc) (w : FlushTimes F)
        → Holds D J s (open_window D J c pool t paper (s, w)).0
    unfolding open_window
    opened-Holds s w =
        let P : Both D J → Type 0 = λ z. Holds D J s z.0 in
        by_if P (in_xuni_submit_window t.minute && not w.was_in_xuni_window)
          (by_if P (ltb 0 (pending_by_type s.store false (codes "XUNI")))
            (flushed-Holds D J c pool t paper false s) (Holds-refl D J s))
          (by_if P (not (in_xuni_submit_window t.minute)) (Holds-refl D J s) (Holds-refl D J s))

    served-Holds :
        (s : Supervisor F Doc) (w : FlushTimes F)
        → Holds D J s (service_pending_queue D J c pool t paper (s, w)).0
    unfolding service_pending_queue
    served-Holds s w =
        let P : Both D J → Type 0 = λ z. Holds D J s z.0 in
        let taper = in_xuni_taper_window t.minute in
        let pending_xuni = pending_by_type s.store false (codes "XUNI") in
        let o = open_window D J c pool t paper (s, w) in
        let first = opened-Holds s w in
        let sent = Holds-trans D J s o.0 _ first (flushed-Holds D J c pool t paper false o.0) in
        by_if P (has_thrown s o.0) first (
          by_if P
            (le (flush_interval D J o.0.drain.active taper pending_xuni (pending_count s.store))
              (sub t.now o.1.last_queue_flush))
            sent
            (by_if P
              (in_xuni_submit_window t.minute
                && ltb 0 pending_xuni
                && le (if taper then lit 5 1 else lit 2 0) (sub t.now o.1.last_xuni_flush))
              sent first))

    ended-Holds : (s : Supervisor F Doc) → Holds D J s (end_worker D J c pool t paper s)
    unfolding end_worker
    ended-Holds s =
        let bagged = bag_live_queue_to_store D J t.clock shutdown_pending_reason s in
        let u : Supervisor F Doc = record bagged {
          store = defer_all_to_next_start J t.minute bagged.store;
        } in
        let h = bagged_and_deferred t s in
        by_if (Holds D J s) (not t.shutting_down || live_submit_allowed D c u.net t.now)
          (Holds-trans D J s u _ h (flushed-Holds D J c pool t paper true u)) h

    turned-Holds :
        (is_running : Bool) (s : Supervisor F Doc) (w : FlushTimes F)
        → Printable J pool
        → Holds D J s (worker_turn D J c pool t paper is_running (s, w)).0
    unfolding worker_turn
    turned-Holds is_running s w p =
        let P : Both D J → Type 0 = λ z. Holds D J s z.0 in
        let drained = drain_live_queue D J c pool t s in
        let first = drained-Holds D J c pool t s p in
        let z : Both D J =
          if t.shutting_down || has_thrown s drained
          then (drained, w)
          else service_pending_queue D J c pool t paper (drained, w) in
        let later : P z =
          by_if P (t.shutting_down || has_thrown s drained) first
            (Holds-trans D J s drained _ first (served-Holds drained w)) in
        by_if P (is_running || has_thrown s z.0) later
          (Holds-trans D J s z.0 _ later (ended-Holds z.0))

  pub handled_all :
      (c : Config) (t : Moment F) (hits : List (BlockHit F)) (s : Supervisor F Doc)
      → Holds D J s (handle_hits D J c t hits s)
  unfolding handle_hits
  handled_all c t [] s = Holds-refl D J s
  handled_all c t (hit ∷ hits) s =
      Holds-trans D J s (handle_hit D J c t hit s) _ (handled-Holds D J c t hit s)
        (handled_all c t hits (handle_hit D J c t hit s))

  one_hit :
      (c : Config) (t : Moment F) (hit : Option (BlockHit F)) (s : Supervisor F Doc)
      → Holds D J s
          (elim hit as (λ _. Supervisor F Doc) [ none ↦ s | some h ↦ handle_hit D J c t h s ])
  one_hit c t none s = Holds-refl D J s
  one_hit c t (some hit) s = handled-Holds D J c t hit s

  -- The drain and the network do not matter.
  pub aside-Holds :
      (s s' : Supervisor F Doc)
      → s'.store ≡ s.store
      → s'.reported ≡ s.reported
      → s'.live_q ≡ s.live_q
      → Holds D J s s'
  aside-Holds s s' store told queue = record {
    steady = λ v. record {
      sealed = subst (IsSealed D J) (sym store) v.sealed;
      jobs = subst (EncodedJobs D J) (sym queue) v.jobs;
    };
    held = λ v h ne e.
        subst (λ q. (is_safe h s'.store.hash_index s'.reported || is_queued h q) ≡ true) (sym queue)
          (subst (λ r. (is_safe h s'.store.hash_index r || is_queued h s.live_q) ≡ true) (sym told)
            (subst
              (λ (b : BlockStore F Doc).
                (is_safe h b.hash_index s.reported || is_queued h s.live_q) ≡ true)
              (sym store) e));
  }

  watched-Holds :
      (c : Config) (t : Moment F) (s : Supervisor F Doc)
      → let (drain, store) = update_match_drain D J c s.net t.now s.drain s.store in
        Holds D J s (record s { drain = drain; store = store })
  unfolding update_match_drain
  watched-Holds c t s =
      let P : DrainState F × BlockStore F Doc → Type 0 =
        λ z. Holds D J s (record s { drain = z.0; store = z.1 }) in
      let quiet : (d : DrainState F) → P (d, s.store) =
        λ d. aside-Holds s (record s { drain = d }) refl refl refl in
      let wrote : (d : DrainState F) → P (d, flush J s.store) = λ d.
        let u : Supervisor F Doc = record s { store = flush J s.store } in
        Holds-trans D J s u _ (written-Holds D J s)
          (aside-Holds u (record u { drain = d }) refl refl refl) in
      let bag_m = bag_target_m c s.net in
      let says = oracle_says_m s.net bag_m in
      let bag_q = pos (pending_eligible_m s.store bag_m bag_m) in
      let d = s.drain in
      let timed_out = (pos 0 <ℤ? c.match_drain_max_s) && lt (lit 0 0) d.until && le d.until t.now in
      by_if P (not c.match_drain_enabled) (by_if (λ x. P (x, s.store)) d.active (quiet _) (quiet d))
        (by_if P d.active
          (by_if P (says && (bag_q ≤ℤ? pos 0) || timed_out || oracle_left_m s.net bag_m) (wrote _)
            (quiet d))
          (by_if P (says && (c.match_drain_min_queue ≤ℤ? (if says then bag_q else pos 0))) (quiet _)
            (quiet d)))

  -- The pool's answers in a turn of the worker can be printed.
  abbrev pub Prints : Event D J → Type 0
  Prints (Event.works pool t paper is_running) = Printable J pool
  Prints _ = Unit

  pub taken-Holds :
      (c : Config) (e : Event D J) (s : Supervisor F Doc) (w : FlushTimes F)
      → Prints e
      → Holds D J s (take_event D J c e (s, w)).0
  unfolding take_event handle_batch_hits persist_queue_for_restart shutdown_queue finalize_queue
  taken-Holds c (Event.mines t batch) s w p =
      by_if (Holds D J s) (is_none_left batch.hits) (one_hit c t batch.hit s)
        (handled_all c t batch.hits s)
  taken-Holds c (Event.works pool t paper is_running) s w p =
      turned-Holds c pool t paper is_running s w p
  taken-Holds c (Event.watches t) s w p = watched-Holds c t s
  taken-Holds c (Event.polls t paper force) s w p = aside-Holds s _ refl refl refl
  taken-Holds c (Event.persists t) s w p = bagged_and_deferred t s
  taken-Holds c (Event.shuts_down t) s w p =
      let bagged = bag_live_queue_to_store D J t.clock shutdown_pending_reason s in
      let u : Supervisor F Doc = record bagged {
        store = defer_all_to_next_start J t.minute bagged.store;
      } in
      Holds-trans D J s u _ (bagged_and_deferred t s) (written-Holds D J u)
  taken-Holds c (Event.finalizes t) s w p = bagged_and_deferred t s

  pub event-Holds :
      (c : Config) (e : Event D J) (s : Supervisor F Doc) (w : FlushTimes F)
      → Prints e
      → Holds D J s (on_event D J c e (s, w)).0
  unfolding on_event
  event-Holds c e s w p =
      by_if (λ (z : Both D J). Holds D J s z.0) s.ended (Holds-refl D J s) (taken-Holds c e s w p)

  events-Holds :
      (c : Config) (events : List (Event D J)) (x : Both D J)
      → All Prints events
      → Holds D J x.0 (run_events D J c events x).0
  unfolding run_events
  events-Holds c [] x p = Holds-refl D J x.0
  events-Holds c (e ∷ events) (s, w) p =
      Holds-trans D J s (on_event D J c e (s, w)).0 _ (event-Holds c e s w p.0)
        (events-Holds c events (on_event D J c e (s, w)) p.1)

  pub encoded_not_empty : (h : Text) → is_argon2_encoded h ≡ true → is_empty h ≡ false
  unfolding is_argon2_encoded starts_with is_empty
  encoded_not_empty [] e = absurd (not_both refl e)
  encoded_not_empty (a ∷ h) e = refl

  last_queued :
      (h : Text) (jobs : List (LiveSubmitJob F)) (job : LiveSubmitJob F)
      → job.hit.hash_str ≡ h
      → is_queued h (jobs ++ job ∷ []) ≡ true
  last_queued h [] job e =
      subst (λ g. (text_eq g h || false) ≡ true) (sym e) (ground (arith, text_eq_refl h))
  last_queued h (x ∷ jobs) job e = ground (arith, last_queued h jobs job e)

  -- Once the engine's hit has a proper key and is prepared as `ready`, it is never lost: from a
  -- supervisor whose store is valid and whose bagged and queued hits are encoded, after handle_hit and
  -- any further events (batches of hits, turns of the submit worker with any answers of the pool that
  -- the JSON library can print, the match window, polls, and the bagging at a restart, a shutdown and the end of the session, in any
  -- order), the digest of `ready` is in the bag or in the live queue, or a hit with it was accepted and
  -- reported. The store stays valid and the hits encoded.
  pub handled_hit-IsHeld :
      (c : Config) (t : Moment F) (hit ready : BlockHit F) (later : List (Event D J))
      (s : Supervisor F Doc) (w : FlushTimes F)
      → All Prints later
      → IsSteady D J s
      → is_hex64_key hit.key ≡ true
      → prepare_hit_for_submit hit c.salt_hex (mining_difficulty c s.net) c.time_cost c.parallelism
        ≡ some ready
      → let after = (run_events D J c later (handle_hit D J c t hit s, w)).0 in
        IsHeld D J ready.hash_str after × IsSteady D J after
  handled_hit-IsHeld c t hit ready later s w p v key e =
      let h = ready.hash_str in
      let s' = handle_hit D J c t hit s in
      let m = mining_difficulty c s.net in
      let ne =
        encoded_not_empty h
          (prepare_hit_for_submit-encoded hit ready c.salt_hex m c.time_cost c.parallelism e) in
      let v' = (handled-Holds D J c t hit s).steady v in
      let rest = events-Holds c later (s', w) p in
      let here : IsHeld D J h s' = elim (handle_hit-Routed D J c t hit ready s key e) [
        | inl kept ↦ ground (arith, ne, kept)
        | inr queued ↦
            let job : LiveSubmitJob F = record { hit = ready; kind = ready.block_type } in
            subst (λ q. (is_safe h s'.store.hash_index s'.reported || is_queued h q) ≡ true)
              (sym queued) (ground (arith, last_queued h s.live_q job refl))
      ] in
      (rest.held v' h ne here, rest.steady v')
