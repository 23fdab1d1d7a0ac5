-- ===== src/Supervisor/Run/Session.antt =====
-- src/app/supervisor.cpp: what a batch, a whole turn and a session keep.
use x1miner.Base.{
  All, ◌≡◌, ◌⊎◌, refl, Bool, true, false, not, ◌&&◌, Option, none, some, List, [], ◌∷◌,
  if◌then◌else◌, by_if, inl, inr,
}
use x1miner.Base.Int.{ℤ, pos}
use x1miner.Base.Double.{Double}
use x1miner.Base.Text.{Text, codes, is_empty}
use x1miner.Common.Json.{JsonLib}
use x1miner.Common.Stats.{set_active_lanes}
use x1miner.Queue.Policy.{in_xuni_window}
use x1miner.Queue.Store.{pending_by_type}
use x1miner.Mining.Engine.{Engine, start, stop}
use x1miner.Mining.Engine.Xuni.{set_queue_counts}
use x1miner.Mining.Engine.Laws.{IsSound}
use x1miner.Mining.Wave.{MineBatchResult, mine_batch, drain_pipeline}
use x1miner.Mining.Calls.{EngineCall, call, Backs}
use x1miner.Supervisor.Oracle.{should_park_cuda}
use x1miner.Supervisor.Live.{Supervisor, Moment}
use x1miner.Supervisor.Events.{Event}
use x1miner.Supervisor.Events.Holds.{IsHeld, IsSteady}
use x1miner.Supervisor.Events.Safety.{Prints, taken-Holds, aside-Holds}
use x1miner.Supervisor.Run.{
  RunSettings, Reading, Rig, config_of, with_sup, watch, gpu_safety_tick, cool_down, end_mine,
  take_batch, set_parked, count_queue, mine, attempt, on_error, is_cuda_700, turn,
  graceful_shutdown, RunEvent, take_run_event, on_run_event, run_session,
}
use x1miner.Supervisor.Run.Steady.{
  Keeps, Keeps-refl, Keeps-trans, engine-Keeps, called, started-IsSound, stopped-IsSound,
  watch-Keeps, tick-Keeps, cool_down-Keeps, take_batch-Keeps, parked-Keeps, park-Keeps,
}

-- A turn in which each backend that a new plan of the running engine asks for can be made.
abbrev pub BacksTurn : (D : Double) (J : JsonLib D.F) → RunEvent D J → Type 0
BacksTurn D J (RunEvent.turns x) = x.replans.fails_after ≡ none
BacksTurn D J (RunEvent.stops x) = Unit
BacksTurn D J (RunEvent.works e) = Unit

-- The pool's answers in a turn of the worker can be printed.
abbrev pub PrintsTurn : (D : Double) (J : JsonLib D.F) → RunEvent D J → Type 0
PrintsTurn D J (RunEvent.turns x) = Unit
PrintsTurn D J (RunEvent.stops x) = Unit
PrintsTurn D J (RunEvent.works e) = Prints D J e

module _ (D : Double) (J : JsonLib D.F) (ok : Type 0) (s : RunSettings D.F) where
  open D use {F, lit, lt, add}
  open J use {Doc}

  counted-IsSound : (a b c : ℤ) (e : Engine F) → IsSound e → IsSound (set_queue_counts a b c e)
  counted-IsSound a b c e v =
      unfold call Backs in called D J ok s (EngineCall.sets_counts a b c) e tt v

  pub queue-Keeps : (t : Moment F) (r : Rig D J) → Keeps D J ok r (count_queue D J s t r)
  unfolding count_queue
  queue-Keeps t r =
      let count = λ (kind : Text). pos (pending_by_type r.both.0.store false kind) in
      let a = count (codes "XUNI") in
      let b = count (codes "XNM") in
      let c = count (codes "XBLK") in
      let none_left = set_queue_counts (pos 0) (pos 0) (pos 0) r.engine in
      let here = s.engine.xuni_mining_enabled && in_xuni_window t.minute in
      engine-Keeps D J ok s r (if here then set_queue_counts a b c r.engine else none_left)
        r.cooldown_until r.reduce_lanes_after_cooldown
        (λ k v.
          by_if IsSound here (counted-IsSound a b c r.engine v)
            (counted-IsSound (pos 0) (pos 0) (pos 0) r.engine v))

  pub end_mine-Keeps :
      (t : Moment F) (outcome : Text ⊎ MineBatchResult F) (r : Rig D J)
      → Keeps D J ok r (end_mine D J s t outcome r).1
  unfolding end_mine with_sup
  end_mine-Keeps t (inl error) r = Keeps-refl D J ok r
  end_mine-Keeps t (inr batch) r =
      let sup = r.both.0 in
      let shown : Supervisor F Doc = record sup {
        stats = set_active_lanes sup.stats r.engine.lanes;
      } in
      let u = with_sup D J shown r in
      Keeps-trans D J ok r u (take_batch D J s t batch u)
        (record { sound = λ k v. v; holds = aside-Holds D J sup shown refl refl refl })
        (take_batch-Keeps D J ok s t batch u)

  pub mine-Keeps : (x : Reading F) (r : Rig D J) → Keeps D J ok r (mine D J s x r).1
  unfolding mine
  mine-Keeps x r0 =
      let free = set_parked D J false r0 in
      let r = count_queue D J s x.moment free in
      let batch : EngineCall D =
        EngineCall.mines x.moment.minute x.moment.clock x.run x.wait x.boxes in
      let m = mine_batch D s.engine x.moment.minute x.moment.clock x.run x.wait r.engine x.boxes in
      let mined : Rig D J = record r { engine = m.engine } in
      let sound : ok → IsSound r.engine → IsSound m.engine =
        λ k v. unfold call Backs in called D J ok s batch r.engine tt v in
      Keeps-trans D J ok r0 free _ (parked-Keeps D J ok s false r0) (
        Keeps-trans D J ok free r _ (queue-Keeps x.moment free) (
          Keeps-trans D J ok r mined _
            (engine-Keeps D J ok s r m.engine r.cooldown_until r.reduce_lanes_after_cooldown sound)
            (end_mine-Keeps x.moment m.outcome mined)))

  attempt-Keeps : (x : Reading F) (r : Rig D J) → Keeps D J ok r (attempt D J s x r).1
  unfolding attempt
  attempt-Keeps x r0 =
      let P : Option Text × Rig D J → Type 0 = λ z. Keeps D J ok r0 z.1 in
      let begun = start D s.engine x.total_bytes x.device r0.engine in
      let (ready, e) = if r0.engine.started then (true, r0.engine) else begun in
      let r : Rig D J = record r0 { engine = e } in
      let sound : ok → IsSound r0.engine → IsSound e = λ k v.
        by_if (λ (z : Bool × Engine F). IsSound z.1) r0.engine.started v
          (started-IsSound D J ok s x.total_bytes x.device r0.engine v) in
      let first : Keeps D J ok r0 r =
        engine-Keeps D J ok s r0 e r0.cooldown_until r0.reduce_lanes_after_cooldown sound in
      let sup = r.both.0 in
      by_if P (not ready) first (
        by_if P (should_park_cuda s.config sup.net sup.drain.active)
          (Keeps-trans D J ok r0 r _ first (park-Keeps D J ok s x r))
          (Keeps-trans D J ok r0 r _ first (mine-Keeps x r)))

  error-Keeps :
      (now : F) (msg : Option Text) (r : Rig D J) → Keeps D J ok r (on_error D J now (msg, r))
  unfolding on_error
  error-Keeps now none r = Keeps-refl D J ok r
  error-Keeps now (some msg) r =
      by_if (Keeps D J ok r) (is_cuda_700 msg)
        (engine-Keeps D J ok s r (stop r.engine) (add now (lit 3 0)) r.reduce_lanes_after_cooldown
          (λ k. stopped-IsSound D J ok s r.engine))
        (Keeps-refl D J ok r)

  turn-Keeps :
      (x : Reading F) (r : Rig D J)
      → (ok → x.replans.fails_after ≡ none)
      → Keeps D J ok r (turn D J s x r)
  unfolding turn
  turn-Keeps x r0 b =
      let r = watch D J s x r0 in
      let (safe, checked) = gpu_safety_tick D J s x.moment.now x.snapshot r in
      let (msg, t) = attempt D J s x checked in
      let P : Rig D J → Type 0 = Keeps D J ok r0 in
      let seen : Keeps D J ok r0 r = watch-Keeps D J ok s x r0 b in
      let ticked : Keeps D J ok r0 checked =
        Keeps-trans D J ok r0 r checked seen (tick-Keeps D J ok s x.moment.now x.snapshot r) in
      by_if P (lt x.moment.now r.cooldown_until)
        (Keeps-trans D J ok r0 r (cool_down D J s x r) seen (cool_down-Keeps D J ok s x r b))
        (by_if P (not safe) ticked (
          Keeps-trans D J ok r0 checked _ ticked (
            Keeps-trans D J ok checked t _ (attempt-Keeps x checked)
              (error-Keeps x.moment.now msg t))))

  stops-Keeps : (x : Reading F) (r : Rig D J) → Keeps D J ok r (graceful_shutdown D J s x r)
  unfolding graceful_shutdown
  stops-Keeps x r0 =
      let t = record x.moment { shutting_down = true } in
      let leftover = drain_pipeline D s.engine t.clock x.leftover r0.engine in
      let r = if r0.engine.started then take_batch D J s t leftover r0 else r0 in
      let drained : Keeps D J ok r0 r =
        by_if (Keeps D J ok r0) r0.engine.started (take_batch-Keeps D J ok s t leftover r0)
          (Keeps-refl D J ok r0) in
      by_if (Keeps D J ok r0) r0.shutting_down (Keeps-refl D J ok r0) (
        Keeps-trans D J ok r0 r _ drained (record {
          sound = λ k. stopped-IsSound D J ok s r.engine;
          holds = taken-Holds D J s.config (Event.shuts_down t) r.both.0 r.both.1 tt;
        }))

  taken-Keeps :
      (e : RunEvent D J) (r : Rig D J)
      → (ok → BacksTurn D J e)
      → PrintsTurn D J e
      → Keeps D J ok r (take_run_event D J s e r)
  unfolding take_run_event
  taken-Keeps (RunEvent.turns x) r b p = turn-Keeps x r b
  taken-Keeps (RunEvent.stops x) r b p = stops-Keeps x r
  taken-Keeps (RunEvent.works e) r b p = record {
    sound = λ k v. v;
    holds = taken-Holds D J (config_of D J s r.engine) e r.both.0 r.both.1 p;
  }

  run_event-Keeps :
      (e : RunEvent D J) (r : Rig D J)
      → (ok → BacksTurn D J e)
      → PrintsTurn D J e
      → Keeps D J ok r (on_run_event D J s e r)
  unfolding on_run_event
  run_event-Keeps e r b p =
      by_if (Keeps D J ok r) r.both.0.ended (Keeps-refl D J ok r) (taken-Keeps e r b p)

  pub run_session-Keeps :
      (events : List (RunEvent D J)) (r : Rig D J)
      → (ok → All (BacksTurn D J) events)
      → All (PrintsTurn D J) events
      → Keeps D J ok r (run_session D J s events r)
  unfolding run_session
  run_session-Keeps [] r b p = Keeps-refl D J ok r
  run_session-Keeps (e ∷ events) r b p =
      Keeps-trans D J ok r (on_run_event D J s e r) _ (run_event-Keeps e r (λ k. (b k).0) p.0)
        (run_session-Keeps events (on_run_event D J s e r) (λ k. (b k).1) p.1)

module _ (D : Double) (J : JsonLib D.F) (s : RunSettings D.F) where
  -- Over any session (turns of the mining thread, shutdowns, and events of the worker, in any order)
  -- in which the JSON library can print the pool's answers, and in which the device gives every backend
  -- that a new plan of the running engine asks for: the engine stays sound, the store valid, the bagged
  -- and queued hits encoded, and a digest that is in the bag, in the live queue or accepted and reported
  -- stays one of these. A start of the engine may fail at any backend, the plan may not fit, and a batch
  -- may throw.
  pub run_session-IsSound :
      (events : List (RunEvent D J)) (r : Rig D J) (h : Text)
      → All (BacksTurn D J) events
      → All (PrintsTurn D J) events
      → IsSound r.engine
      → IsSteady D J r.both.0
      → is_empty h ≡ false
      → IsHeld D J h r.both.0
      → let after = run_session D J s events r in
        IsSound after.engine × IsSteady D J after.both.0 × IsHeld D J h after.both.0
  run_session-IsSound events r h backs prints sound steady ne e =
      let k = run_session-Keeps D J (All (BacksTurn D J) events) s events r (λ b. b) prints in
      (k.sound backs sound, k.holds.steady steady, k.holds.held steady h ne e)
