-- ===== src/Supervisor/Run/Rest.antt =====
-- src/app/supervisor.cpp: the pause after the device runs out of memory, and its end.
use x1miner.Base.{
  ◌≡◌, ◌⊎◌, refl, arith, ap, ◌∙◌, true, false, not, ◌&&◌, Option, none, some, List, [], ◌∷◌, map,
  All, if◌then◌else◌, by_if, by_case, value_or, is_some, inl, inr, Bool-cases, not_both,
}
use x1miner.Base.Int.{ℤ, pos, ◌≤ℤ?◌}
use x1miner.Base.Double.{Double}
use x1miner.Common.Json.{JsonLib}
use x1miner.Mining.Engine.Started.{set_difficulty_started, start_started}
use x1miner.Mining.Engine.{Engine, Device, start, stop, reduce_lane_cap}
use x1miner.Supervisor.Oracle.{force_mine_mode, holds}
use x1miner.Supervisor.Events.{Event, take_event}
use x1miner.Supervisor.Run.{
  GpuSnapshot, RunSettings, Reading, Rig, replan_on_change, watch, gpu_safety_tick, set_wanted,
  restart, cool_down, turn, RunEvent, take_run_event, on_run_event, run_session,
}

module _ (D : Double) where
  open D use {F, lt, le, add, lit, of_int}

  module _ (J : JsonLib D.F) (s : RunSettings F) where
    set_wanted_started :
        (device : Device) (wanted : Option ℤ) (e : Engine F)
        → (set_wanted D J s device wanted e).1.started ≡ e.started
    unfolding set_wanted
    set_wanted_started device none e = refl
    set_wanted_started device (some m) e = set_difficulty_started D s.engine device m e

    -- What a turn first does leaves an engine that is stopped, the cooldown and the counts.
    watch_stopped :
        (x : Reading F) (r : Rig D J)
        → r.engine.started ≡ false
        → let t = watch D J s x r in
          (t.engine ≡ r.engine)
          × (t.cooldown_until ≡ r.cooldown_until)
          × (t.both.0.stats ≡ r.both.0.stats)
    unfolding watch replan_on_change take_event
    watch_stopped x r e =
        let polls = Event.polls x.moment x.paper false in
        let both = take_event D J s.config polls r.both in
        let polled : Rig D J = record r { both = both } in
        let old = r.both.0.net.network_difficulty in
        let diff = value_or both.0.net.network_difficulty (pos 0) in
        let P : Rig D J → Type 0 = λ t.
          (t.engine ≡ r.engine)
          × (t.cooldown_until ≡ r.cooldown_until)
          × (t.both.0.stats ≡ r.both.0.stats) in
        by_case P
          (is_some old
            && not (holds old diff)
            && not (force_mine_mode s.config)
            && r.engine.started)
          (λ h. absurd (ground (arith, e, h))) (λ h. (refl, refl, refl))

    -- A later turn of the pause.
    quiet_turn :
        (x : Reading F) (r : Rig D J)
        → r.engine.started ≡ false
        → lt x.moment.now r.cooldown_until ≡ true
        → le r.cooldown_until x.after ≡ false
        → let t = turn D J s x r in
          (t.engine ≡ r.engine)
          × (t.cooldown_until ≡ r.cooldown_until)
          × (t.both.0.stats ≡ r.both.0.stats)
    unfolding turn cool_down
    quiet_turn x r e early waits =
        let u = watch D J s x r in
        let (same, until, stats) = watch_stopped x r e in
        let P : Rig D J → Type 0 = λ t.
          (t.engine ≡ r.engine)
          × (t.cooldown_until ≡ r.cooldown_until)
          × (t.both.0.stats ≡ r.both.0.stats) in
        let cools = ap (λ (d : F). lt x.moment.now d) until ∙ early in
        let short = ap (λ (d : F). le d x.after) until ∙ waits in
        by_case P (lt x.moment.now u.cooldown_until)
          (λ h.
            by_case P (le u.cooldown_until x.after && not u.engine.started)
              (λ g. absurd (ground (arith, g, short))) (λ g. (same, until, stats)))
          (λ h. absurd (not_both h cools))

    restart_ends :
        (x : Reading F) (r : Rig D J)
        → let t = restart D J s x r in
          (t.engine.started ≡ true) ⊎ (t.cooldown_until ≡ add x.after (of_int s.gpu_cooldown_s))
    unfolding restart
    restart_ends x r =
        let e = if r.reduce_lanes_after_cooldown then (reduce_lane_cap r.engine).1 else r.engine in
        let (started, e1) = start D s.engine x.total_bytes x.device e in
        let wanted =
          if force_mine_mode s.config
          then some s.config.force_mine_memory_cost
          else r.both.0.net.network_difficulty in
        let (planned, e2) = set_wanted D J s x.replans wanted e1 in
        let later = add x.after (of_int s.gpu_cooldown_s) in
        elim (Bool-cases started) [
          | inl on ↦ inl (
              by_case (λ (g : Engine F). g.started ≡ true) started
                (λ h.
                  set_wanted_started x.replans wanted e1
                  ∙ start_started D s.engine x.total_bytes x.device e on)
                (λ h. absurd (not_both h on)))
          | inr off ↦ inr (
              by_case (λ (d : F). d ≡ later) (started && planned)
                (λ g. absurd (ground (arith, g, off))) (λ g. refl))
        ]

    -- The last turn of the pause.
    last_turn :
        (x : Reading F) (r : Rig D J)
        → r.engine.started ≡ false
        → lt x.moment.now r.cooldown_until ≡ true
        → le r.cooldown_until x.after ≡ true
        → let t = turn D J s x r in
          (t.engine.started ≡ true) ⊎ (t.cooldown_until ≡ add x.after (of_int s.gpu_cooldown_s))
    unfolding turn cool_down
    last_turn x r e early ends =
        let u = watch D J s x r in
        let (same, until, stats) = watch_stopped x r e in
        let P : Rig D J → Type 0 = λ t.
          (t.engine.started ≡ true) ⊎ (t.cooldown_until ≡ add x.after (of_int s.gpu_cooldown_s)) in
        let cools = ap (λ (d : F). lt x.moment.now d) until ∙ early in
        let over = ap (λ (d : F). le d x.after) until ∙ ends in
        let off = ap (λ (g : Engine F). g.started) same ∙ e in
        by_case P (lt x.moment.now u.cooldown_until)
          (λ h.
            by_case P (le u.cooldown_until x.after && not u.engine.started) (λ g. restart_ends x u)
              (λ g. absurd (ground (arith, g, over, off))))
          (λ h. absurd (not_both h cools))

    abbrev pub WithinPause : F → List (Reading F) → Type 0
    WithinPause until xs = All (λ x. (lt x.moment.now until ≡ true) × (le until x.after ≡ false)) xs

    abbrev pub turns_of : List (Reading F) → List (RunEvent D J)
    turns_of xs = map (λ x. RunEvent.turns x) xs

    quiet_event :
        (x : Reading F) (r : Rig D J)
        → r.engine.started ≡ false
        → lt x.moment.now r.cooldown_until ≡ true
        → le r.cooldown_until x.after ≡ false
        → let t = on_run_event D J s (RunEvent.turns x) r in
          (t.engine ≡ r.engine)
          × (t.cooldown_until ≡ r.cooldown_until)
          × (t.both.0.stats ≡ r.both.0.stats)
    unfolding on_run_event take_run_event
    quiet_event x r e early waits =
        by_if
          (λ (t : Rig D J).
            (t.engine ≡ r.engine)
            × (t.cooldown_until ≡ r.cooldown_until)
            × (t.both.0.stats ≡ r.both.0.stats))
          r.both.0.ended (refl, refl, refl) (quiet_turn x r e early waits)

    quiet_turns :
        (until : F) (xs : List (Reading F)) (r : Rig D J)
        → r.engine.started ≡ false
        → r.cooldown_until ≡ until
        → WithinPause until xs
        → let t = run_session D J s (turns_of xs) r in
          (t.engine ≡ r.engine) × (t.cooldown_until ≡ until) × (t.both.0.stats ≡ r.both.0.stats)
    unfolding run_session
    quiet_turns until [] r e u q = (refl, u, refl)
    quiet_turns until (x ∷ xs) r e u ((early, waits), q) =
        let t = on_run_event D J s (RunEvent.turns x) r in
        let (same, kept, stats) =
          quiet_event x r e (ap (λ (d : F). lt x.moment.now d) u ∙ early)
            (ap (λ (d : F). le d x.after) u ∙ waits) in
        let off = ap (λ (g : Engine F). g.started) same ∙ e in
        let (same', kept', stats') = quiet_turns until xs t off (kept ∙ u) q in
        (same' ∙ same, kept', stats' ∙ stats)

    watch_cooldown :
        (x : Reading F) (r : Rig D J) → (watch D J s x r).cooldown_until ≡ r.cooldown_until
    unfolding watch replan_on_change
    watch_cooldown x r = by_if (λ (t : Rig D J). t.cooldown_until ≡ r.cooldown_until) _ refl refl

    emergency_stops :
        (x : Reading F) (r : Rig D J) (g : GpuSnapshot) (emergency : ℤ)
        → x.snapshot ≡ some g
        → s.emergency_mib ≡ some emergency
        → (emergency ≤ℤ? g.used_mib) ≡ true
        → lt x.moment.now r.cooldown_until ≡ false
        → let t = turn D J s x r in
          (t.engine.started ≡ false) × (t.cooldown_until ≡ add x.moment.now (lit 3 0))
    unfolding turn gpu_safety_tick stop
    emergency_stops x r g emergency snap cap over ready =
        let ready' = ap (λ (d : F). lt x.moment.now d) (watch_cooldown x r) ∙ ready in
        rw (snap, cap, over, ready') (refl, refl)

    -- A turn outside a cooldown that sees the used memory at the emergency limit stops the engine and
    -- starts a cooldown of three seconds. Through any further turns that begin within it and whose pause
    -- ends within it the engine stays as it is and no hash and no hit is counted. The first turn that
    -- begins within the cooldown and whose pause ends outside of it has the engine started again, or sets
    -- a new cooldown of gpu_cooldown_s from that time.
    pub emergency_rests :
        (x : Reading F) (quiet : List (Reading F)) (last : Reading F) (r : Rig D J)
        (g : GpuSnapshot) (emergency : ℤ)
        → x.snapshot ≡ some g
        → s.emergency_mib ≡ some emergency
        → (emergency ≤ℤ? g.used_mib) ≡ true
        → lt x.moment.now r.cooldown_until ≡ false
        → WithinPause (add x.moment.now (lit 3 0)) quiet
        → lt last.moment.now (add x.moment.now (lit 3 0)) ≡ true
        → le (add x.moment.now (lit 3 0)) last.after ≡ true
        → let stopped = turn D J s x r in
          let rested = run_session D J s (turns_of quiet) stopped in
          let back = turn D J s last rested in
          (stopped.engine.started ≡ false)
          × (rested.engine ≡ stopped.engine)
          × (rested.both.0.stats ≡ stopped.both.0.stats)
          × ((back.engine.started ≡ true)
              ⊎ (back.cooldown_until ≡ add last.after (of_int s.gpu_cooldown_s)))
    emergency_rests x quiet last r g emergency snap cap over ready q early ends =
        let until = add x.moment.now (lit 3 0) in
        let stopped = turn D J s x r in
        let rested = run_session D J s (turns_of quiet) stopped in
        let (off, set) = emergency_stops x r g emergency snap cap over ready in
        let (same, kept, stats) = quiet_turns until quiet stopped off set q in
        let off' = ap (λ (e : Engine F). e.started) same ∙ off in
        (
          off,
          same,
          stats,
          last_turn last rested off' (ap (λ (d : F). lt last.moment.now d) kept ∙ early)
              (ap (λ (d : F). le d last.after) kept ∙ ends),
        )
