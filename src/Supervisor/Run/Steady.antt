-- ===== src/Supervisor/Run/Steady.antt =====
-- src/app/supervisor.cpp: what every turn of the mining thread and of the worker keeps.
use x1miner.Base.{
  ◌≡◌, ℕ, refl, Bool, true, false, not, ◌&&◌, Option, none, some, if◌then◌else◌, by_if, value_or,
  is_some,
}
use x1miner.Base.Int.{ℤ, pos, ◌≤ℤ?◌}
use x1miner.Base.Double.{Double}
use x1miner.Common.Json.{JsonLib}
use x1miner.Mining.Engine.{Engine, Device, start, stop, set_difficulty, reduce_lane_cap}
use x1miner.Mining.Engine.Thermal.{update_thermal_batch_from_temp}
use x1miner.Mining.Engine.Laws.{IsSound, reduce_lane_cap-IsSound}
use x1miner.Mining.Wave.{MineBatchResult, drain_pipeline}
use x1miner.Mining.Calls.{EngineCall, call, Backs, call-IsSound}
use x1miner.Supervisor.Oracle.{holds, force_mine_mode}
use x1miner.Supervisor.Live.{Moment}
use x1miner.Supervisor.Events.{Event, take_event}
use x1miner.Supervisor.Events.Holds.{Holds, Holds-refl, Holds-trans}
use x1miner.Supervisor.Events.Safety.{taken-Holds, aside-Holds}
use x1miner.Supervisor.Run.{
  GpuSnapshot, RunSettings, Reading, Rig, config_of, with_sup, replan_on_change, watch,
  gpu_safety_tick, set_wanted, restart, cool_down, count_batch, take_batch, set_parked, park,
}

-- The engine's part is under the condition `ok`.
module _ (D : Double) (J : JsonLib D.F) (ok : Type 0) where
  open D use {F, lit, lt, le, add, of_int}
  open J use {Doc}

  -- The engine stays sound, and every digest stays where it cannot be lost.
  pub record Keeps (r r' : Rig D J) : Type 0 where
    pub sound : ok → IsSound r.engine → IsSound r'.engine
    pub holds : Holds D J r.both.0 r'.both.0

  pub Keeps-refl : (r : Rig D J) → Keeps r r
  Keeps-refl r = record { sound = λ k v. v; holds = Holds-refl D J r.both.0 }

  pub Keeps-trans : (r s t : Rig D J) → Keeps r s → Keeps s t → Keeps r t
  Keeps-trans r s t x y = record {
    sound = λ k v. y.sound k (x.sound k v);
    holds = Holds-trans D J r.both.0 s.both.0 t.both.0 x.holds y.holds;
  }

  module _ (s : RunSettings F) where
    -- An engine call.
    pub engine-Keeps :
        (r : Rig D J) (e : Engine F) (until : F) (reduce : Bool)
        → (ok → IsSound r.engine → IsSound e)
        → Keeps r
            (record r { engine = e; cooldown_until = until; reduce_lanes_after_cooldown = reduce })
    engine-Keeps r e until reduce f = record { sound = f; holds = Holds-refl D J r.both.0 }

    pub called :
        (c : EngineCall D) (e : Engine F)
        → Backs D s.engine c
        → IsSound e
        → IsSound (call D s.engine c e)
    called c e b v = call-IsSound D s.engine c e b v

    pub started-IsSound :
        (total : ℕ) (device : Device) (e : Engine F)
        → IsSound e
        → IsSound (start D s.engine total device e).1
    started-IsSound total device e v =
        unfold call Backs in called (EngineCall.starts total device) e tt v

    planned-IsSound :
        (device : Device) (m : ℤ) (e : Engine F)
        → device.fails_after ≡ none
        → IsSound e
        → IsSound (set_difficulty D s.engine device m e).1
    planned-IsSound device m e b v =
        unfold call Backs in called (EngineCall.sets_difficulty device m) e b v

    pub stopped-IsSound : (e : Engine F) → IsSound e → IsSound (stop e)
    stopped-IsSound e v = unfold call Backs in called EngineCall.stops e tt v

    pub watch-Keeps :
        (x : Reading F) (r : Rig D J)
        → (ok → x.replans.fails_after ≡ none)
        → Keeps r (watch D J s x r)
    unfolding watch replan_on_change
    watch-Keeps x r0 b =
        let polls = Event.polls x.moment x.paper false in
        let both = take_event D J s.config polls r0.both in
        let r : Rig D J = record r0 { both = both } in
        let old = r0.both.0.net.network_difficulty in
        let diff = value_or both.0.net.network_difficulty (pos 0) in
        let u = replan_on_change D J s x.replans old r in
        let replanned : Keeps r u =
          by_if (Keeps r)
            (is_some old
              && not (holds old diff)
              && not (force_mine_mode s.config)
              && r.engine.started)
            (engine-Keeps r (set_difficulty D s.engine x.replans diff r.engine).1 r.cooldown_until
              r.reduce_lanes_after_cooldown (λ k. planned-IsSound x.replans diff r.engine (b k)))
            (Keeps-refl r) in
        Keeps-trans r0 r (watch D J s x r0)
          (record {
            sound = λ k v. v;
            holds = taken-Holds D J s.config polls r0.both.0 r0.both.1 tt;
          })
          (Keeps-trans r u (watch D J s x r0) replanned (record {
            sound = λ k v. v;
            holds =
                taken-Holds D J (config_of D J s u.engine) (Event.watches x.moment) u.both.0
                  u.both.1 tt;
          }))

    heated-IsSound :
        (now : F) (g : GpuSnapshot) (e : Engine F)
        → IsSound e
        → IsSound
            (update_thermal_batch_from_temp D s.engine g.temperature_c g.memory_junction_c now e).1
    heated-IsSound now g e v =
        unfold call Backs in
        called (EngineCall.reads_temperature g.temperature_c g.memory_junction_c now) e tt v

    pub tick-Keeps :
        (now : F) (snap : Option GpuSnapshot) (r : Rig D J)
        → Keeps r (gpu_safety_tick D J s now snap r).1
    unfolding gpu_safety_tick
    tick-Keeps now none r = Keeps-refl r
    tick-Keeps now (some g) r =
        let e =
          (update_thermal_batch_from_temp D s.engine g.temperature_c g.memory_junction_c now
            r.engine).1 in
        let hot = heated-IsSound now g r.engine in
        by_if (λ (z : Bool × Rig D J). Keeps r z.1)
          (is_some s.emergency_mib && (value_or s.emergency_mib (pos 0) ≤ℤ? g.used_mib))
          (engine-Keeps r (stop e) (add now (lit 3 0)) r.reduce_lanes_after_cooldown
            (λ k v. stopped-IsSound e (hot v)))
          (engine-Keeps r e r.cooldown_until r.reduce_lanes_after_cooldown (λ k. hot))

    wanted-IsSound :
        (device : Device) (wanted : Option ℤ) (e : Engine F)
        → device.fails_after ≡ none
        → IsSound e
        → IsSound (set_wanted D J s device wanted e).1
    unfolding set_wanted
    wanted-IsSound device none e b v = v
    wanted-IsSound device (some m) e b v = planned-IsSound device m e b v

    restart-Keeps :
        (x : Reading F) (r : Rig D J)
        → (ok → x.replans.fails_after ≡ none)
        → Keeps r (restart D J s x r)
    unfolding restart
    restart-Keeps x r b =
        let e = if r.reduce_lanes_after_cooldown then (reduce_lane_cap r.engine).1 else r.engine in
        let (started, e1) = start D s.engine x.total_bytes x.device e in
        let wanted =
          if force_mine_mode s.config
          then some s.config.force_mine_memory_cost
          else r.both.0.net.network_difficulty in
        let (planned, e2) = set_wanted D J s x.replans wanted e1 in
        let w : IsSound r.engine → IsSound e =
          λ v. by_if IsSound r.reduce_lanes_after_cooldown (reduce_lane_cap-IsSound r.engine v) v in
        let w1 : IsSound r.engine → IsSound e1 =
          λ v. started-IsSound x.total_bytes x.device e (w v) in
        engine-Keeps r (if started then e2 else e1)
          (if started && planned then r.cooldown_until else add x.after (of_int s.gpu_cooldown_s))
          false
          (λ k v. by_if IsSound started (wanted-IsSound x.replans wanted e1 (b k) (w1 v)) (w1 v))

    pub cool_down-Keeps :
        (x : Reading F) (r : Rig D J)
        → (ok → x.replans.fails_after ≡ none)
        → Keeps r (cool_down D J s x r)
    unfolding cool_down
    cool_down-Keeps x r b =
        by_if (Keeps r) (le r.cooldown_until x.after && not r.engine.started) (restart-Keeps x r b)
          (Keeps-refl r)

    pub take_batch-Keeps :
        (t : Moment F) (batch : MineBatchResult F) (r : Rig D J)
        → Keeps r (take_batch D J s t batch r)
    unfolding take_batch count_batch with_sup take_event
    take_batch-Keeps t batch r =
        let counted = count_batch D J r.engine batch r.both.0 in
        record {
          sound = λ k v. v;
          holds =
              Holds-trans D J r.both.0 counted _ (aside-Holds D J r.both.0 counted refl refl refl) (
                taken-Holds D J (config_of D J s r.engine) (Event.mines t batch) counted r.both.1
                  tt);
        }

    pub parked-Keeps : (b : Bool) (r : Rig D J) → Keeps r (set_parked D J b r)
    unfolding set_parked with_sup
    parked-Keeps b r = record {
      sound = λ k v. v;
      holds = aside-Holds D J r.both.0 _ refl refl refl;
    }

    pub park-Keeps : (x : Reading F) (r : Rig D J) → Keeps r (park D J s x r)
    unfolding park
    park-Keeps x r =
        let leftover = drain_pipeline D s.engine x.moment.clock x.leftover r.engine in
        let t = take_batch D J s x.moment leftover r in
        by_if (Keeps r) (not r.both.0.drain.gpu_parked && r.engine.started)
          (Keeps-trans r t (set_parked D J true t) (take_batch-Keeps x.moment leftover r)
            (parked-Keeps true t))
          (Keeps-refl r)
