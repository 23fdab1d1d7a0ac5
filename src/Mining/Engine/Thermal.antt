-- ===== src/Mining/Engine/Thermal.antt =====
-- src/mining/cuda_engine.cpp: the thermal scale of the batch, set and hunted.
use x1miner.Base.{Bool, not, ◌&&◌, ◌||◌, if◌then◌else◌}
use x1miner.Base.Int.{ℤ, pos, ◌<ℤ?◌, ◌≤ℤ?◌, ◌==ℤ◌}
use x1miner.Base.Double.{Double}
use x1miner.Efficiency.Thermal.{clamp_float, apply_batch_scale}
use x1miner.Efficiency.Hunt.{
  HuntAction, Sensor, HuntState, HuntResult, HuntInput, hunt_thermal_scale,
}
use x1miner.Mining.Engine.{EngineSettings, Engine}

module _ (D : Double) where
  open D use {F, lit, of_int, sub, add, div, lt}

  -- `std::abs(a - b) < 0.005`
  unfoldable pub is_close : F → F → Bool
  is_close a b = let d = sub a b in lt (if lt d (lit 0 0) then sub (lit 0 0) d else d) (lit 5 3)

  unfoldable pub set_thermal_batch_scale : EngineSettings F → F → Engine F → F × Engine F
  unfolding is_close
  set_thermal_batch_scale s scale e =
      let floor = clamp_float D s.gpu_thermal_batch_min_scale (lit 20 2) (lit 1 0) in
      let new_scale = clamp_float D scale floor (lit 1 0) in
      let batch = apply_batch_scale D e.planned_batch_per_lane new_scale in
      let scaled = record e { thermal_batch_scale = new_scale } in
      if is_close new_scale e.thermal_batch_scale then (e.thermal_batch_scale, e) else (
        new_scale,
        if pos 0 <ℤ? e.planned_batch_per_lane
            then record scaled {
              batch_per_lane = batch;
              thermal_hunt = record e.thermal_hunt { batch = batch };
            }
            else scaled,
      )

  -- The start of the hunt, where it has no batch.
  unfoldable pub start_hunt : EngineSettings F → Engine F → Engine F
  start_hunt s e =
      let scale = clamp_float D s.gpu_thermal_start_scale (lit 50 2) (lit 1 0) in
      let batch = apply_batch_scale D e.planned_batch_per_lane scale in
      if e.thermal_hunt.batch ≤ℤ? pos 0
      then record e {
        thermal_hunt = record e.thermal_hunt { batch = batch; floor = batch; last_ok = batch };
        batch_per_lane = batch;
        thermal_batch_scale = scale;
      }
      else e

  unfoldable pub hunt_input : EngineSettings F → ℤ → ℤ → F → Engine F → HuntInput F
  hunt_input s temperature_c memory_junction_c now e =
      let settle = of_int s.thermal_settle_s in
      record {
        gpu_c = temperature_c;
        mem_c = memory_junction_c;
        use_mem = s.thermal_use_memory_junction;
        target_c = s.warn_mem_temp_c;
        cap_c = s.max_mem_temp_c;
        gpu_cap_c = s.max_gpu_temp_c;
        planned_batch = e.planned_batch_per_lane;
        step = s.thermal_batch_step;
        min_batch = apply_batch_scale D e.planned_batch_per_lane s.gpu_thermal_batch_min_scale;
        now_s = now;
        cut_settle_s = settle;
        raise_settle_s = add settle (lit 30 0);
      }

  -- What the engine does with the result of the hunt.
  unfoldable pub take_hunt : HuntResult F × HuntState F → Engine F → HuntResult F × Engine F
  take_hunt (r, hunt) e0 =
      let e = record e0 { thermal_hunt = hunt; thermal_idle_ms = r.idle_ms } in
      let moved = record e {
        batch_per_lane = r.batch;
        thermal_batch_scale = div (of_int r.batch) (of_int e.planned_batch_per_lane);
      } in
      let t = if (pos 0 <ℤ? r.batch) && not (r.batch ==ℤ e.batch_per_lane) then moved else e in
      (record r { scale = t.thermal_batch_scale; batch = t.batch_per_lane }, t)

  unfoldable pub update_thermal_batch_from_temp :
      EngineSettings F → ℤ → ℤ → F → Engine F → HuntResult F × Engine F
  unfolding start_hunt take_hunt
  update_thermal_batch_from_temp s temperature_c memory_junction_c now e =
      let idle : HuntResult F = record {
        batch = e.batch_per_lane;
        scale = e.thermal_batch_scale;
        action = HuntAction.hold;
        control_c = if pos 0 <ℤ? memory_junction_c then memory_junction_c else temperature_c;
        sensor = if pos 0 <ℤ? memory_junction_c then Sensor.mem else Sensor.gpu;
        idle_ms = pos 0;
        lane_delta = pos 0;
      } in
      let t = start_hunt s e in
      let input = hunt_input s temperature_c memory_junction_c now t in
      if not s.gpu_thermal_batch_enabled || (e.planned_batch_per_lane ≤ℤ? pos 0)
      then (idle, e)
      else take_hunt (hunt_thermal_scale D input t.thermal_hunt) t
