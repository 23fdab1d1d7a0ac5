-- ===== src/Mining/Engine.antt =====
-- src/mining/cuda_engine.cpp: the plan, the lane caps and the batch of `CudaEngine`. A CUDA call is
-- not modelled; what the device answers is an argument. A call that throws gives `false` and the state
-- that it leaves. The vector of lanes is its size, and making a thread does not throw. `lane_workers_` is its size too; stopping joins every worker.
-- The mailboxes are apart, in `Mining.Lane`; the fields that only the calls left out read are not
-- there, nor is the key generator that `start` sets up.
pub mod Xuni
pub mod Laws
pub mod Started
pub mod Thermal
pub mod Plans
use x1miner.Base.{
  ℕ, suc, Bool, true, false, not, ◌&&◌, ◌||◌, ◌==◌, ◌/◌, ◌+◌, Option, none, some, List, [], ◌∷◌,
  if◌then◌else◌, value_or, is_some,
}
use x1miner.Base.Int.{ℤ, pos, pos_part, to_int32, ◌+ℤ◌, ◌-ℤ◌, ◌<ℤ?◌, ◌≤ℤ?◌, ◌==ℤ◌, max_ℤ, min_ℤ}
use x1miner.Base.Double.{Double}
use x1miner.Base.Text.{Text}
use x1miner.Efficiency.Thermal.{clamp_float, apply_batch_scale}
use x1miner.Efficiency.Hunt.{
  HuntAction, Sensor, HuntState, HuntResult, HuntInput, hunt_thermal_scale,
}
use x1miner.Efficiency.Vram.{VramCaps, VramSettings, resolve_vram_caps}
use x1miner.Mining.Vram.{CudaVramPlan, plan_cuda_batch}

-- What the engine reads of the settings; of `vram` all but the total.
pub record EngineSettings (F : Type 0) : Type 0 where
  pub device_id : ℤ
  pub memory_cost : ℤ
  pub cuda_max_lanes : ℤ
  pub cuda_lane_reserve : ℤ
  pub cuda_batch_size : ℤ
  pub cuda_max_batch_size : ℤ
  pub vram_reference_difficulty : ℤ
  pub vram : VramSettings F
  pub work_patches : ℤ
  pub warn_gpu_temp_c : ℤ
  pub max_gpu_temp_c : ℤ
  pub thermal_use_memory_junction : Bool
  pub warn_mem_temp_c : ℤ
  pub max_mem_temp_c : ℤ
  pub gpu_thermal_batch_enabled : Bool
  pub gpu_thermal_batch_min_scale : F
  pub gpu_thermal_start_scale : F
  pub thermal_settle_s : ℤ
  pub thermal_batch_step : ℤ
  pub xuni_mining_enabled : Bool
  pub xuni_queue_soft_cap : ℤ
  pub xuni_queue_resume : ℤ
  pub xuni_every_n_batches : ℤ
  pub xuni_max_lanes : ℤ
  pub strategy : Text
  pub address : Text

-- `salt_hex()` of src/config/settings.hpp.
unfoldable pub salt_hex : Text → Text
salt_hex (a ∷ x ∷ c ∷ rest) =
    if (a == b'0') && ((x == b'x') || (x == b'X')) then c ∷ rest else a ∷ x ∷ c ∷ rest
salt_hex address = address

-- `group_lo_`, `group_hi_` and the flags of a group.
pub record Group : Type 0 where
  pub lo : ℤ
  pub hi : ℤ
  pub is_ready : Bool
  pub is_creating : Bool
  pub is_launched : Bool
  pub launch_batch : ℕ

pub record Engine (F : Type 0) : Type 0 where
  pub started : Bool
  pub difficulty : ℤ
  pub lanes : ℤ
  pub batch_per_lane : ℤ
  pub planned_batch_per_lane : ℤ
  pub work_patches : ℤ
  pub hash_patch : ℤ
  pub groups : List Group
  pub max_lanes_cap : ℤ
  pub config_max_lanes : ℤ
  pub thermal_batch_scale : F
  pub thermal_idle_ms : ℤ
  pub thermal_hunt : HuntState F
  pub vram_caps : Option (VramCaps F)
  pub vram_plan : Option CudaVramPlan
  pub total_vram_bytes : ℕ
  pub lanes_impl : ℤ
  pub lane_workers : ℤ
  pub worker_target_lanes : ℤ
  pub pending_xuni : ℤ
  pub pending_xnm : ℤ
  pub pending_xblk : ℤ
  pub batch_seq : ℕ
  pub xuni_queue_paused : Bool
  pub last_allow_xuni : Bool
  pub last_hashrate : F

-- What the device answers in one call: whether `cudaSetDevice` selects it, what is free, and after how
-- many new backends a construction throws, if one does.
pub record Device : Type 0 where
  pub is_there : Bool
  pub free_bytes : ℕ
  pub fails_after : Option ℕ

-- `kMaxGroups`
abbrev pub max_groups : ℕ
max_groups = 8

-- The loop from lane `i` on, with the groups that may still be made.
unfoldable pub groups_from : ℕ → ℤ → ℤ → List Group
groups_from ℕ.zero i lanes = []
groups_from (suc left) i lanes =
    let after = i +ℤ min_ℤ (pos 2) (lanes -ℤ i) in
    let group : Group = record {
      lo = i;
      hi = after;
      is_ready = false;
      is_creating = false;
      is_launched = false;
      launch_batch = 0;
    } in
    let rest = groups_from left after lanes in if i <ℤ? lanes then group ∷ rest else []

-- The number of lanes after `max_lanes_cap_++`.
unfoldable pub lanes_under : Option CudaVramPlan → ℤ → ℤ → ℤ → ℤ
lanes_under plan lanes most config =
    let raised = min_ℤ (max_ℤ lanes most) config in
    let planned = elim plan as (λ _. ℤ) [
      | none ↦ raised
      | some p ↦ if pos 0 <ℤ? p.lanes then min_ℤ raised p.lanes else raised
    ] in
    min_ℤ planned most

module _ {F : Type 0} where
  unfoldable pub build_groups : Engine F → Engine F
  unfolding groups_from
  build_groups e = record e { groups = groups_from max_groups (pos 0) e.lanes }

  -- The construction of a backend throws after `fails_after` of them; the lanes before it stay.
  unfoldable pub sync_lanes : Device → Engine F → Bool × Engine F
  sync_lanes device e =
      let wanted = max_ℤ (pos 0) e.lanes in
      let made = value_or device.fails_after 0 in
      if is_some device.fails_after && (pos made <ℤ? wanted -ℤ e.lanes_impl)
      then (false, record e { lanes_impl = e.lanes_impl +ℤ pos made })
      else (true, record e { lanes_impl = wanted })

  unfoldable pub stop_lane_workers : Engine F → Engine F
  stop_lane_workers e = record e { lane_workers = pos 0; worker_target_lanes = pos 0 }

  -- The mailboxes that it resets are those of `Mining.Lane`.
  unfoldable pub ensure_lane_workers : Engine F → Engine F
  unfolding stop_lane_workers
  ensure_lane_workers e =
      if e.lanes ≤ℤ? pos 1
      then if not (e.lane_workers ==ℤ pos 0) then stop_lane_workers e else e
      else if (e.lane_workers ==ℤ e.lanes) && (e.worker_target_lanes ==ℤ e.lanes)
      then e
      else record (stop_lane_workers e) { lane_workers = e.lanes; worker_target_lanes = e.lanes }

  unfoldable pub set_vram_caps : VramCaps F → Engine F → Engine F
  set_vram_caps caps e = record e { vram_caps = some caps }

  unfoldable pub stop : Engine F → Engine F
  unfolding stop_lane_workers
  stop e = record (stop_lane_workers e) { lanes_impl = pos 0; started = false; vram_plan = none }

  unfoldable pub reduce_lane_cap : Engine F → ℤ × Engine F
  unfolding ensure_lane_workers
  reduce_lane_cap e0 =
      let cap = max_ℤ (pos 1) (e0.max_lanes_cap -ℤ pos 1) in
      let e = record e0 { max_lanes_cap = cap; lanes = min_ℤ e0.lanes cap } in
      (cap, if e.started then ensure_lane_workers e else e)

  unfoldable pub add_lane_cap : Engine F → ℤ × Engine F
  unfolding ensure_lane_workers lanes_under
  add_lane_cap e0 =
      let cap = e0.max_lanes_cap +ℤ pos 1 in
      let e = record e0 {
        max_lanes_cap = cap;
        lanes = lanes_under e0.vram_plan e0.lanes cap e0.config_max_lanes;
      } in
      if e0.config_max_lanes ≤ℤ? e0.max_lanes_cap
      then (e0.max_lanes_cap, e0)
      else (cap, if e.started then ensure_lane_workers e else e)

module _ (D : Double) where
  open D use {F, lit, of_int, sub, add, div, lt}

  abbrev pub new_hunt : HuntState F
  new_hunt = record {
    batch = pos 0;
    last_adjust_s = lit 0 0;
    last_temp_c = pos 0;
    consecutive_cool = pos 0;
    over_floor_streak = pos 0;
    idle_ms = pos 0;
    floor = pos 0;
    last_ok = pos 0;
  }

  -- The constructor.
  unfoldable pub new_engine : EngineSettings F → Engine F
  new_engine s = record {
    started = false;
    difficulty = s.memory_cost;
    lanes = pos 1;
    batch_per_lane = pos 0;
    planned_batch_per_lane = pos 0;
    work_patches = pos 2;
    hash_patch = pos 0;
    groups = [];
    max_lanes_cap = max_ℤ (pos 1) s.cuda_max_lanes;
    config_max_lanes = max_ℤ (pos 1) s.cuda_max_lanes;
    thermal_batch_scale = lit 1 0;
    thermal_idle_ms = pos 0;
    thermal_hunt = new_hunt;
    vram_caps = none;
    vram_plan = none;
    total_vram_bytes = 0;
    lanes_impl = pos 0;
    lane_workers = pos 0;
    worker_target_lanes = pos 0;
    pending_xuni = pos 0;
    pending_xnm = pos 0;
    pending_xblk = pos 0;
    batch_seq = 0;
    xuni_queue_paused = false;
    last_allow_xuni = false;
    last_hashrate = lit 0 0;
  }

  unfoldable pub caps_for : EngineSettings F → ℕ → VramCaps F
  caps_for s total_bytes =
      resolve_vram_caps D (record s.vram { total_mib = to_int32 (pos (total_bytes / 1048576)) })

  -- The plan that a replan makes, with the caps.
  unfoldable pub next_plan : EngineSettings F → ℕ → ℤ → VramCaps F → Engine F → CudaVramPlan
  next_plan s free_bytes difficulty caps e = plan_cuda_batch D (record {
    total_bytes = e.total_vram_bytes;
    free_bytes = free_bytes;
    target_mib = caps.target_mib;
    desktop_headroom_mib = caps.headroom_mib;
    difficulty = difficulty;
    reference_difficulty = s.vram_reference_difficulty;
    max_lanes = e.max_lanes_cap;
    lane_reserve = s.cuda_lane_reserve;
    explicit_batch = s.cuda_batch_size;
    explicit_max_batch = s.cuda_max_batch_size;
    runtime_overhead_mib = caps.runtime_overhead_mib;
  })

  -- The engine once it has a plan with a batch.
  unfoldable pub adopt_plan : EngineSettings F → Device → CudaVramPlan → Engine F → Bool × Engine F
  unfolding build_groups sync_lanes
  adopt_plan s device plan e =
      let w = if s.work_patches <ℤ? pos 2 then pos 2 else s.work_patches in
      let t = build_groups (record e {
        vram_plan = some plan;
        lanes = plan.lanes;
        work_patches = if pos 3 <ℤ? w then pos 3 else w;
        planned_batch_per_lane = plan.batch_per_lane;
        batch_per_lane = apply_batch_scale D plan.batch_per_lane e.thermal_batch_scale;
        hash_patch = pos 0;
        thermal_hunt = new_hunt;
        thermal_idle_ms = pos 0;
      }) in
      if t.started then sync_lanes device t else (true, t)

  unfoldable pub replan : EngineSettings F → Device → ℤ → Engine F → Bool × Engine F
  unfolding adopt_plan
  replan s device difficulty e0 =
      let caps = value_or e0.vram_caps (caps_for s e0.total_vram_bytes) in
      let e = record e0 { difficulty = difficulty; vram_caps = some caps } in
      let plan = next_plan s device.free_bytes difficulty caps e in
      if plan.batch_per_lane ≤ℤ? pos 0 then (false, e) else adopt_plan s device plan e

  -- `start` after its device is selected and has told its total.
  unfoldable pub start_lanes : EngineSettings F → Device → Engine F → Bool × Engine F
  unfolding replan sync_lanes ensure_lane_workers
  start_lanes s device e =
      let (planned, t) = replan s device e.difficulty e in
      let (synced, u) = sync_lanes device t in
      if not planned
      then (false, t)
      else if not synced
      then (false, u)
      else (true, record (ensure_lane_workers u) { started = true })

  unfoldable pub start : EngineSettings F → ℕ → Device → Engine F → Bool × Engine F
  unfolding start_lanes
  start s total_bytes device e0 =
      let e = record e0 {
        total_vram_bytes = total_bytes;
        vram_caps = some (caps_for s total_bytes);
      } in
      if e0.started
      then (true, e0)
      else if not device.is_there
      then (false, e0)
      else start_lanes s device e

  unfoldable pub set_difficulty : EngineSettings F → Device → ℤ → Engine F → Bool × Engine F
  unfolding replan ensure_lane_workers
  set_difficulty s device difficulty e0 =
      let e = record e0 { difficulty = difficulty } in
      let (planned, t) = replan s device difficulty e in
      if (difficulty ==ℤ e0.difficulty) && e0.started
      then (true, e0)
      else if not e0.started
      then (true, e)
      else (planned, if planned then ensure_lane_workers t else t)

  -- Whether the call returned, its result, and the engine.
  unfoldable pub restore_lane_cap_if_cool :
      EngineSettings F → Device → ℤ → ℤ → Engine F → Bool × Bool × Engine F
  unfolding replan ensure_lane_workers
  restore_lane_cap_if_cool s device temperature_c memory_junction_c e0 =
      let hot_memory =
        s.thermal_use_memory_junction
        && (pos 0 <ℤ? memory_junction_c)
        && (s.warn_mem_temp_c ≤ℤ? memory_junction_c) in
      let e = record e0 { max_lanes_cap = e0.config_max_lanes } in
      let (planned, t) = replan s device e.difficulty e in
      if e0.config_max_lanes ≤ℤ? e0.max_lanes_cap
      then (true, false, e0)
      else if s.warn_gpu_temp_c ≤ℤ? temperature_c
      then (true, false, e0)
      else if hot_memory
      then (true, false, e0)
      else if not e0.started
      then (true, true, e)
      else (planned, planned, if planned then ensure_lane_workers t else t)
