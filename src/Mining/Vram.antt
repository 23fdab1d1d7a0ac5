-- ===== src/Mining/Vram.antt =====
-- src/mining/vram_batch.cpp. Byte counts are natural numbers and are multiplied at 64 bits; the
-- summary is text for the log and is left out.
pub mod Laws
use x1miner.Base.{
  ℕ, zero, suc, ◌+◌, ◌-◌, ◌*◌, ◌/◌, ◌%◌, ◌^◌, Bool, true, false, not, ◌&&◌, ◌||◌, ltb, leb,
  if◌then◌else◌, max,
}
use x1miner.Base.Int.{
  double_to_int, ℤ, pos, pos_part, to_int32, ◌+ℤ◌, ◌-ℤ◌, quot, ◌<ℤ?◌, ◌≤ℤ?◌, ◌==ℤ◌, max_ℤ, min_ℤ,
}
use x1miner.Base.Double.{Double}

pub record CudaVramPlan : Type 0 where
  pub batch_size : ℤ
  pub lanes : ℤ
  pub batch_per_lane : ℤ
  pub lane_reserve : ℤ
  pub budget_bytes : ℕ
  pub budget_mib : ℤ
  pub batch_vram_bytes : ℕ
  pub batch_vram_mib : ℤ
  pub used_before_mib : ℤ
  pub projected_used_mib : ℤ
  pub projected_headroom_mib : ℤ
  pub runtime_overhead_mib : ℤ
  pub target_mib : ℤ
  pub effective_target_mib : ℤ
  pub desktop_headroom_mib : ℤ
  pub difficulty : ℤ

-- 100 MiB.
abbrev pub cuda_engine_reserve_bytes : ℕ
cuda_engine_reserve_bytes = 104857600

unfoldable pub within_limits : CudaVramPlan → Bool
within_limits p =
    (p.projected_used_mib ≤ℤ? p.target_mib) && (p.desktop_headroom_mib ≤ℤ? p.projected_headroom_mib)

unfoldable pub fills_budget : CudaVramPlan → ℤ → Bool
fills_budget p tolerance_mib =
    let d = p.batch_vram_mib -ℤ p.budget_mib in max_ℤ d (pos 0 -ℤ d) ≤ℤ? tolerance_mib

unfoldable pub cuda_lane_count : ℤ → ℤ → ℤ → ℤ
cuda_lane_count difficulty reference_difficulty max_lanes =
    if (max_lanes ≤ℤ? pos 1) || (difficulty ≤ℤ? pos 0)
    then pos 1
    else if difficulty ==ℤ pos 100
    then max_ℤ (pos 1) max_lanes
    else if (reference_difficulty ≤ℤ? pos 0) || (reference_difficulty ≤ℤ? difficulty)
    then pos 1
    else max_ℤ (pos 1) (min_ℤ max_lanes (quot reference_difficulty difficulty))

-- `static_cast<uint64_t>` of an `int`.
unfoldable pub to_uint64 : ℤ → ℕ
to_uint64 (pos n) = n % 2 ^ 64
to_uint64 (ℤ.negsuc n) = 2 ^ 64 - n % 2 ^ 64 - 1

-- A `uint64_t` product.
unfoldable pub mul_64 : ℕ → ℕ → ℕ
mul_64 a b = a * b % 2 ^ 64

-- What `project` gives back through its references.
pub record Projection : Type 0 where
  pub vram_bytes : ℕ
  pub vram_mib : ℤ
  pub used_mib : ℤ
  pub headroom_mib : ℤ

module _ (D : Double) where
  open D use {F, lit, of_int, mul, div, le, trunc}

  unfoldable pub bytes_per_attempt : ℤ → F
  bytes_per_attempt difficulty = mul (mul (of_int difficulty) (lit 1024 0)) (lit 1001 3)

  unfoldable pub estimate_batch_vram_bytes : ℤ → ℤ → ℕ
  estimate_batch_vram_bytes batch_size difficulty =
      if (batch_size ≤ℤ? pos 0) || (difficulty ≤ℤ? pos 0)
      then 0
      else pos_part (trunc (mul (of_int batch_size) (bytes_per_attempt difficulty)))

  unfoldable pub memory_limited_batch_size : ℕ → ℤ → ℕ → ℤ
  unfolding bytes_per_attempt
  memory_limited_batch_size free_vram_bytes difficulty reserve_bytes =
      let available = of_int (pos (free_vram_bytes - reserve_bytes)) in
      let per = bytes_per_attempt difficulty in
      if (difficulty ≤ℤ? pos 0) || leb free_vram_bytes reserve_bytes
      then pos 0
      else if le per (lit 0 0)
      then pos 0
      else double_to_int (trunc (div available per))

  -- `tuned`
  unfoldable pub tuned_batch : ℤ → ℤ
  tuned_batch difficulty =
      if difficulty ≤ℤ? pos 1
      then pos 2048
      else if difficulty ≤ℤ? pos 8
      then pos 4096
      else if difficulty ≤ℤ? pos 64
      then pos 3072
      else pos 0

  unfoldable pub select_batch_size : ℕ → ℤ → ℤ → Bool → ℤ
  unfolding tuned_batch
  select_batch_size budget_bytes difficulty explicit_max_batch fill_vram_cap =
      let memory_limit =
        memory_limited_batch_size (budget_bytes + cuda_engine_reserve_bytes) difficulty
          cuda_engine_reserve_bytes in
      if memory_limit ≤ℤ? pos 0
      then pos 0
      else if pos 0 <ℤ? explicit_max_batch
      then min_ℤ memory_limit explicit_max_batch
      else if not fill_vram_cap && (pos 0 <ℤ? tuned_batch difficulty)
      then min_ℤ memory_limit (tuned_batch difficulty)
      else memory_limit

  unfoldable pub project : ℤ → ℤ → ℤ → ℤ → ℤ → Projection
  project total_mib lanes batch_per_lane difficulty runtime_overhead_mib =
      let bytes = mul_64 (estimate_batch_vram_bytes batch_per_lane difficulty) (to_uint64 lanes) in
      let mib = to_int32 (pos (bytes / 1048576)) in
      let used = mib +ℤ runtime_overhead_mib in
      record {
        vram_bytes = bytes;
        vram_mib = mib;
        used_mib = used;
        headroom_mib = max_ℤ (pos 0) (total_mib -ℤ used);
      }

  -- The plan with these lanes and this batch, and with their projection.
  unfoldable pub refit : ℤ → ℤ → ℤ → CudaVramPlan → CudaVramPlan
  refit total_mib lanes batch_per_lane plan =
      let q = project total_mib lanes batch_per_lane plan.difficulty plan.runtime_overhead_mib in
      record plan {
        batch_size = batch_per_lane;
        lanes = lanes;
        batch_per_lane = batch_per_lane;
        batch_vram_bytes = q.vram_bytes;
        batch_vram_mib = q.vram_mib;
        projected_used_mib = q.used_mib;
        projected_headroom_mib = q.headroom_mib;
      }

  -- The loop with the turns that are left, `lanes` and `batch_per_lane`: the plan shrunk until its
  -- projection fits, or as it was.
  unfoldable pub clamp_loop : ℕ → ℤ → ℤ → ℤ → CudaVramPlan → CudaVramPlan
  clamp_loop zero total_mib lanes batch_per_lane plan = plan
  clamp_loop (suc turns) total_mib lanes batch_per_lane plan =
      let fitted = refit total_mib lanes batch_per_lane plan in
      let smaller = max_ℤ (pos 1) (trunc (mul (of_int batch_per_lane) (lit 98 2))) in
      let fewer = lanes -ℤ pos 1 in
      let per_lane_budget = max 1 (plan.budget_bytes / to_uint64 fewer) in
      let refilled = select_batch_size per_lane_budget plan.difficulty (pos 0) true in
      let with_smaller = clamp_loop turns total_mib lanes smaller plan in
      let with_fewer = clamp_loop turns total_mib fewer refilled plan in
      if within_limits fitted
      then fitted
      else if pos 1 <ℤ? batch_per_lane
      then with_smaller
      else if pos 1 <ℤ? lanes
      then with_fewer
      else plan

  unfoldable pub clamp_plan_to_caps : CudaVramPlan → CudaVramPlan
  clamp_plan_to_caps plan =
      if within_limits plan
      then plan
      else clamp_loop 10000 (plan.projected_used_mib +ℤ plan.projected_headroom_mib) plan.lanes
          plan.batch_per_lane plan

  -- The arguments of a call.
  pub record PlanRequest : Type 0 where
    pub total_bytes : ℕ
    pub free_bytes : ℕ
    pub target_mib : ℤ
    pub desktop_headroom_mib : ℤ
    pub difficulty : ℤ
    pub reference_difficulty : ℤ
    pub max_lanes : ℤ
    pub lane_reserve : ℤ
    pub explicit_batch : ℤ
    pub explicit_max_batch : ℤ
    pub runtime_overhead_mib : ℤ

  -- The plan before it is clamped.
  unfoldable pub first_plan : PlanRequest → CudaVramPlan
  first_plan r =
      let total_mib = to_int32 (pos (r.total_bytes / 1048576)) in
      let used = pos (r.total_bytes - r.free_bytes) in
      let cap_batch_mib = max_ℤ (pos 0) (r.target_mib -ℤ r.runtime_overhead_mib) in
      let headroom_limited_mib =
        max_ℤ (pos 0) (total_mib -ℤ r.desktop_headroom_mib -ℤ r.runtime_overhead_mib) in
      let allowed_mib = min_ℤ cap_batch_mib headroom_limited_mib in
      let budget_bytes = mul_64 (mul_64 (to_uint64 allowed_mib) 1024) 1024 in
      let lanes = cuda_lane_count r.difficulty r.reference_difficulty (max_ℤ (pos 1) r.max_lanes) in
      let per_lane_budget = max 1 (budget_bytes / to_uint64 (max_ℤ (pos 1) lanes)) in
      let most = select_batch_size per_lane_budget r.difficulty r.explicit_max_batch true in
      let batch_per_lane =
        if pos 0 <ℤ? most
        then if pos 0 <ℤ? r.explicit_batch then min_ℤ r.explicit_batch most else most
        else pos 0 in
      let q = project total_mib lanes batch_per_lane r.difficulty r.runtime_overhead_mib in
      record {
        batch_size = batch_per_lane;
        lanes = lanes;
        batch_per_lane = batch_per_lane;
        lane_reserve = max_ℤ (pos 0) r.lane_reserve;
        budget_bytes = budget_bytes;
        budget_mib = allowed_mib;
        batch_vram_bytes = q.vram_bytes;
        batch_vram_mib = q.vram_mib;
        used_before_mib = max_ℤ (pos 0) (quot used (pos 1048576));
        projected_used_mib = q.used_mib;
        projected_headroom_mib = q.headroom_mib;
        runtime_overhead_mib = r.runtime_overhead_mib;
        target_mib = r.target_mib;
        effective_target_mib = r.target_mib;
        desktop_headroom_mib = r.desktop_headroom_mib;
        difficulty = r.difficulty;
      }

  unfoldable pub plan_cuda_batch : PlanRequest → CudaVramPlan
  plan_cuda_batch r = clamp_plan_to_caps (first_plan r)
