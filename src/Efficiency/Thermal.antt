-- ===== src/Efficiency/Thermal.antt =====
-- src/efficiency/thermal_policy.cpp, without the hunt: scales from temperatures, a scale applied to
-- a batch, and the power target.
use x1miner.Base.{Bool, ◌&&◌, ◌||◌, if◌then◌else◌}
use x1miner.Base.Int.{ℤ, pos, ◌-ℤ◌, ◌<ℤ?◌, ◌≤ℤ?◌, max_ℤ, clamp_ℤ}
use x1miner.Base.Double.{Double, max_f, min_f, clamp_f}

-- The references `target_pct` and `min_pct` are given back as a pair.
unfoldable pub normalize_power_range : ℤ → ℤ → ℤ × ℤ
normalize_power_range target_pct min_pct =
    let target = clamp_ℤ target_pct (pos 50) (pos 100) in (target, clamp_ℤ min_pct (pos 50) target)

module _ (D : Double) where
  open D use {F, lit, of_int, add, sub, mul, div, lt, le, llround}

  -- std::max(lo, std::min(hi, v))
  unfoldable pub clamp_float : F → F → F → F
  unfolding clamp_f
  clamp_float v lo hi = clamp_f D v lo hi

  unfoldable pub thermal_batch_scale : ℤ → ℤ → ℤ → F → F
  unfolding clamp_float
  thermal_batch_scale temperature_c warn_temp_c max_temp_c min =
      let min_scale = clamp_float min (lit 50 2) (lit 1 0) in
      let t = div (of_int (temperature_c -ℤ warn_temp_c)) (of_int (max_temp_c -ℤ warn_temp_c)) in
      if max_temp_c ≤ℤ? warn_temp_c
      then min_scale
      else if temperature_c ≤ℤ? warn_temp_c
      then lit 1 0
      else if max_temp_c ≤ℤ? temperature_c
      then min_scale
      else clamp_float (sub (lit 1 0) (mul t (sub (lit 1 0) min_scale))) min_scale (lit 1 0)

  -- The temperatures of one sensor and its two bounds.
  pub record Limits : Type 0 where
    pub temp_c : ℤ
    pub warn_c : ℤ
    pub max_c : ℤ

  unfoldable pub thermal_batch_scale_sensors : Limits → Limits → Bool → F → F
  unfolding thermal_batch_scale min_f
  thermal_batch_scale_sensors gpu mem use_memory_junction min_scale =
      let scale = thermal_batch_scale gpu.temp_c gpu.warn_c gpu.max_c min_scale in
      if use_memory_junction && (pos 0 <ℤ? mem.temp_c)
      then min_f D scale (thermal_batch_scale mem.temp_c mem.warn_c mem.max_c min_scale)
      else scale

  unfoldable pub apply_batch_scale : ℤ → F → ℤ
  unfolding clamp_float
  apply_batch_scale batch scale =
      if batch ≤ℤ? pos 0
      then pos 0
      else max_ℤ (pos 1) (llround (mul (of_int batch) (clamp_float scale (lit 0 0) (lit 1 0))))

  unfoldable pub difficulty_power_target_pct : ℤ → ℤ → ℤ → ℤ → F → ℤ
  unfolding normalize_power_range clamp_float max_f
  difficulty_power_target_pct target difficulty reference_difficulty minimum full_derate_ratio =
      let (target_pct, min_pct) = normalize_power_range target minimum in
      let ratio = div (of_int difficulty) (of_int reference_difficulty) in
      let span = sub (max_f D (lit 101 2) full_derate_ratio) (lit 1 0) in
      let t = clamp_float (div (sub ratio (lit 1 0)) span) (lit 0 0) (lit 1 0) in
      if (reference_difficulty ≤ℤ? pos 0) || (difficulty ≤ℤ? reference_difficulty)
      then target_pct
      else llround (sub (of_int target_pct) (mul t (of_int (target_pct -ℤ min_pct))))
