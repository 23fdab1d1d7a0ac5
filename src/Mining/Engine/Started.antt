-- ===== src/Mining/Engine/Started.antt =====
-- src/mining/cuda_engine.cpp: the calls that leave `started_`, and `start`, which sets it.
use x1miner.Base.{
  ℕ, ◌≡◌, refl, ◌∙◌, Bool, true, not, some, if◌then◌else◌, by_if, by_case, value_or, not_both,
}
use x1miner.Base.Int.{ℤ, pos, ◌≤ℤ?◌, ◌<ℤ?◌}
use x1miner.Base.Double.{Double}
use x1miner.Efficiency.Thermal.{apply_batch_scale}
use x1miner.Mining.Vram.{CudaVramPlan}
use x1miner.Mining.Engine.{
  EngineSettings, Engine, Device, start_lanes, next_plan, new_hunt, caps_for, start,
  stop_lane_workers, set_difficulty, replan, adopt_plan, build_groups, sync_lanes,
  ensure_lane_workers,
}

module _ (D : Double) where
  open D use {F, lt, le, add, lit, of_int}

  ensure_started : (e : Engine F) → (ensure_lane_workers e).started ≡ e.started
  unfolding ensure_lane_workers stop_lane_workers
  ensure_started e =
      let P : Engine F → Type 0 = λ t. t.started ≡ e.started in
      by_if P (e.lanes ≤ℤ? pos 1) (by_if P _ refl refl) (by_if P _ refl refl)

  sync_started : (device : Device) (e : Engine F) → (sync_lanes device e).1.started ≡ e.started
  unfolding sync_lanes
  sync_started device e = by_if (λ (z : Bool × Engine F). z.1.started ≡ e.started) _ refl refl

  adopt_started :
      (s : EngineSettings F) (device : Device) (p : CudaVramPlan) (e : Engine F)
      → (adopt_plan D s device p e).1.started ≡ e.started
  unfolding adopt_plan build_groups
  adopt_started s device p e =
      let w : ℤ = if s.work_patches <ℤ? pos 2 then pos 2 else s.work_patches in
      let t : Engine F = build_groups (record e {
        vram_plan = some p;
        lanes = p.lanes;
        work_patches = if pos 3 <ℤ? w then pos 3 else w;
        planned_batch_per_lane = p.batch_per_lane;
        batch_per_lane = apply_batch_scale D p.batch_per_lane e.thermal_batch_scale;
        hash_patch = pos 0;
        thermal_hunt = new_hunt D;
        thermal_idle_ms = pos 0;
      }) in
      by_if (λ (z : Bool × Engine F). z.1.started ≡ e.started) e.started (sync_started device t)
        refl

  replan_started :
      (s : EngineSettings F) (device : Device) (m : ℤ) (e : Engine F)
      → (replan D s device m e).1.started ≡ e.started
  unfolding replan
  replan_started s device m e =
      let caps = value_or e.vram_caps (caps_for D s e.total_vram_bytes) in
      let e1 : Engine F = record e { difficulty = m; vram_caps = some caps } in
      let p = next_plan D s device.free_bytes m caps e1 in
      by_if (λ (z : Bool × Engine F). z.1.started ≡ e.started) (p.batch_per_lane ≤ℤ? pos 0) refl
        (adopt_started s device p e1)

  pub set_difficulty_started :
      (s : EngineSettings F) (device : Device) (m : ℤ) (e : Engine F)
      → (set_difficulty D s device m e).1.started ≡ e.started
  unfolding set_difficulty
  set_difficulty_started s device m e0 =
      let e : Engine F = record e0 { difficulty = m } in
      let t = (replan D s device m e).1 in
      let P : Engine F → Type 0 = λ u. u.started ≡ e0.started in
      let Q : Bool × Engine F → Type 0 = λ z. P z.1 in
      by_if Q _ refl (
        by_if Q (not e0.started) refl (
          by_if P _ (ensure_started t ∙ replan_started s device m e) (replan_started s device m e)))

  -- A `start` that returns has started the engine.
  pub start_started :
      (s : EngineSettings F) (total : ℕ) (device : Device) (e : Engine F)
      → (start D s total device e).0 ≡ true
      → (start D s total device e).1.started ≡ true
  unfolding start start_lanes
  start_started s total device e0 =
      let e : Engine F = record e0 {
        total_vram_bytes = total;
        vram_caps = some (caps_for D s total);
      } in
      let (planned, t) = replan D s device e.difficulty e in
      let P : Bool × Engine F → Type 0 = λ z. z.0 ≡ true → z.1.started ≡ true in
      by_case P e0.started (λ on h. on)
        (λ off.
          by_if P (not device.is_there) (λ h. absurd (not_both refl h))
            (by_if P (not planned) (λ h. absurd (not_both refl h))
              (by_if P (not (sync_lanes device t).0) (λ h. absurd (not_both refl h)) (λ h. refl))))
