-- ===== src/Mining/Engine/Plans.antt =====
-- The calls of `CudaEngine` of src/mining/cuda_engine.cpp that plan or scale the batch.
use x1miner.Base.{
  none, is_some, by_case, ℕ, ◌≡◌, ◌⊎◌, refl, sym, ◌∙◌, subst, arith, Bool, true, false, not, ◌&&◌,
  some, if◌then◌else◌, by_if, not_both, Bool-cases, inl, inr, value_or,
}
use x1miner.Base.Int.{ℤ, pos, ◌-ℤ◌, ◌≤ℤ◌, ◌<ℤ?◌, ◌≤ℤ?◌, ◌==ℤ◌, max_ℤ}
use x1miner.Base.Double.{Double}
use x1miner.Efficiency.Thermal.{apply_batch_scale}
use x1miner.Efficiency.Vram.{VramCaps}
use x1miner.Mining.Vram.{CudaVramPlan}
use x1miner.Mining.Vram.Laws.{plan_cuda_batch_fits}
use x1miner.Mining.Engine.{
  EngineSettings, Engine, Device, new_hunt, ensure_lane_workers, stop_lane_workers, sync_lanes,
  build_groups, start, start_lanes, next_plan, adopt_plan, replan, set_difficulty,
  restore_lane_cap_if_cool, caps_for,
}
use x1miner.Mining.Engine.Laws.{IsSized, IsSound, Backed, ensured}

module _ (D : Double) where
  open D use {F}

  pub scale_low :
      (batch : ℤ) (scale : F) → pos 1 ≤ℤ batch → pos 1 ≤ℤ apply_batch_scale D batch scale
  unfolding apply_batch_scale
  scale_low batch scale h = ground arith

  module _ (s : EngineSettings F) where
    -- The plan of an engine keeps to its cap.
    next_plan-lanes :
        (free : ℕ) (difficulty : ℤ) (caps : VramCaps F) (e : Engine F)
        → pos 1 ≤ℤ e.max_lanes_cap
        → let p = next_plan D s free difficulty caps e in
          (pos 1 ≤ℤ p.lanes) × (p.lanes ≤ℤ e.max_lanes_cap)
    unfolding next_plan
    next_plan-lanes free difficulty caps e h =
        let (_, one, most, _) = plan_cuda_batch_fits D _ in (one, ground (arith, most, h))

    -- An engine with a plan, where the workers are still to be ensured.
    record PlannedFrom (target workers : ℤ) (started : Bool) (t : Engine F) : Type 0 where
      sized : IsSized t
      same_target : t.worker_target_lanes ≡ target
      same_workers : t.lane_workers ≡ workers
      same_started : t.started ≡ started
      batch : pos 1 ≤ℤ t.planned_batch_per_lane
      backed : t.started ≡ true → Backed t.vram_plan t.lanes t.lanes_impl
      plan : Backed t.vram_plan t.lanes t.lanes

    abbrev Planned : Engine F → Engine F → Type 0
    Planned e t = PlannedFrom e.worker_target_lanes e.lane_workers e.started t

    -- Every backend can be made.
    backs_all :
        (device : Device) (e : Engine F)
        → device.fails_after ≡ none
        → sync_lanes device e ≡ (true, record e { lanes_impl = max_ℤ (pos 0) e.lanes })
    unfolding sync_lanes
    backs_all device e h = rw h refl

    adopt-Planned :
        (device : Device) (p : CudaVramPlan) (e : Engine F)
        → (e.started ≡ true → device.fails_after ≡ none)
        → pos 1 ≤ℤ e.max_lanes_cap
        → e.max_lanes_cap ≤ℤ e.config_max_lanes
        → pos 1 ≤ℤ p.batch_per_lane
        → pos 1 ≤ℤ p.lanes
        → p.lanes ≤ℤ e.max_lanes_cap
        → ((adopt_plan D s device p e).0 ≡ true) × Planned e (adopt_plan D s device p e).1
    unfolding adopt_plan build_groups
    adopt-Planned device p e backs low high batch one most =
        let scaled = scale_low p.batch_per_lane e.thermal_batch_scale batch in
        let w : ℤ = if s.work_patches <ℤ? pos 2 then pos 2 else s.work_patches in
        let t : Engine F = build_groups (record e {
          vram_plan = some p;
          lanes = p.lanes;
          work_patches = if pos 3 <ℤ? w then pos 3 else w;
          planned_batch_per_lane = p.batch_per_lane;
          batch_per_lane = apply_batch_scale D p.batch_per_lane e.thermal_batch_scale;
          hash_patch = pos 0;
          thermal_hunt = new_hunt D;
          thermal_idle_ms = pos 0;
        }) in
        let P : Bool × Engine F → Type 0 = λ z. (z.0 ≡ true) × Planned e z.1 in
        let sized : IsSized t = record {
          cap_low = low;
          cap_high = high;
          lanes_low = one;
          lanes_high = most;
          batch = λ _. scaled;
        } in
        let lanes : p.lanes ≡ max_ℤ (pos 0) p.lanes = ground arith in
        let fits : p.lanes ≤ℤ max_ℤ (pos 0) p.lanes = ground arith in
        by_case P e.started
          (λ on. subst P (sym (backs_all device t (backs on))) (
            refl,
            record {
              sized = sized;
              same_target = refl;
              same_workers = refl;
              same_started = refl;
              batch = batch;
              backed = λ _. (lanes, fits);
              plan = (refl, ground arith);
            },
          ))
          (λ off. (
            refl,
            record {
              sized = sized;
              same_target = refl;
              same_workers = refl;
              same_started = refl;
              batch = batch;
              backed = λ h. absurd (not_both off h);
              plan = (refl, ground arith);
            },
          ))

    replan_cases :
        (device : Device) (difficulty : ℤ) (e : Engine F)
        → (e.started ≡ true → device.fails_after ≡ none)
        → IsSized e
        → let (ok, t) = replan D s device difficulty e in
          (ok ≡ true) × Planned e t
          ⊎ (ok ≡ false) × (t ≡ record e { difficulty = difficulty; vram_caps = t.vram_caps })
    unfolding replan
    replan_cases device difficulty e backs v =
        let caps = value_or e.vram_caps (caps_for D s e.total_vram_bytes) in
        let e1 : Engine F = record e { difficulty = difficulty; vram_caps = some caps } in
        let p = next_plan D s device.free_bytes difficulty caps e1 in
        let (one, most) = next_plan-lanes device.free_bytes difficulty caps e1 v.cap_low in
        elim (Bool-cases (p.batch_per_lane ≤ℤ? pos 0)) [
          | inl none_left ↦ rw none_left (inr (refl, refl))
          | inr some_left ↦
              rw some_left
                (inl (adopt-Planned device p e1 backs v.cap_low v.cap_high (ground arith) one most))
        ]

    -- The planned engine with its workers.
    at_plan :
        (e t : Engine F)
        → e.worker_target_lanes ≡ e.lane_workers
        → Planned e t
        → IsSound (ensure_lane_workers t)
    at_plan e t same w =
        ensured t w.sized (w.same_target ∙ same ∙ sym w.same_workers) (λ on. (w.batch, w.backed on))

    -- The flag is set after the workers are ensured, which do not read it.
    ensure-started :
        (t : Engine F)
        → record (ensure_lane_workers t) { started = true }
          ≡ ensure_lane_workers (record t { started = true })
    unfolding ensure_lane_workers stop_lane_workers
    ensure-started t =
        let stopped : Engine F = record t { lane_workers = pos 0; worker_target_lanes = pos 0 } in
        elim (Bool-cases (t.lanes ≤ℤ? pos 1)) [
          | inl a ↦ elim (Bool-cases (t.lane_workers ==ℤ pos 0)) [
            | inl b ↦ rw (a, b) refl
            | inr b ↦ rw (a, b) refl
          ]
          | inr a ↦
              elim (Bool-cases
                ((t.lane_workers ==ℤ t.lanes) && (t.worker_target_lanes ==ℤ t.lanes))) [
                  | inl b ↦ rw (a, b) refl
                  | inr b ↦ rw (a, b) refl
                ]
        ]

    abbrev ended : Bool × Engine F → Bool × Engine F
    ended (synced, u) =
        if not synced then (false, u) else (true, record (ensure_lane_workers u) { started = true })

    -- The end of `start`, with as many lanes as the plan has or, after a throw, fewer.
    synced-IsSound :
        (device : Device) (e t : Engine F)
        → e.worker_target_lanes ≡ e.lane_workers
        → e.started ≡ false
        → Planned e t
        → IsSound (ended (sync_lanes device t)).1
    unfolding sync_lanes
    synced-IsSound device e t same off w =
        let made = value_or device.fails_after 0 in
        let wanted = max_ℤ (pos 0) t.lanes in
        let u : Engine F = record t { lanes_impl = wanted } in
        let target = w.same_target ∙ same ∙ sym w.same_workers in
        let all : wanted ≡ t.lanes = ground (arith, w.sized.lanes_low) in
        let P : Bool × Engine F → Type 0 = λ z. IsSound (ended z).1 in
        by_if P (is_some device.fails_after && (pos made <ℤ? wanted -ℤ t.lanes_impl))
          (record {
            sized = w.sized;
            target = target;
            pooled = λ on. absurd (not_both (w.same_started ∙ off) on);
            ready = λ on. absurd (not_both (w.same_started ∙ off) on);
          })
          (subst IsSound (sym (ensure-started u)) (
            ensured (record u { started = true }) w.sized target
              (λ _. (w.batch, subst (λ n. Backed t.vram_plan t.lanes n) (sym all) w.plan))))

    replan-IsSound :
        (device : Device) (difficulty : ℤ) (e : Engine F)
        → (e.started ≡ true → device.fails_after ≡ none)
        → IsSound e
        → let (ok, t) = replan D s device difficulty e in
          IsSound (if ok then ensure_lane_workers t else t)
    replan-IsSound device difficulty e backs v =
        let z = replan D s device difficulty e in
        let P : Bool → Type 0 = λ b. IsSound (if b then ensure_lane_workers z.1 else z.1) in
        elim (replan_cases device difficulty e backs v.sized) [
          | inl (ok, w) ↦ subst P (sym ok) (at_plan e z.1 v.target w)
          | inr (bad, same) ↦ subst P (sym bad) (subst IsSound (sym same) v)
        ]

    pub set_difficulty-IsSound :
        (device : Device) (difficulty : ℤ) (e : Engine F)
        → device.fails_after ≡ none
        → IsSound e
        → IsSound (set_difficulty D s device difficulty e).1
    unfolding set_difficulty
    set_difficulty-IsSound device difficulty e all v =
        let e1 : Engine F = record e { difficulty = difficulty } in
        let P : Bool × Engine F → Type 0 = λ z. IsSound z.1 in
        by_if P ((difficulty ==ℤ e.difficulty) && e.started) v
          (by_if P (not e.started) v (replan-IsSound device difficulty e1 (λ _. all) v))

    pub restore-IsSound :
        (device : Device) (temperature junction : ℤ) (e : Engine F)
        → device.fails_after ≡ none
        → IsSound e
        → IsSound (restore_lane_cap_if_cool D s device temperature junction e).2
    unfolding restore_lane_cap_if_cool
    restore-IsSound device temperature junction e all v =
        let P : Bool × Bool × Engine F → Type 0 = λ z. IsSound z.2 in
        let w = v.sized in
        let e1 : Engine F = record e { max_lanes_cap = e.config_max_lanes } in
        let v1 : IsSound e1 = record {
          sized = record {
            cap_low = ground (arith, w.cap_low, w.cap_high);
            cap_high = ground arith;
            lanes_low = w.lanes_low;
            lanes_high = ground (arith, w.lanes_high, w.cap_high);
            batch = w.batch;
          };
          target = v.target;
          pooled = v.pooled;
          ready = v.ready;
        } in
        by_if P (e.config_max_lanes ≤ℤ? e.max_lanes_cap) v (
          by_if P (s.warn_gpu_temp_c ≤ℤ? temperature) v (
            by_if P
              (s.thermal_use_memory_junction
                && (pos 0 <ℤ? junction)
                && (s.warn_mem_temp_c ≤ℤ? junction))
              v (by_if P (not e.started) v1 (replan-IsSound device e.difficulty e1 (λ _. all) v1))))

    pub start-IsSound :
        (total : ℕ) (device : Device) (e : Engine F)
        → IsSound e
        → IsSound (start D s total device e).1
    unfolding start start_lanes
    start-IsSound total device e v =
        let e1 : Engine F = record e {
          total_vram_bytes = total;
          vram_caps = some (caps_for D s total);
        } in
        let z = replan D s device e.difficulty e1 in
        let P : Bool × Engine F → Type 0 = λ y. IsSound y.1 in
        let Q : Bool → Type 0 =
          λ b. P (if not b then (false, z.1) else ended (sync_lanes device z.1)) in
        by_case P e.started (λ _. v)
          (λ off.
            by_if P (not device.is_there) v
              (elim (replan_cases device e.difficulty e1 (λ on. absurd (not_both off on)) v.sized) [
                | inl (ok, w) ↦ subst Q (sym ok) (synced-IsSound device e1 z.1 v.target off w)
                | inr (bad, same) ↦ subst Q (sym bad) (subst IsSound (sym same) v)
              ]))
