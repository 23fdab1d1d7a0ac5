-- ===== src/Mining/Engine/Laws.antt =====
-- `CudaEngine` of src/mining/cuda_engine.cpp over any sequence of calls.
use x1miner.Base.{
  ◌≡◌, ◌⊎◌, refl, sym, subst, arith, Bool, true, not, ◌&&◌, Option, none, some, if◌then◌else◌,
  by_if, not_both, Bool-cases, inl, inr,
}
use x1miner.Base.Int.{
  ℤ, pos, ◌+ℤ◌, ◌-ℤ◌, ◌≤ℤ◌, ◌≤ℤ?◌, ◌==ℤ◌, max_ℤ, min_ℤ, +ℤ_parts, -ℤ_parts, ==ℤ→eq,
}
use x1miner.Mining.Vram.{CudaVramPlan}
use x1miner.Mining.Engine.{
  Engine, ensure_lane_workers, stop_lane_workers, stop, reduce_lane_cap, add_lane_cap, lanes_under,
}

-- The lanes and the batch, for any number of workers.
pub record Sized (cap config lanes planned batch_per_lane : ℤ) : Type 0 where
  pub cap_low : pos 1 ≤ℤ cap
  pub cap_high : cap ≤ℤ config
  pub lanes_low : pos 1 ≤ℤ lanes
  pub lanes_high : lanes ≤ℤ cap
  pub batch : pos 1 ≤ℤ planned → pos 1 ≤ℤ batch_per_lane

abbrev pub IsSized : {F : Type 0} → Engine F → Type 0
IsSized e =
    Sized e.max_lanes_cap e.config_max_lanes e.lanes e.planned_batch_per_lane e.batch_per_lane

-- The worker threads are those of the lanes: none for one lane, otherwise one each.
abbrev pub WellPooled : ℤ → ℤ → Type 0
WellPooled lanes workers = (lanes ≤ℤ pos 1) × (workers ≡ pos 0) ⊎ (workers ≡ lanes)

-- The plan has a batch and as many lanes as there are backends, and the engine uses no more.
abbrev pub Backed : Option CudaVramPlan → ℤ → ℤ → Type 0
Backed plan lanes backends = elim plan as (λ _. Type 0) [
  | none ↦ ⊥
  | some p ↦ (p.lanes ≡ backends) × (lanes ≤ℤ backends)
]

abbrev pub Ready : Option CudaVramPlan → (planned lanes backends : ℤ) → Type 0
Ready plan planned lanes backends = (pos 1 ≤ℤ planned) × Backed plan lanes backends

abbrev pub IsReady : {F : Type 0} → Engine F → Type 0
IsReady e = Ready e.vram_plan e.planned_batch_per_lane e.lanes e.lanes_impl

-- Of the engine's fields only those that the invariant is about.
pub record Sound (cap config lanes planned batch_per_lane aimed workers backends : ℤ)
    (started : Bool) (plan : Option CudaVramPlan) : Type 0 where
  pub sized : Sized cap config lanes planned batch_per_lane
  pub target : aimed ≡ workers
  pub pooled : started ≡ true → WellPooled lanes workers
  pub ready : started ≡ true → Ready plan planned lanes backends

abbrev pub IsSound : {F : Type 0} → Engine F → Type 0
IsSound e =
    Sound e.max_lanes_cap e.config_max_lanes e.lanes e.planned_batch_per_lane e.batch_per_lane
      e.worker_target_lanes e.lane_workers e.lanes_impl e.started e.vram_plan

less-Backed :
    (plan : Option CudaVramPlan) (lanes fewer backends : ℤ)
    → fewer ≤ℤ lanes
    → Backed plan lanes backends
    → Backed plan fewer backends
less-Backed none lanes fewer backends h b = absurd b
less-Backed (some p) lanes fewer backends h (same, fits) = (same, ground (arith, h, fits))

lanes_under_bounds :
    (plan : Option CudaVramPlan) (lanes most config : ℤ)
    → pos 1 ≤ℤ lanes
    → pos 1 ≤ℤ most
    → pos 1 ≤ℤ config
    → (pos 1 ≤ℤ lanes_under plan lanes most config) × (lanes_under plan lanes most config ≤ℤ most)
unfolding lanes_under
lanes_under_bounds none lanes most config a b d = (ground arith, ground arith)
lanes_under_bounds (some p) lanes most config a b d = (ground arith, ground arith)

lanes_under-Backed :
    (plan : Option CudaVramPlan) (lanes most config backends : ℤ)
    → pos 1 ≤ℤ lanes
    → Backed plan lanes backends
    → Backed plan (lanes_under plan lanes most config) backends
unfolding lanes_under
lanes_under-Backed none lanes most config backends low b = absurd b
lanes_under-Backed (some p) lanes most config backends low (same, fits) =
    (same, subst (λ x. lanes_under (some p) lanes most config ≤ℤ x) same (ground arith))

module _ {F : Type 0} where
  -- What `ensure_lane_workers` leaves alone is all but the workers.
  abbrev OnlyWorkers : Engine F → Engine F → Type 0
  OnlyWorkers e t =
      t ≡ record e { lane_workers = t.lane_workers; worker_target_lanes = t.worker_target_lanes }

  ensure_only : (e : Engine F) → OnlyWorkers e (ensure_lane_workers e)
  unfolding ensure_lane_workers stop_lane_workers
  ensure_only e =
      let P : Engine F → Type 0 = OnlyWorkers e in
      by_if P (e.lanes ≤ℤ? pos 1) (by_if P (not (e.lane_workers ==ℤ pos 0)) refl refl)
        (by_if P ((e.lane_workers ==ℤ e.lanes) && (e.worker_target_lanes ==ℤ e.lanes)) refl refl)

  ensure_pool :
      (e : Engine F)
      → e.worker_target_lanes ≡ e.lane_workers
      → WellPooled e.lanes (ensure_lane_workers e).lane_workers
        × ((ensure_lane_workers e).worker_target_lanes ≡ (ensure_lane_workers e).lane_workers)
  unfolding ensure_lane_workers stop_lane_workers
  ensure_pool e same = elim (Bool-cases (e.lanes ≤ℤ? pos 1)) [
    | inl a ↦ elim (Bool-cases (e.lane_workers ==ℤ pos 0)) [
      | inl b ↦ rw (a, b) (inl (ground arith, ==ℤ→eq _ _ b), same)
      | inr b ↦ rw (a, b) (inl (ground arith, refl), refl)
    ]
    | inr a ↦
        elim (Bool-cases ((e.lane_workers ==ℤ e.lanes) && (e.worker_target_lanes ==ℤ e.lanes))) [
          | inl b ↦ rw (a, b) (inr (==ℤ→eq _ _ (ground arith)), same)
          | inr b ↦ rw (a, b) (inr refl, refl)
        ]
  ]

  -- A step that ensures the workers.
  pub ensured :
      (e : Engine F)
      → IsSized e
      → e.worker_target_lanes ≡ e.lane_workers
      → (e.started ≡ true → IsReady e)
      → IsSound (ensure_lane_workers e)
  ensured e v same r =
      let (pool, target) = ensure_pool e same in
      subst IsSound (sym (ensure_only e))
        (record { sized = v; target = target; pooled = λ _. pool; ready = r })

  -- A step that ensures the workers where the engine runs.
  pub at_work :
      (e : Engine F)
      → IsSized e
      → e.worker_target_lanes ≡ e.lane_workers
      → (e.started ≡ true → IsReady e)
      → IsSound (if e.started then ensure_lane_workers e else e)
  at_work e v same r = elim (Bool-cases e.started) [
    | inl on ↦
        subst (λ b. IsSound (if b then ensure_lane_workers e else e)) (sym on) (ensured e v same r)
    | inr off ↦
        subst (λ b. IsSound (if b then ensure_lane_workers e else e)) (sym off)
          (record { sized = v; target = same; pooled = λ h. absurd (not_both off h); ready = r })
  ]

  pub reduce_lane_cap-IsSound : (e : Engine F) → IsSound e → IsSound (reduce_lane_cap e).1
  unfolding reduce_lane_cap
  reduce_lane_cap-IsSound e v =
      let less = -ℤ_parts e.max_lanes_cap (pos 1) in
      let w = v.sized in
      let cap = max_ℤ (pos 1) (e.max_lanes_cap -ℤ pos 1) in
      at_work (record e { max_lanes_cap = cap; lanes = min_ℤ e.lanes cap })
        (record {
          cap_low = ground arith;
          cap_high = ground (arith, less, w.cap_high, w.cap_low);
          lanes_low = ground (arith, w.lanes_low);
          lanes_high = ground arith;
          batch = w.batch;
        })
        v.target
        (λ on. (
          (v.ready on).0,
          less-Backed e.vram_plan e.lanes (min_ℤ e.lanes cap) e.lanes_impl (ground arith)
              (v.ready on).1,
        ))

  pub add_lane_cap-IsSound : (e : Engine F) → IsSound e → IsSound (add_lane_cap e).1
  unfolding add_lane_cap
  add_lane_cap-IsSound e v = elim (Bool-cases (e.config_max_lanes ≤ℤ? e.max_lanes_cap)) [
    | inl full ↦ rw full v
    | inr room ↦
        let w = v.sized in
        let more = +ℤ_parts e.max_lanes_cap (pos 1) in
        let high : e.max_lanes_cap +ℤ pos 1 ≤ℤ e.config_max_lanes = ground (arith, more) in
        let low : pos 1 ≤ℤ e.max_lanes_cap +ℤ pos 1 = omega (arith, more, w.cap_low) in
        let (one, most) =
          lanes_under_bounds e.vram_plan e.lanes (e.max_lanes_cap +ℤ pos 1) e.config_max_lanes
            w.lanes_low low (omega (arith, low, high)) in
        rw room (
          at_work _
            (record {
              cap_low = low;
              cap_high = high;
              lanes_low = one;
              lanes_high = most;
              batch = w.batch;
            })
            v.target
            (λ on. (
              (v.ready on).0,
              lanes_under-Backed e.vram_plan e.lanes (e.max_lanes_cap +ℤ pos 1) e.config_max_lanes
                  e.lanes_impl w.lanes_low (v.ready on).1,
            )))
  ]

  pub stop-IsSound : (e : Engine F) → IsSound e → IsSound (stop e)
  unfolding stop stop_lane_workers
  stop-IsSound e v = record {
    sized = v.sized;
    target = refl;
    pooled = λ h. absurd (not_both refl h);
    ready = λ h. absurd (not_both refl h);
  }
