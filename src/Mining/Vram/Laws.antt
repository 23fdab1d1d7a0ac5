-- ===== src/Mining/Vram/Laws.antt =====
-- `plan_cuda_batch` of src/mining/vram_batch.cpp and the loop that shrinks a plan.
use x1miner.Base.{
  ℕ, zero, suc, max, ◌/◌, ◌≡◌, ◌⊎◌, refl, arith, true, false, Option, none, some, if◌then◌else◌,
  Bool-cases, inl, inr,
}
use x1miner.Base.Int.{ℤ, pos, ◌+ℤ◌, ◌-ℤ◌, -ℤ_parts, ◌≤ℤ◌, ◌<ℤ?◌, max_ℤ, min_ℤ, quot}
use x1miner.Base.Double.{Double}
use x1miner.Mining.Vram.{
  CudaVramPlan, PlanRequest, cuda_lane_count, within_limits, clamp_loop, refit, clamp_plan_to_caps,
  first_plan, plan_cuda_batch, select_batch_size, to_uint64,
}

capped :
    (m q : ℤ)
    → (pos 1 ≤ℤ max_ℤ (pos 1) (min_ℤ m q)) × (max_ℤ (pos 1) (min_ℤ m q) ≤ℤ max_ℤ (pos 1) m)
capped m q = (ground arith, ground arith)

-- At least one lane, and no more than there may be.
pub cuda_lane_count_bounds :
    (d r m : ℤ) → (pos 1 ≤ℤ cuda_lane_count d r m) × (cuda_lane_count d r m ≤ℤ max_ℤ (pos 1) m)
unfolding cuda_lane_count
cuda_lane_count_bounds d r m =
    let boosted = capped m (quot r d) in (ground (arith, boosted.0), ground (arith, boosted.1))

module _ (D : Double) where
  open D use {lit, of_int, mul, trunc}

  -- The next lanes and batch after a try that does not fit.
  unfoldable pub next_try : CudaVramPlan → ℤ → ℤ → Option (ℤ × ℤ)
  next_try plan lanes batch =
      let fewer = lanes -ℤ pos 1 in
      let budget = max 1 (plan.budget_bytes / to_uint64 fewer) in
      if pos 1 <ℤ? batch
      then some (lanes, max_ℤ (pos 1) (trunc (mul (of_int batch) (lit 98 2))))
      else if pos 1 <ℤ? lanes
      then some (fewer, select_batch_size D budget plan.difficulty (pos 0) true)
      else none

  -- None of so many tries fits.
  unfoldable pub NoTryFits : ℕ → ℤ → ℤ → ℤ → CudaVramPlan → Type 0
  unfolding next_try
  NoTryFits zero total lanes batch plan = Unit
  NoTryFits (suc turns) total lanes batch plan =
      (within_limits (refit D total lanes batch plan) ≡ false)
      × elim (next_try plan lanes batch) as (λ _. Type 0) [
        | none ↦ Unit
        | some (lanes', batch') ↦ NoTryFits turns total lanes' batch' plan
      ]

  abbrev pub NoneFits : CudaVramPlan → Type 0
  NoneFits plan =
      NoTryFits 10000 (plan.projected_used_mib +ℤ plan.projected_headroom_mib) plan.lanes
        plan.batch_per_lane plan

  -- The plan as it was, since no try fits, or one within its limits that has no more lanes than given.
  abbrev Shrunk : Type 0 → CudaVramPlan → ℤ → CudaVramPlan → Type 0
  Shrunk Failed plan lanes q =
      ((q ≡ plan) × Failed)
      ⊎ ((within_limits q ≡ true)
          × (pos 1 ≤ℤ q.lanes)
          × (q.lanes ≤ℤ lanes)
          × (q.batch_size ≡ q.batch_per_lane))

  Shrunk-mono :
      (A B : Type 0) (plan q : CudaVramPlan) (a b : ℤ)
      → (A → B)
      → a ≤ℤ b
      → Shrunk A plan a q
      → Shrunk B plan b q
  Shrunk-mono A B plan q a b f h (inl (e, failed)) = inl (e, f failed)
  Shrunk-mono A B plan q a b f h (inr (w, one, le, same)) = inr (w, one, omega arith, same)

  clamp_loop-Shrunk :
      (turns : ℕ) (total lanes batch : ℤ) (plan : CudaVramPlan)
      → pos 1 ≤ℤ lanes
      → Shrunk
          (NoTryFits turns total lanes batch plan)
          plan
          lanes
          (clamp_loop D turns total lanes batch plan)
  unfolding clamp_loop refit NoTryFits
  clamp_loop-Shrunk zero total lanes batch plan h = inl (refl, tt)
  clamp_loop-Shrunk (suc turns) total lanes batch plan h =
      let fitted = refit D total lanes batch plan in
      elim (Bool-cases (within_limits fitted)) [
        | inl e ↦ rw e (inr (e, h, omega arith, refl))
        | inr e ↦ elim (Bool-cases (pos 1 <ℤ? batch)) [
          | inl f ↦
              rw (e, f)
                (Shrunk-mono _ _ plan _ lanes lanes (λ x. (refl, x)) (omega arith)
                  (clamp_loop-Shrunk turns total lanes _ plan h))
          | inr f ↦ elim (Bool-cases (pos 1 <ℤ? lanes)) [
            | inl g ↦
                let down = -ℤ_parts lanes (pos 1) in
                rw (e, f, g)
                  (Shrunk-mono _ _ plan _ (lanes -ℤ pos 1) lanes (λ x. (refl, x))
                    (omega (arith, down))
                    (clamp_loop-Shrunk turns total (lanes -ℤ pos 1) _ plan (ground (arith, down))))
            | inr g ↦ rw (e, f, g) (inl (refl, (refl, tt)))
          ]
        ]
      ]

  first_plan-lanes :
      (r : PlanRequest D)
      → let p = first_plan D r in
        (pos 1 ≤ℤ p.lanes)
        × (p.lanes ≤ℤ max_ℤ (pos 1) (max_ℤ (pos 1) r.max_lanes))
        × (p.batch_size ≡ p.batch_per_lane)
  unfolding first_plan
  first_plan-lanes r =
      let (one, most) =
        cuda_lane_count_bounds r.difficulty r.reference_difficulty (max_ℤ (pos 1) r.max_lanes) in
      (one, most, refl)

  clamp_plan_to_caps-Shrunk :
      (plan : CudaVramPlan)
      → pos 1 ≤ℤ plan.lanes
      → (within_limits plan ≡ true)
        ⊎ Shrunk (NoneFits plan) plan plan.lanes (clamp_plan_to_caps D plan)
  unfolding clamp_plan_to_caps
  clamp_plan_to_caps-Shrunk plan h = elim (Bool-cases (within_limits plan)) [
    | inl e ↦ inl e
    | inr e ↦ inr (rw e (clamp_loop-Shrunk 10000 _ plan.lanes plan.batch_per_lane plan h))
  ]

  clamp_plan_to_caps-within :
      (plan : CudaVramPlan) → within_limits plan ≡ true → clamp_plan_to_caps D plan ≡ plan
  unfolding clamp_plan_to_caps
  clamp_plan_to_caps-within plan e = rw e refl

  -- The plan of the miner stays within the target and leaves the headroom of the desktop; or it is
  -- the first plan unshrunk, and then no try of the loop fits, in the 10000 turns that it has: the tries
  -- are the lanes and batch of the first plan, then again and again a batch smaller by a fiftieth, and
  -- once it is 1 one lane less with its batch sized anew, down to one lane. The plan's lanes are at least
  -- one and at most the allowed ones, and its batch is the batch of one lane.
  pub plan_cuda_batch_fits :
      (r : PlanRequest D)
      → let p = plan_cuda_batch D r in
        ((within_limits p ≡ true) ⊎ ((p ≡ first_plan D r) × NoneFits (first_plan D r)))
        × (pos 1 ≤ℤ p.lanes)
        × (p.lanes ≤ℤ max_ℤ (pos 1) (max_ℤ (pos 1) r.max_lanes))
        × (p.batch_size ≡ p.batch_per_lane)
  unfolding plan_cuda_batch
  plan_cuda_batch_fits r =
      let first = first_plan D r in
      let (one, most, same) = first_plan-lanes r in
      elim (clamp_plan_to_caps-Shrunk first one) [
        | inl e ↦ rw (clamp_plan_to_caps-within first e) (inl e, one, most, same)
        | inr (inl (e, none_fits)) ↦ rw e (inr (refl, none_fits), one, most, same)
        | inr (inr (w, o, le, s)) ↦ (inl w, o, omega (arith, le, most), s)
      ]
