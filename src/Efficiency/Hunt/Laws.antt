-- ===== src/Efficiency/Hunt/Laws.antt =====
-- `hunt_thermal_scale` of src/efficiency/thermal_policy.cpp: a whole reading, the first and the
-- later ones.
use x1miner.Base.{◌≡◌, inl, inr, refl, arith, Bool-cases}
use x1miner.Base.Int.{ℤ, pos, ◌≤ℤ◌}
use x1miner.Base.Double.{Double}
use x1miner.Efficiency.Hunt.{
  usable_step, usable_batch, HuntInput, HuntState, HuntAction, next_reading, first_reading,
  HuntResult, hunt_thermal_scale, start_marks, make_move, is_cool, is_hot, ready_state, steady_temp,
  normalise, result,
}
use x1miner.Efficiency.Hunt.Moves.{
  usable_min_bounds, usable_batch_bounds, hold-IsMove, CanMove, cool_move-CanMove, hot_move-CanMove,
  IsMove, Told,
}

module _ (D : Double) where
  open D use {F}

  usable_step_positive : (s : ℤ) → pos 1 ≤ℤ usable_step s
  unfolding usable_step
  usable_step_positive s = ground arith

  -- The result shows the state's batch; the move keeps to `IsMove`.
  abbrev Reads : HuntInput F → HuntState F → HuntResult F × HuntState F → Type 0
  Reads i st m =
      ((m.0).batch ≡ (m.1).batch)
      × IsMove i.min_batch i.planned_batch st.batch st.floor (m.1).batch (m.1).floor (m.0).action

  Told-floor : (a : HuntAction) (fl fl0 x y : ℤ) → fl ≤ℤ fl0 → Told a fl0 x y → Told a fl x y
  unfolding Told
  Told-floor HuntAction.hold fl fl0 x y h t = t
  Told-floor HuntAction.cut fl fl0 x y h t = (t.0, omega (arith, t.1))
  Told-floor HuntAction.raise fl fl0 x y h t = t

  IsMove-floor :
      (m p b fl fl0 b' fl' : ℤ) (a : HuntAction)
      → fl ≤ℤ fl0
      → IsMove m p b fl0 b' fl' a
      → IsMove m p b fl b' fl' a
  IsMove-floor m p b fl fl0 b' fl' a h v = record {
    above = v.above;
    below = v.below;
    told = Told-floor a fl fl0 b b' h v.told;
    rises = omega (arith, v.rises);
  }

  pub make_move-CanMove :
      (i : HuntInput F) (temp : ℤ) (st : HuntState F)
      → pos 1 ≤ℤ i.step
      → i.min_batch ≤ℤ st.floor
      → i.min_batch ≤ℤ st.batch
      → st.batch ≤ℤ i.planned_batch
      → CanMove D i st (make_move D i temp st)
  unfolding make_move
  make_move-CanMove i temp st hs hf ha hb = elim (Bool-cases (is_cool D i temp st)) [
    | inl e ↦ rw e (cool_move-CanMove D i st hs ha hb)
    | inr e ↦ elim (Bool-cases (is_hot D i temp st)) [
      | inl f ↦ rw (e, f) (hot_move-CanMove D i st hs hf ha hb)
      | inr f ↦ rw (e, f) (hold-IsMove _ _ _ _ _ ha hb (omega arith))
    ]
  ]

  ready_state_marks :
      (i : HuntInput F) (temp : ℤ) (st : HuntState F)
      → pos 1 ≤ℤ i.min_batch
      → i.min_batch ≤ℤ st.batch
      → (i.min_batch ≤ℤ (ready_state D i temp st).floor)
        × (st.floor ≤ℤ (ready_state D i temp st).floor)
        × ((ready_state D i temp st).batch ≡ st.batch)
  unfolding ready_state start_marks
  ready_state_marks i temp st hm ha = (ground arith, ground arith, refl)

  next_reading-Reads :
      (i : HuntInput F) (st : HuntState F)
      → pos 1 ≤ℤ i.step
      → pos 1 ≤ℤ i.min_batch
      → i.min_batch ≤ℤ st.batch
      → st.batch ≤ℤ i.planned_batch
      → Reads i st (next_reading D i st)
  unfolding next_reading result
  next_reading-Reads i st hs hm ha hb =
      let (above, rises, same) = ready_state_marks i (steady_temp D i st) st hm ha in
      let moves =
        make_move-CanMove i (steady_temp D i st) (ready_state D i (steady_temp D i st) st) hs above
          (rw same ha) (rw same hb) in
      (
        refl,
        IsMove-floor i.min_batch i.planned_batch st.batch st.floor _ _ _ _ rises (rw same at moves),
      )

  first_reading-Reads :
      (i : HuntInput F) (st : HuntState F)
      → pos 1 ≤ℤ i.min_batch
      → i.min_batch ≤ℤ st.batch
      → st.batch ≤ℤ i.planned_batch
      → Reads i st (first_reading D i st)
  unfolding first_reading result start_marks
  first_reading-Reads i st hm ha hb =
      (refl, hold-IsMove i.min_batch i.planned_batch st.batch st.floor _ ha hb (ground arith))

  normalise_plan :
      (i : HuntInput F)
      → let n = normalise D i in
        (pos 1 ≤ℤ n.step) × (pos 1 ≤ℤ n.min_batch) × (n.min_batch ≤ℤ n.planned_batch)
  unfolding normalise
  normalise_plan i =
      let (a, b) = usable_min_bounds i.min_batch i.step i.planned_batch in
      (usable_step_positive i.step, a, b)

  -- One reading of the hunt, for all inputs and states: the batch that it reports is the batch of
  -- the new state and lies between the usable minimum and the plan; the action says whether the
  -- batch rose, fell or stayed; the floor never falls; and a cut ends above the floor before it.
  pub hunt_thermal_scale-IsMove :
      (input : HuntInput F) (st : HuntState F)
      → let i = normalise D input in
        let (r, st') = hunt_thermal_scale D input st in
        (r.batch ≡ st'.batch)
        × IsMove i.min_batch i.planned_batch
            (usable_batch st.batch i.planned_batch i.min_batch)
            st.floor
            st'.batch
            st'.floor
            r.action
  unfolding hunt_thermal_scale
  hunt_thermal_scale-IsMove input st =
      let i = normalise D input in
      let (hs, hm, hp) = normalise_plan input in
      let (ha, hb) = usable_batch_bounds st.batch i.planned_batch i.min_batch hp in
      let ready = record st { batch = usable_batch st.batch i.planned_batch i.min_batch } in
      elim (Bool-cases (D.le st.last_adjust_s (D.lit 0 0))) [
        | inl e ↦ rw e (first_reading-Reads i ready hm ha hb)
        | inr e ↦ rw e (next_reading-Reads i ready hs hm ha hb)
      ]
