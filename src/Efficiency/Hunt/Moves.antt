-- ===== src/Efficiency/Hunt/Moves.antt =====
-- The lambda `apply` of src/efficiency/thermal_policy.cpp, and the cool and the hot branch that
-- call it.
use x1miner.Base.{true, false, ◌≡◌, ◌⊎◌, inl, inr, refl, arith, Bool-cases, if◌then◌else◌}
use x1miner.Base.Int.{ℤ, pos, ◌+ℤ◌, ◌≤ℤ◌, ◌<ℤ◌, ◌<ℤ?◌, ◌==ℤ◌, +ℤ_parts, -ℤ_parts}
use x1miner.Base.Double.{Double}
use x1miner.Efficiency.Hunt.{
  usable_step, usable_planned, usable_min, usable_batch, clip_next, drop_target, HuntInput,
  HuntState, HuntAction, apply_move, hot_move, cool_move, raise_floor,
}

pub usable_min_bounds :
    (m s p : ℤ)
    → let q = usable_planned p in let r = usable_min m (usable_step s) q in (pos 1 ≤ℤ r) × (r ≤ℤ q)
unfolding usable_min usable_step usable_planned
usable_min_bounds m s p = ground arith

pub usable_batch_bounds :
    (b p m : ℤ) → m ≤ℤ p → (m ≤ℤ usable_batch b p m) × (usable_batch b p m ≤ℤ p)
unfolding usable_batch
usable_batch_bounds b p m h = ground arith

drop_target_bounds :
    (ok fl b s m : ℤ)
    → pos 1 ≤ℤ s
    → m ≤ℤ fl
    → m ≤ℤ b
    → let d = drop_target ok fl b s m in (d ≤ℤ b) × (m ≤ℤ d) × (((d ==ℤ b) ≡ true) ⊎ (fl <ℤ d))
unfolding drop_target
drop_target_bounds ok fl b s m hs hf hb = ground (arith, +ℤ_parts fl s, -ℤ_parts b s)

-- The action says which way the batch went, and a cut ends above the floor.
unfoldable pub Told : HuntAction → ℤ → ℤ → ℤ → Type 0
Told HuntAction.hold floor before after = after ≡ before
Told HuntAction.cut floor before after = (after <ℤ before) × (floor <ℤ after)
Told HuntAction.raise floor before after = before <ℤ after

-- What a move from a batch and a floor to others keeps to.
pub record IsMove (min_batch planned batch floor batch' floor' : ℤ) (a : HuntAction) : Type 0 where
  pub above : min_batch ≤ℤ batch'
  pub below : batch' ≤ℤ planned
  pub told : Told a floor batch batch'
  pub rises : floor ≤ℤ floor'

pub hold-IsMove :
    (m p b fl fl' : ℤ) → m ≤ℤ b → b ≤ℤ p → fl ≤ℤ fl' → IsMove m p b fl b fl' HuntAction.hold
unfolding Told
hold-IsMove m p b fl fl' x y z = record { above = x; below = y; told = refl; rises = z }

-- The move that `apply` makes towards `next`, in the two directions.
raise-IsMove :
    (m p b s fl : ℤ)
    → pos 1 ≤ℤ s
    → m ≤ℤ b
    → b ≤ℤ p
    → (clip_next (b +ℤ s) p m ==ℤ b) ≡ false
    → IsMove m p b fl (clip_next (b +ℤ s) p m) fl HuntAction.raise
unfolding clip_next Told
raise-IsMove m p b s fl hs ha hb ne = record {
  above = ground (arith, +ℤ_parts b s);
  below = ground (arith, +ℤ_parts b s);
  told = ground (arith, +ℤ_parts b s);
  rises = omega arith;
}

higher : ℤ → ℤ → ℤ
higher floor batch = if floor <ℤ? batch then batch else floor

higher_le : (floor batch : ℤ) → floor ≤ℤ higher floor batch
unfolding higher
higher_le floor batch = ground arith

cut-IsMove :
    (m p b fl d : ℤ)
    → d ≤ℤ b
    → m ≤ℤ d
    → b ≤ℤ p
    → fl <ℤ d
    → (clip_next d p m ==ℤ b) ≡ false
    → IsMove m p b fl (clip_next d p m) (higher fl (clip_next d p m)) HuntAction.cut
unfolding clip_next Told higher
cut-IsMove m p b fl d hd hm hb hf ne = record {
  above = ground arith;
  below = ground arith;
  told = (ground arith, ground arith);
  rises = ground arith;
}

module _ (D : Double) where
  open D use {F}

  apply_move-cases :
      (i : HuntInput F) (next : ℤ) (a : HuntAction) (st : HuntState F)
      → let to = clip_next next i.planned_batch i.min_batch in
        (apply_move D i next a st ≡ (st, HuntAction.hold))
        ⊎ (((to ==ℤ st.batch) ≡ false)
            × (apply_move D i next a st ≡ (record st { batch = to; last_adjust_s = i.now_s }, a)))
  unfolding apply_move
  apply_move-cases i next a st = ground arith

  -- `st` may move to what `m` holds.
  abbrev pub CanMove : HuntInput F → HuntState F → HuntState F × HuntAction → Type 0
  CanMove i st m = IsMove i.min_batch i.planned_batch st.batch st.floor (m.0).batch (m.0).floor m.1

  pub cool_move-CanMove :
      (i : HuntInput F) (st : HuntState F)
      → pos 1 ≤ℤ i.step
      → i.min_batch ≤ℤ st.batch
      → st.batch ≤ℤ i.planned_batch
      → CanMove i st (cool_move D i st)
  unfolding cool_move
  cool_move-CanMove i st hs ha hb =
      elim (apply_move-cases i (st.batch +ℤ i.step) HuntAction.raise
        (record st { last_ok = st.batch; consecutive_cool = st.consecutive_cool +ℤ pos 1 })) [
          | inl e ↦ rw e (
              hold-IsMove i.min_batch i.planned_batch st.batch st.floor st.floor ha hb
                (omega arith))
          | inr (ne, e) ↦
              rw e (raise-IsMove i.min_batch i.planned_batch st.batch i.step st.floor hs ha hb ne)
        ]

  pub hot_move-CanMove :
      (i : HuntInput F) (st : HuntState F)
      → pos 1 ≤ℤ i.step
      → i.min_batch ≤ℤ st.floor
      → i.min_batch ≤ℤ st.batch
      → st.batch ≤ℤ i.planned_batch
      → CanMove i st (hot_move D i st)
  unfolding hot_move raise_floor higher
  hot_move-CanMove i st hs hf ha hb =
      let drop = drop_target st.last_ok st.floor st.batch i.step i.min_batch in
      let (le, ge, far) =
        drop_target_bounds st.last_ok st.floor st.batch i.step i.min_batch hs hf ha in
      elim (Bool-cases (drop ==ℤ st.batch)) [
        | inl e ↦
            rw e (
              hold-IsMove i.min_batch i.planned_batch st.batch st.floor st.floor ha hb
                (omega arith))
        | inr ne ↦
            elim (apply_move-cases i drop HuntAction.cut (record st { consecutive_cool = pos 0 })) [
              | inl e ↦
                  rw (ne, e)
                    (hold-IsMove i.min_batch i.planned_batch st.batch st.floor
                      (higher st.floor st.batch) ha hb (higher_le st.floor st.batch))
              | inr (to_ne, e) ↦
                  rw (ne, e)
                    (cut-IsMove i.min_batch i.planned_batch st.batch st.floor drop le ge hb
                      (elim far [ inl y ↦ cc | inr lt ↦ lt ]) to_ne)
            ]
      ]
