-- ===== src/Efficiency/Hunt/Lock.antt =====
-- `hunt_thermal_scale` of src/efficiency/thermal_policy.cpp: a hot reading before the last move has
-- settled.
use x1miner.Base.{true, false, ◌≡◌, ◌∙◌, refl, sym, subst, arith, List, [], ◌∷◌, All}
use x1miner.Base.Int.{ℤ, pos, ◌≤ℤ◌, ◌==ℤ◌, ==ℤ_refl, +ℤ_parts, -ℤ_parts}
use x1miner.Base.Double.{Double}
use x1miner.Efficiency.Hunt.{
  drop_target, HuntInput, HuntState, HuntAction, apply_move, hot_move, raise_floor,
}

module _ (D : Double) where
  open D use {F}

  drop_target-floor :
      (ok fl b s m : ℤ) → pos 1 ≤ℤ s → m ≤ℤ b → b ≤ℤ fl → drop_target ok fl b s m ≡ b
  unfolding drop_target
  drop_target-floor ok fl b s m hs hm hf = ground (arith, +ℤ_parts fl s, -ℤ_parts b s)

  hot_move-floor :
      (j : HuntInput F) (st : HuntState F)
      → pos 1 ≤ℤ j.step
      → j.min_batch ≤ℤ st.batch
      → st.batch ≤ℤ st.floor
      → ((hot_move D j st).0.batch ≡ st.batch) × ((hot_move D j st).0.floor ≡ st.floor)
  unfolding hot_move
  hot_move-floor j st hs hm hf =
      let kept = drop_target-floor st.last_ok st.floor st.batch j.step j.min_batch hs hm hf in
      rw (kept, ==ℤ_refl st.batch) (refl, refl)

  -- The moves of hot readings, one after the other.
  abbrev pub hot_moves : List (HuntInput F) → HuntState F → HuntState F
  hot_moves [] st = st
  hot_moves (j ∷ js) st = hot_moves js (hot_move D j st).0

  -- Readings with a positive step whose smallest batch is no more than this one.
  abbrev pub Allowing : ℤ → List (HuntInput F) → Type 0
  Allowing batch js = All (λ j. (pos 1 ≤ℤ j.step) × (j.min_batch ≤ℤ batch)) js

  hot_moves-floor :
      (js : List (HuntInput F)) (st : HuntState F) (batch : ℤ)
      → st.batch ≡ batch
      → batch ≤ℤ st.floor
      → Allowing batch js
      → (hot_moves js st).batch ≡ batch
  hot_moves-floor [] st batch e h a = e
  hot_moves-floor (j ∷ js) st batch e h ((hs, hm), a) =
      let (same, floor) =
        hot_move-floor j st hs (subst (λ b. j.min_batch ≤ℤ b) (sym e) hm)
          (subst (λ b. b ≤ℤ st.floor) (sym e) h) in
      hot_moves-floor js (hot_move D j st).0 batch (same ∙ e)
        (subst (λ f. batch ≤ℤ f) (sym floor) h) a

  raise_floor_reaches : (st : HuntState F) → st.batch ≤ℤ (raise_floor D st).floor
  unfolding raise_floor
  raise_floor_reaches st = ground arith

  early_hot_move :
      (i : HuntInput F) (st : HuntState F)
      → D.lt (D.sub i.now_s st.last_adjust_s) i.cut_settle_s ≡ true
      → (drop_target st.last_ok st.floor st.batch i.step i.min_batch ==ℤ st.batch) ≡ false
      → hot_move D i st ≡ (raise_floor D (record st { consecutive_cool = pos 0 }), HuntAction.hold)
  unfolding hot_move apply_move
  early_hot_move i st early wants = rw (early, wants) refl

  -- The move of a hot reading that comes before the last move has settled and wants a cut leaves the
  -- batch, but raises the floor to it: the moves of the hot readings that follow, any number of them and
  -- however late, cut that batch no more, where their step is positive and their smallest batch is not
  -- above it.
  pub early_hot_reading_locks :
      (i : HuntInput F) (later : List (HuntInput F)) (st : HuntState F)
      → Allowing st.batch later
      → D.lt (D.sub i.now_s st.last_adjust_s) i.cut_settle_s ≡ true
      → (drop_target st.last_ok st.floor st.batch i.step i.min_batch ==ℤ st.batch) ≡ false
      → let st' = (hot_move D i st).0 in
        (st'.batch ≡ st.batch) × (st.batch ≤ℤ st'.floor) × ((hot_moves later st').batch ≡ st.batch)
  unfolding raise_floor
  early_hot_reading_locks i later st allows early wants =
      let up : HuntState F = record st { consecutive_cool = pos 0 } in
      rw (early_hot_move i st early wants) (
        refl,
        raise_floor_reaches up,
        hot_moves-floor later (raise_floor D up) st.batch refl (raise_floor_reaches up) allows,
      )
