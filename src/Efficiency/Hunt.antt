-- ===== src/Efficiency/Hunt.antt =====
-- src/efficiency/thermal_policy.cpp: `hunt_thermal_scale`. The locals that the function adjusts
-- before it looks at the state are a normalised input; the lambda `apply` is `apply_move`.
pub mod Moves
pub mod Laws
pub mod Lock
use x1miner.Base.{Bool, true, false, not, ◌&&◌, ◌||◌, if◌then◌else◌}
use x1miner.Base.Int.{ℤ, pos, ◌+ℤ◌, ◌-ℤ◌, ◌*ℤ◌, ◌<ℤ?◌, ◌≤ℤ?◌, ◌==ℤ◌, min_ℤ}
use x1miner.Base.Double.{Double, max_f}

pub data HuntAction : Type 0 where
  hold cut raise : HuntAction

pub data Sensor : Type 0 where
  gpu mem : Sensor

pub record HuntState (F : Type 0) : Type 0 where
  pub batch : ℤ
  pub last_adjust_s : F
  pub last_temp_c : ℤ
  pub consecutive_cool : ℤ
  pub over_floor_streak : ℤ
  pub idle_ms : ℤ
  pub floor : ℤ
  pub last_ok : ℤ

pub record HuntResult (F : Type 0) : Type 0 where
  pub batch : ℤ
  pub scale : F
  pub action : HuntAction
  pub control_c : ℤ
  pub sensor : Sensor
  pub idle_ms : ℤ
  pub lane_delta : ℤ

pub record HuntInput (F : Type 0) : Type 0 where
  pub gpu_c : ℤ
  pub mem_c : ℤ
  pub use_mem : Bool
  pub target_c : ℤ
  pub cap_c : ℤ
  pub gpu_cap_c : ℤ
  pub planned_batch : ℤ
  pub step : ℤ
  pub min_batch : ℤ
  pub now_s : F
  pub cut_settle_s : F
  pub raise_settle_s : F

unfoldable pub usable_step : ℤ → ℤ
usable_step step = if step <ℤ? pos 1 then pos 1000 else step

unfoldable pub usable_planned : ℤ → ℤ
usable_planned planned = if planned <ℤ? pos 1 then pos 1 else planned

-- The two guards of `min_batch`, with the step and the plan made usable.
unfoldable pub usable_min : ℤ → ℤ → ℤ → ℤ
usable_min min_batch step planned =
    let raised = if min_batch <ℤ? step then step else min_batch in
    if planned <ℤ? raised then planned else raised

-- The three guards of `st.batch`.
unfoldable pub usable_batch : ℤ → ℤ → ℤ → ℤ
usable_batch batch planned min_batch =
    let a = if batch ≤ℤ? pos 0 then planned else batch in
    let b = if planned <ℤ? a then planned else a in if b <ℤ? min_batch then min_batch else b

-- `next` inside the plan and above the minimum.
unfoldable pub clip_next : ℤ → ℤ → ℤ → ℤ
clip_next next planned min_batch =
    let a = if planned <ℤ? next then planned else next in if a <ℤ? min_batch then min_batch else a

-- The five guards of `drop`, from `st.last_ok`.
unfoldable pub drop_target : ℤ → ℤ → ℤ → ℤ → ℤ → ℤ
drop_target last_ok floor batch step min_batch =
    let a = if last_ok ≤ℤ? floor then floor +ℤ step else last_ok in
    let b = if batch ≤ℤ? a then batch -ℤ step else a in
    let c = if b ≤ℤ? floor then floor +ℤ step else b in
    let d = if c <ℤ? min_batch then min_batch else c in if batch <ℤ? d then batch else d

-- `want_idle`
unfoldable pub idle_for : ℤ → ℤ → ℤ
idle_for temp target_c =
    if target_c ≤ℤ? temp then min_ℤ (pos 80) (pos 12 *ℤ (temp -ℤ target_c +ℤ pos 1)) else pos 0

module _ (D : Double) where
  open D use {F, lit, of_int, add, sub, div, lt, le}

  unfoldable pub normalise : HuntInput F → HuntInput F
  unfolding max_f usable_step usable_planned usable_min
  normalise i =
      let settle = max_f D (lit 5 0) i.cut_settle_s in
      let step = usable_step i.step in
      let planned = usable_planned i.planned_batch in
      let target = if i.target_c <ℤ? pos 40 then pos 40 else i.target_c in
      record i {
        cut_settle_s = settle;
        raise_settle_s = max_f D (add settle (lit 5 0)) i.raise_settle_s;
        step = step;
        planned_batch = planned;
        min_batch = usable_min i.min_batch step planned;
        target_c = target;
        cap_c = if i.cap_c ≤ℤ? target then target +ℤ pos 3 else i.cap_c;
      }

  unfoldable pub uses_junction : HuntInput F → Bool
  uses_junction i = i.use_mem && (pos 0 <ℤ? i.mem_c)

  -- `r.control_c` and `r.sensor` before the test for a glitch.
  unfoldable pub control : HuntInput F → ℤ × Sensor
  unfolding uses_junction
  control i =
      let c = if uses_junction i then i.mem_c else i.gpu_c in
      let s = if uses_junction i then Sensor.mem else Sensor.gpu in
      if (pos 0 <ℤ? i.gpu_cap_c) && (i.gpu_cap_c ≤ℤ? i.gpu_c) && (c <ℤ? i.gpu_c)
      then (i.gpu_c, Sensor.gpu)
      else (c, s)

  -- `temp`: the last temperature in place of a glitch.
  unfoldable pub steady_temp : HuntInput F → HuntState F → ℤ
  unfolding control
  steady_temp i st =
      let temp = (control i).0 in
      if (i.target_c ≤ℤ? st.last_temp_c) && (pos 0 <ℤ? temp) && (pos 12 ≤ℤ? st.last_temp_c -ℤ temp)
      then st.last_temp_c
      else temp

  unfoldable pub result : HuntInput F → HuntState F → ℤ → HuntAction → ℤ → HuntResult F
  unfolding control
  result i st temp action idle = record {
    batch = st.batch;
    scale = div (of_int st.batch) (of_int i.planned_batch);
    action = action;
    control_c = temp;
    sensor = (control i).1;
    idle_ms = idle;
    lane_delta = pos 0;
  }

  -- The defaults of `st.floor` and `st.last_ok`.
  unfoldable pub start_marks : HuntState F → HuntState F
  start_marks st = record st {
    floor = if st.floor ≤ℤ? pos 0 then st.batch else st.floor;
    last_ok = if st.last_ok ≤ℤ? pos 0 then st.batch else st.last_ok;
  }

  -- The lambda `apply`.
  unfoldable pub apply_move : HuntInput F → ℤ → HuntAction → HuntState F → HuntState F × HuntAction
  unfolding clip_next
  apply_move i next action st =
      let to = clip_next next i.planned_batch i.min_batch in
      if lt (sub i.now_s st.last_adjust_s) i.cut_settle_s
      then (st, HuntAction.hold)
      else if to ==ℤ st.batch
      then (st, HuntAction.hold)
      else (record st { batch = to; last_adjust_s = i.now_s }, action)

  unfoldable pub raise_floor : HuntState F → HuntState F
  raise_floor st = record st { floor = if st.floor <ℤ? st.batch then st.batch else st.floor }

  unfoldable pub cool_move : HuntInput F → HuntState F → HuntState F × HuntAction
  unfolding apply_move
  cool_move i st =
      apply_move i (st.batch +ℤ i.step) HuntAction.raise
        (record st { last_ok = st.batch; consecutive_cool = st.consecutive_cool +ℤ pos 1 })

  unfoldable pub hot_move : HuntInput F → HuntState F → HuntState F × HuntAction
  unfolding apply_move drop_target raise_floor
  hot_move i st0 =
      let st = record st0 { consecutive_cool = pos 0 } in
      let drop = drop_target st.last_ok st.floor st.batch i.step i.min_batch in
      let (moved, action) = apply_move i drop HuntAction.cut st in
      if drop ==ℤ st.batch then (st, HuntAction.hold) else (raise_floor moved, action)

  -- `dT`
  unfoldable pub temp_change : ℤ → HuntState F → ℤ
  temp_change temp st = if pos 0 <ℤ? st.last_temp_c then temp -ℤ st.last_temp_c else pos 0

  unfoldable pub is_cool : HuntInput F → ℤ → HuntState F → Bool
  unfolding temp_change
  is_cool i temp st = (temp ≤ℤ? i.target_c) && (temp_change temp st ≤ℤ? pos 0)

  unfoldable pub is_hot : HuntInput F → ℤ → HuntState F → Bool
  unfolding temp_change
  is_hot i temp st =
      (i.cap_c ≤ℤ? temp)
      || (i.target_c +ℤ pos 2 ≤ℤ? temp)
      || (i.target_c ≤ℤ? temp) && (pos 0 <ℤ? temp_change temp st)

  unfoldable pub make_move : HuntInput F → ℤ → HuntState F → HuntState F × HuntAction
  unfolding is_cool is_hot cool_move hot_move
  make_move i temp st =
      if is_cool i temp st
      then cool_move i st
      else if is_hot i temp st
      then hot_move i st
      else (record st { consecutive_cool = pos 0 }, HuntAction.hold)

  -- The state before the move, from the second reading on.
  unfoldable pub ready_state : HuntInput F → ℤ → HuntState F → HuntState F
  unfolding start_marks idle_for
  ready_state i temp st0 =
      let st = start_marks st0 in
      record st {
        floor = if st.floor <ℤ? i.min_batch then i.min_batch else st.floor;
        idle_ms = idle_for temp i.target_c;
      }

  unfoldable pub next_reading : HuntInput F → HuntState F → HuntResult F × HuntState F
  unfolding ready_state make_move result steady_temp
  next_reading i st =
      let temp = steady_temp i st in
      let (moved, action) = make_move i temp (ready_state i temp st) in
      let done = record moved { last_temp_c = temp } in
      (result i done temp action done.idle_ms, done)

  unfoldable pub first_reading : HuntInput F → HuntState F → HuntResult F × HuntState F
  unfolding start_marks result steady_temp
  first_reading i st0 =
      let temp = steady_temp i st0 in
      let st = start_marks (record st0 { last_adjust_s = i.now_s; last_temp_c = temp }) in
      (result i st temp HuntAction.hold (pos 0), st)

  unfoldable pub hunt_thermal_scale : HuntInput F → HuntState F → HuntResult F × HuntState F
  unfolding normalise usable_batch first_reading next_reading
  hunt_thermal_scale input st0 =
      let i = normalise input in
      let st = record st0 { batch = usable_batch st0.batch i.planned_batch i.min_batch } in
      if le st.last_adjust_s (lit 0 0) then first_reading i st else next_reading i st
