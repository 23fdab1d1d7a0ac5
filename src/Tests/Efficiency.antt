-- ===== src/Tests/Efficiency.antt =====
-- The thermal hunt and the VRAM caps on small inputs.
use x1miner.Base.{◌∷◌, [], ◌≡◌, refl, true, false, arith}
use x1miner.Base.Int.{ℤ, pos, ◌-ℤ◌, ◌+ℤ◌, ◌*ℤ◌, quot, ◌≤ℤ◌, ◌<ℤ?◌, ◌==ℤ◌}
use x1miner.Efficiency.Vram.{VramSettings, resolve_vram_caps, resolve_vram_caps_ordered}
use x1miner.Efficiency.Hunt.{
  HuntInput, HuntState, HuntAction, normalise, usable_batch, hot_move, drop_target,
  hunt_thermal_scale,
}
use x1miner.Efficiency.Hunt.Moves.{IsMove}
use x1miner.Efficiency.Hunt.Laws.{hunt_thermal_scale-IsMove}
use x1miner.Efficiency.Hunt.Lock.{hot_moves, early_hot_reading_locks}
use x1miner.Tests.Sample.{thousandths}

-- 84 degrees at the memory, a target of 76.
abbrev hot : ℤ → HuntInput ℤ
hot now = record {
  gpu_c = pos 60;
  mem_c = pos 84;
  use_mem = true;
  target_c = pos 76;
  cap_c = pos 80;
  gpu_cap_c = pos 75;
  planned_batch = pos 9000;
  step = pos 50;
  min_batch = pos 2700;
  now_s = now;
  cut_settle_s = pos 5000;
  raise_settle_s = pos 35000;
}

abbrev climbing : HuntState ℤ
climbing = record {
  batch = pos 8200;
  last_adjust_s = pos 100000;
  last_temp_c = pos 75;
  consecutive_cool = pos 0;
  over_floor_streak = pos 0;
  idle_ms = pos 0;
  floor = pos 8100;
  last_ok = pos 8150;
}

-- A hot reading cuts the batch to the last good one.
hot_reading_cuts :
    ((hunt_thermal_scale thousandths (hot (pos 106000)) climbing).0.action ≡ HuntAction.cut)
    × ((hunt_thermal_scale thousandths (hot (pos 106000)) climbing).1.batch ≡ pos 8150)
unfolding hunt_thermal_scale ◌-ℤ◌ ◌+ℤ◌ ◌*ℤ◌ quot
hot_reading_cuts = (refl, refl)

hunt_thermal_scale-IsMove_example :
    let i = normalise thousandths (hot (pos 106000)) in
    let (r, st') = hunt_thermal_scale thousandths (hot (pos 106000)) climbing in
    (r.batch ≡ st'.batch)
    × IsMove i.min_batch i.planned_batch
        (usable_batch climbing.batch i.planned_batch i.min_batch)
        climbing.floor
        st'.batch
        st'.floor
        r.action
hunt_thermal_scale-IsMove_example =
    hunt_thermal_scale-IsMove thousandths (hot (pos 106000)) climbing

early : (pos 102000 -ℤ pos 100000 <ℤ? pos 5000) ≡ true
unfolding ◌-ℤ◌
early = refl

wants_a_cut :
    (drop_target (pos 8150) (pos 8100) (pos 8200) (pos 50) (pos 2700) ==ℤ pos 8200) ≡ false
unfolding drop_target ◌-ℤ◌ ◌+ℤ◌
wants_a_cut = refl

early_hot_reading_locks_example :
    let st' = (hot_move thousandths (hot (pos 102000)) climbing).0 in
    (st'.batch ≡ pos 8200)
    × (pos 8200 ≤ℤ st'.floor)
    × ((hot_moves thousandths (hot (pos 500000) ∷ hot (pos 900000) ∷ []) st').batch ≡ pos 8200)
early_hot_reading_locks_example =
    early_hot_reading_locks thousandths (hot (pos 102000))
      (hot (pos 500000) ∷ hot (pos 900000) ∷ []) climbing
      ((omega arith, omega arith), ((omega arith, omega arith), tt)) early wants_a_cut

abbrev card : VramSettings ℤ
card = record {
  total_mib = pos 16376;
  target_pct = pos 79000;
  desktop_headroom_pct = pos 16000;
  emergency_vram_pct = pos 50000;
  min_headroom_pct = pos 4000;
  runtime_overhead_pct = pos 5000;
  min_headroom_floor_mib = pos 512;
  overhead_floor_mib = pos 256;
  target_mib_override = pos 0;
  headroom_mib_override = pos 0;
  emergency_mib_override = pos 0;
  min_headroom_mib_override = pos 0;
  runtime_overhead_mib_override = pos 0;
}

resolve_vram_caps_ordered_example :
    let c = resolve_vram_caps thousandths card in
    (pos 1 ≤ℤ c.target_mib)
    × (c.target_mib ≤ℤ c.emergency_mib)
    × (c.emergency_mib ≤ℤ c.total_mib)
    × (pos 0 ≤ℤ c.headroom_mib)
    × (c.headroom_mib ≤ℤ c.total_mib)
    × (pos 0 ≤ℤ c.min_headroom_mib)
    × (c.min_headroom_mib ≤ℤ c.total_mib)
    × (pos 0 ≤ℤ c.runtime_overhead_mib)
    × (c.runtime_overhead_mib ≤ℤ c.total_mib)
resolve_vram_caps_ordered_example = resolve_vram_caps_ordered thousandths card
