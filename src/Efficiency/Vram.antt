-- ===== src/Efficiency/Vram.antt =====
-- src/efficiency/vram_policy.cpp.
use x1miner.Base.{arith, if◌then◌else◌}
use x1miner.Base.Int.{ℤ, pos, ◌≤ℤ◌, ◌<ℤ?◌, max_ℤ, clamp_ℤ, clamp_ℤ_bounds}
use x1miner.Base.Double.{Double, clamp_f}

pub record VramCaps (F : Type 0) : Type 0 where
  pub total_mib : ℤ
  pub target_mib : ℤ
  pub headroom_mib : ℤ
  pub emergency_mib : ℤ
  pub min_headroom_mib : ℤ
  pub runtime_overhead_mib : ℤ
  pub target_pct : F
  pub headroom_pct : F
  pub emergency_pct : F
  pub min_headroom_pct : F
  pub overhead_pct : F

-- The arguments: percentages, the two floors, and the overrides.
pub record VramSettings (F : Type 0) : Type 0 where
  pub total_mib : ℤ
  pub target_pct : F
  pub desktop_headroom_pct : F
  pub emergency_vram_pct : F
  pub min_headroom_pct : F
  pub runtime_overhead_pct : F
  pub min_headroom_floor_mib : ℤ
  pub overhead_floor_mib : ℤ
  pub target_mib_override : ℤ
  pub headroom_mib_override : ℤ
  pub emergency_mib_override : ℤ
  pub min_headroom_mib_override : ℤ
  pub runtime_overhead_mib_override : ℤ

-- `o > 0 ? o : v`
unfoldable pub override_or : ℤ → ℤ → ℤ
override_or o v = if pos 0 <ℤ? o then o else v

module _ (D : Double) where
  open D use {F, lit, of_int, mul, div, llround}

  unfoldable pub clamp_pct : F → F
  unfolding clamp_f
  clamp_pct v = clamp_f D v (lit 0 0) (lit 100 0)

  -- `llround(total * pct / 100.0)`
  unfoldable pub share : ℤ → F → ℤ
  share total pct = llround (div (mul (of_int total) pct) (lit 100 0))

  unfoldable pub resolve_vram_caps : VramSettings F → VramCaps F
  unfolding clamp_pct share override_or
  resolve_vram_caps s =
      let total = max_ℤ (pos 1) s.total_mib in
      let t_pct = clamp_pct s.target_pct in
      let h_pct = clamp_pct s.desktop_headroom_pct in
      let e_pct = clamp_pct s.emergency_vram_pct in
      let m_pct = clamp_pct s.min_headroom_pct in
      let o_pct = clamp_pct s.runtime_overhead_pct in
      let target = override_or s.target_mib_override (share total t_pct) in
      let headroom = override_or s.headroom_mib_override (share total h_pct) in
      let emergency = override_or s.emergency_mib_override (share total e_pct) in
      let min_head =
        override_or s.min_headroom_mib_override
          (max_ℤ s.min_headroom_floor_mib (share total m_pct)) in
      let overhead =
        override_or s.runtime_overhead_mib_override
          (max_ℤ s.overhead_floor_mib (share total o_pct)) in
      let target_mib = clamp_ℤ target (pos 1) total in
      record {
        total_mib = total;
        target_mib = target_mib;
        headroom_mib = clamp_ℤ headroom (pos 0) total;
        emergency_mib = clamp_ℤ emergency target_mib total;
        min_headroom_mib = clamp_ℤ min_head (pos 0) total;
        runtime_overhead_mib = clamp_ℤ overhead (pos 0) total;
        target_pct = t_pct;
        headroom_pct = h_pct;
        emergency_pct = e_pct;
        min_headroom_pct = m_pct;
        overhead_pct = o_pct;
      }

  -- Whatever the settings and the rounding, each cap lies within the memory of the card, and the
  -- card is never told to stop before the target that it may fill.
  pub resolve_vram_caps_ordered :
      (s : VramSettings F)
      → let c = resolve_vram_caps s in
        (pos 1 ≤ℤ c.target_mib)
        × (c.target_mib ≤ℤ c.emergency_mib)
        × (c.emergency_mib ≤ℤ c.total_mib)
        × (pos 0 ≤ℤ c.headroom_mib)
        × (c.headroom_mib ≤ℤ c.total_mib)
        × (pos 0 ≤ℤ c.min_headroom_mib)
        × (c.min_headroom_mib ≤ℤ c.total_mib)
        × (pos 0 ≤ℤ c.runtime_overhead_mib)
        × (c.runtime_overhead_mib ≤ℤ c.total_mib)
  unfolding resolve_vram_caps
  resolve_vram_caps_ordered s =
      let total = max_ℤ (pos 1) s.total_mib in
      let positive : pos 1 ≤ℤ total = ground arith in
      let start : pos 0 ≤ℤ total = ground arith in
      let inside : (v : ℤ)
          → (pos 0 ≤ℤ clamp_ℤ v (pos 0) total) × (clamp_ℤ v (pos 0) total ≤ℤ total) =
        λ v. clamp_ℤ_bounds v (pos 0) total start in
      let target = override_or s.target_mib_override (share total (clamp_pct s.target_pct)) in
      let emergency =
        override_or s.emergency_mib_override (share total (clamp_pct s.emergency_vram_pct)) in
      let headroom =
        override_or s.headroom_mib_override (share total (clamp_pct s.desktop_headroom_pct)) in
      let min_head =
        override_or s.min_headroom_mib_override
          (max_ℤ s.min_headroom_floor_mib (share total (clamp_pct s.min_headroom_pct))) in
      let overhead =
        override_or s.runtime_overhead_mib_override
          (max_ℤ s.overhead_floor_mib (share total (clamp_pct s.runtime_overhead_pct))) in
      let on_target = clamp_ℤ_bounds target (pos 1) total positive in
      let on_emergency =
        clamp_ℤ_bounds emergency (clamp_ℤ target (pos 1) total) total on_target.1 in
      (
        on_target.0,
        on_emergency.0,
        on_emergency.1,
        (inside headroom).0,
        (inside headroom).1,
        (inside min_head).0,
        (inside min_head).1,
        (inside overhead).0,
        (inside overhead).1,
      )
