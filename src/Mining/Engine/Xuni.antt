-- ===== src/Mining/Engine/Xuni.antt =====
-- src/mining/cuda_engine.cpp: `set_queue_counts` and `compute_allow_xuni_base`, which decides for a
-- batch whether it looks for XUNI too. The minute of the local hour is an argument.
use native.Mathlib.Nat.{
  mod-mod_of_dvd, dvd-mul_right, zero-mod, suc-mod, mod-eq_of_lt, mod-lt, mod-le, suc-mul,
}
use x1miner.Base.{
  ℕ, suc, ◌≡◌, ◌≤◌, ◌<◌, ◌+◌, ◌*◌, ◌%◌, refl, ap, sym, ◌∙◌, zero, arith, Bool, true, false, not,
  ◌&&◌, List, [], ◌∷◌, if◌then◌else◌, length, max, ◌==◌, tally, Bool-cases, by_if, ==_iff, inl, inr,
}
use x1miner.Base.Int.{ℤ, pos, pos_part, ◌≤ℤ?◌, max_ℤ}
use x1miner.Queue.Policy.{in_xuni_window, in_xuni_taper_window}
use x1miner.Mining.Engine.{EngineSettings, Engine}

module _ {F : Type 0} where
  unfoldable pub set_queue_counts : ℤ → ℤ → ℤ → Engine F → Engine F
  set_queue_counts xuni xnm xblk e = record e {
    pending_xuni = max_ℤ (pos 0) xuni;
    pending_xnm = max_ℤ (pos 0) xnm;
    pending_xblk = max_ℤ (pos 0) xblk;
  }

  -- The pause with its two thresholds.
  unfoldable pub queue_paused : EngineSettings F → Engine F → Bool
  queue_paused s e =
      let soft = max_ℤ (pos 0) s.xuni_queue_soft_cap in
      let resume = max_ℤ (pos 0) s.xuni_queue_resume in
      if soft ≤ℤ? e.pending_xuni
      then true
      else if e.xuni_queue_paused && (e.pending_xuni ≤ℤ? resume)
      then false
      else e.xuni_queue_paused

  -- `every`, a positive number.
  unfoldable pub xuni_every : EngineSettings F → ℕ → ℕ
  xuni_every s minute =
      let every = max 1 (pos_part s.xuni_every_n_batches) in
      if in_xuni_taper_window minute then max (every * 3) 6 else every

  unfoldable pub compute_allow_xuni_base : EngineSettings F → ℕ → Engine F → Bool × Engine F
  unfolding queue_paused xuni_every
  compute_allow_xuni_base s minute e =
      let paused = queue_paused s e in
      let held = record e { xuni_queue_paused = paused } in
      let counted = record held { batch_seq = e.batch_seq + 1 } in
      if not s.xuni_mining_enabled
      then (false, e)
      else if not (in_xuni_window minute)
      then (false, record e { xuni_queue_paused = false })
      else if paused
      then (false, held)
      else if s.xuni_max_lanes ≤ℤ? pos 0
      then (false, held)
      else ((counted.batch_seq % xuni_every s minute) == 0, counted)

  -- The batches of a session, each with its minute and the queue count of that time.
  unfoldable pub run_batches : EngineSettings F → List (ℕ × ℤ) → Engine F → List Bool × Engine F
  unfolding set_queue_counts compute_allow_xuni_base
  run_batches s [] e = ([], e)
  run_batches s ((minute, xuni) ∷ rest) e =
      let counted = set_queue_counts xuni e.pending_xnm e.pending_xblk e in
      let (allowed, e') = compute_allow_xuni_base s minute counted in
      let (later, last) = run_batches s rest e' in (allowed ∷ later, last)

-- The longer stride of the taper minute is a multiple of the stride.
taper_stride : (n k : ℕ) → 1 ≤ k → n % max (k * 3) 6 ≡ 0 → n % k ≡ 0
taper_stride n zero p e = elim p [ ]
taper_stride n (suc zero) p e = omega arith
taper_stride n (suc (suc k)) p e =
    let long : max (suc (suc k) * 3) 6 ≡ suc (suc k) * 3 = omega arith in
    let e' : n % (suc (suc k) * 3) ≡ 0 = ap (λ (t : ℕ). n % t) (sym long) ∙ e in
    sym (mod-mod_of_dvd (suc (suc k)) n (dvd-mul_right (suc (suc k)) 3))
    ∙ ap (λ (t : ℕ). t % suc (suc k)) e'
    ∙ zero-mod (suc (suc k))

-- One more step of the stride.
stride_step : (n k : ℕ) → 1 ≤ k → ((suc n % k ≡ 0) → k ≤ suc (n % k)) × (suc n % k ≤ suc (n % k))
stride_step n k p =
    let below : n % k < k = mod-lt n p in
    let inner : suc (n % k) < k → suc n % k ≡ suc (n % k) = λ h. suc-mod n k ∙ mod-eq_of_lt h in
    (λ e. ground (arith, inner), omega (arith, suc-mod n k, mod-le (suc (n % k)) k))

-- What a batch that is counted pays.
stride_pays :
    (n k every : ℕ)
    → 1 ≤ k
    → ((n + 1) % every ≡ 0 → (n + 1) % k ≡ 0)
    → (if (n + 1) % every == 0 then k else 0) + (n + 1) % k ≤ suc (n % k)
stride_pays n k every p divides =
    let (full, next) = stride_step n k p in
    let same : n + 1 ≡ suc n = omega arith in
    elim (Bool-cases ((n + 1) % every == 0)) [
      | inl e ↦
          let z = divides ((==_iff ((n + 1) % every) 0).0 e) in
          rw (e, z) (omega (arith, full (ap (λ (t : ℕ). t % k) (sym same) ∙ z)))
      | inr e ↦ rw (e, same) (omega (arith, next))
    ]

module _ {F : Type 0} (s : EngineSettings F) where
  abbrev stride : ℕ
  stride = max 1 (pos_part s.xuni_every_n_batches)

  every_stride : (n minute : ℕ) → n % xuni_every s minute ≡ 0 → n % stride ≡ 0
  unfolding xuni_every
  every_stride n minute e = elim (Bool-cases (in_xuni_taper_window minute)) [
    | inl t ↦ let e' = (rw t at e) in taper_stride n stride (omega arith) e'
    | inr t ↦ let e' = (rw t at e) in e'
  ]

  -- The batches that may look for XUNI, and the place in the stride, pay for each other.
  step_pays :
      (minute : ℕ) (e : Engine F)
      → let (allowed, e') = compute_allow_xuni_base s minute e in
        (if allowed then stride else 0) + e'.batch_seq % stride ≤ suc (e.batch_seq % stride)
  unfolding compute_allow_xuni_base xuni_every
  step_pays minute e =
      let P : Bool × Engine F → Type 0 =
        λ z. (if z.0 then stride else 0) + z.1.batch_seq % stride ≤ suc (e.batch_seq % stride) in
      let free : 0 + e.batch_seq % stride ≤ suc (e.batch_seq % stride) = omega arith in
      by_if P (not s.xuni_mining_enabled) free (
        by_if P (not (in_xuni_window minute)) free (
          by_if P (queue_paused s e) free (
            by_if P (s.xuni_max_lanes ≤ℤ? pos 0) free (
              stride_pays e.batch_seq stride (xuni_every s minute) (omega arith)
                (every_stride (e.batch_seq + 1) minute)))))

  counts_allowed :
      (allowed : Bool) (later : List Bool)
      → tally (λ b. b) (allowed ∷ later) * stride
        ≡ (if allowed then stride else 0) + tally (λ b. b) later * stride
  counts_allowed true later = omega (arith, suc-mul (tally (λ b. b) later) stride)
  counts_allowed false later = omega arith

  -- Over any session, whatever its minutes and queue counts: of n batches at most one in
  -- `xuni_every_n_batches`, rounded up, looks for XUNI, the stride going on from where it stood.
  pub xuni_throttled :
      (session : List (ℕ × ℤ)) (e : Engine F)
      → let k = max 1 (pos_part s.xuni_every_n_batches) in
        tally (λ b. b) (run_batches s session e).0 * k ≤ length session + e.batch_seq % k
  unfolding run_batches
  xuni_throttled [] e = omega arith
  xuni_throttled ((minute, xuni) ∷ rest) e =
      let counted = set_queue_counts xuni e.pending_xnm e.pending_xblk e in
      let (allowed, e') = compute_allow_xuni_base s minute counted in
      let seq : counted.batch_seq ≡ e.batch_seq = unfold set_queue_counts in refl in
      omega (
        arith,
        counts_allowed allowed (run_batches s rest e').0,
        step_pays minute counted,
        ap (λ (t : ℕ). t % stride) seq,
        xuni_throttled rest e',
      )
