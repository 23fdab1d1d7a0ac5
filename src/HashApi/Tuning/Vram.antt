-- ===== src/HashApi/Tuning/Vram.antt =====
-- src/mining/vram_batch.cpp beside vendor/hashapi/HashApiTuning.cpp.
use x1miner.Base.{ℕ, ◌+◌, ◌≡◌, refl, ap, ◌∙◌, ◌<◌, ◌^◌, arith, false, if◌then◌else◌}
use x1miner.Base.Int.{ℤ, pos, pos_part, double_to_int, ◌≤ℤ?◌, ◌<ℤ?◌, min_ℤ}
use x1miner.Base.Double.{Double}
use x1miner.HashApi.Tuning.{
  decide, recommended_cuda_batch_size, estimate_cuda_memory_batch_limit, select_cuda_batch_size,
  cuda_batch_memory_reserve_bytes,
}
use x1miner.Mining.Vram.{
  bytes_per_attempt, memory_limited_batch_size, tuned_batch, select_batch_size,
  cuda_engine_reserve_bytes,
}

-- `select_batch_size` behind the memory limit.
choose : ℤ → ℤ → ℤ → ℤ
choose limit explicit tuned =
    if limit ≤ℤ? pos 0
    then pos 0
    else if pos 0 <ℤ? explicit
    then min_ℤ limit explicit
    else if pos 0 <ℤ? tuned
    then min_ℤ limit tuned
    else limit

choose-decide :
    (limit : ℤ) (explicit tuned : ℕ)
    → choose limit (pos explicit) (pos tuned)
      ≡ pos (decide (pos_part limit) explicit tuned).selected_batch_size
unfolding choose decide
choose-decide (pos l) e t = ground arith
choose-decide (ℤ.negsuc l) e t = ground arith

tuned_batch-recommended :
    (D : Double) (d : ℕ) → tuned_batch D (pos d) ≡ pos (recommended_cuda_batch_size d)
unfolding tuned_batch recommended_cuda_batch_size
tuned_batch-recommended D d = ground arith

module _ (D : Double) where
  limits_agree :
      (free d reserve : ℕ)
      → estimate_cuda_memory_batch_limit D free d reserve < 2 ^ 31
      → pos_part (memory_limited_batch_size D free (pos d) reserve)
        ≡ estimate_cuda_memory_batch_limit D free d reserve
  unfolding memory_limited_batch_size estimate_cuda_memory_batch_limit bytes_per_attempt
      double_to_int
  limits_agree free d reserve h = ground (arith, h)

  select_batch_size-choose :
      (budget : ℕ) (d e : ℤ)
      → select_batch_size D budget d e false
        ≡ choose
            (memory_limited_batch_size D
              (budget + cuda_engine_reserve_bytes)
              d
              cuda_engine_reserve_bytes)
            e
            (tuned_batch D d)
  unfolding select_batch_size choose
  select_batch_size-choose budget d e = refl

  -- For a budget whose memory limit is an `int`, the miner's `select_batch_size` without the VRAM cap chooses what the library's
  -- `selectCudaBatchSize` chooses for that budget and the reserve.
  pub select_batch_size-select_cuda_batch_size :
      (budget d e : ℕ)
      → estimate_cuda_memory_batch_limit D
          (budget + cuda_engine_reserve_bytes)
          d
          cuda_engine_reserve_bytes
        < 2 ^ 31
      → select_batch_size D budget (pos d) (pos e) false
        ≡ pos
            (select_cuda_batch_size D
              (budget + cuda_batch_memory_reserve_bytes)
              d
              e).selected_batch_size
  unfolding select_cuda_batch_size
  select_batch_size-select_cuda_batch_size budget d e h =
      let m =
        memory_limited_batch_size D (budget + cuda_engine_reserve_bytes) (pos d)
          cuda_engine_reserve_bytes in
      select_batch_size-choose budget (pos d) (pos e)
      ∙ ap (choose m (pos e)) (tuned_batch-recommended D d)
      ∙ choose-decide m e (recommended_cuda_batch_size d)
      ∙ ap (λ l. pos (decide l e (recommended_cuda_batch_size d)).selected_batch_size)
          (limits_agree (budget + cuda_engine_reserve_bytes) d cuda_engine_reserve_bytes h)
