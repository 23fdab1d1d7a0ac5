-- ===== src/HashApi/Tuning.antt =====
-- vendor/hashapi/HashApiTuning.cpp.
pub mod Laws
pub mod Vram
use x1miner.Base.{
  ℕ, ◌+◌, ◌-◌, ◌*◌, Bool, true, false, ◌||◌, List, [], ◌∷◌, ltb, leb, ◌==◌, if◌then◌else◌, min,
}
use x1miner.Base.Int.{ℤ, pos, pos_part}
use x1miner.Base.Double.{Double}

-- 100 MiB.
abbrev pub cuda_batch_memory_reserve_bytes : ℕ
cuda_batch_memory_reserve_bytes = 104857600

pub record CudaBatchSizeDecision : Type 0 where
  pub memory_limited_batch_size : ℕ
  pub tuned_batch_size : ℕ
  pub selected_batch_size : ℕ
  pub explicit_limit_applied : Bool
  pub tuned_default_applied : Bool

abbrev pub no_decision : CudaBatchSizeDecision
no_decision = record {
  memory_limited_batch_size = 0;
  tuned_batch_size = 0;
  selected_batch_size = 0;
  explicit_limit_applied = false;
  tuned_default_applied = false;
}

unfoldable pub recommended_cuda_batch_size : ℕ → ℕ
recommended_cuda_batch_size difficulty =
    if leb difficulty 1
    then 2048
    else if leb difficulty 8
    then 4096
    else if leb difficulty 64
    then 3072
    else 0

-- The loop, with `selected`.
unfoldable pub recommend_from : ℕ → List ℕ → ℕ
recommend_from selected [] = selected
recommend_from selected (difficulty ∷ difficulties) =
    let recommended = recommended_cuda_batch_size difficulty in
    let rest =
      recommend_from (if selected == 0 then recommended else min selected recommended)
        difficulties in
    if recommended == 0 then 0 else rest

unfoldable pub recommended_cuda_batch_size_for_difficulty_sequence : List ℕ → ℕ
unfolding recommend_from
recommended_cuda_batch_size_for_difficulty_sequence = recommend_from 0

-- The choice behind the memory limit, which both of the functions below make.
unfoldable pub decide : ℕ → ℕ → ℕ → CudaBatchSizeDecision
decide limit explicit_max tuned =
    if limit == 0
    then no_decision
    else if ltb 0 explicit_max
    then record no_decision {
      memory_limited_batch_size = limit;
      selected_batch_size = min limit explicit_max;
      explicit_limit_applied = true;
    }
    else if ltb 0 tuned
    then record no_decision {
      memory_limited_batch_size = limit;
      tuned_batch_size = tuned;
      selected_batch_size = min limit tuned;
      tuned_default_applied = true;
    }
    else record no_decision { memory_limited_batch_size = limit; selected_batch_size = limit }

-- `*std::max_element` of a list that is not empty.
unfoldable pub max_element : ℕ → List ℕ → ℕ
max_element m [] = m
max_element m (d ∷ ds) = max_element (if ltb m d then d else m) ds

module _ (D : Double) where
  open D use {lit, of_int, mul, div, le, trunc}

  unfoldable pub estimate_cuda_memory_batch_limit : ℕ → ℕ → ℕ → ℕ
  estimate_cuda_memory_batch_limit free_memory_bytes difficulty reserve_bytes =
      let available_bytes = of_int (pos (free_memory_bytes - reserve_bytes)) in
      let bytes_per_attempt = mul (mul (of_int (pos difficulty)) (lit 1024 0)) (lit 1001 3) in
      if (difficulty == 0) || leb free_memory_bytes reserve_bytes
      then 0
      else if le bytes_per_attempt (lit 0 0)
      then 0
      else pos_part (trunc (div available_bytes bytes_per_attempt))

  unfoldable pub select_cuda_batch_size : ℕ → ℕ → ℕ → CudaBatchSizeDecision
  select_cuda_batch_size free_memory_bytes difficulty explicit_max_batch_size =
      decide
        (estimate_cuda_memory_batch_limit free_memory_bytes difficulty
          cuda_batch_memory_reserve_bytes)
        explicit_max_batch_size (recommended_cuda_batch_size difficulty)

  unfoldable pub select_cuda_batch_size_for_difficulty_sequence :
      ℕ → List ℕ → ℕ → CudaBatchSizeDecision
  select_cuda_batch_size_for_difficulty_sequence free_memory_bytes [] explicit_max_batch_size =
      no_decision
  select_cuda_batch_size_for_difficulty_sequence free_memory_bytes (d ∷ ds)
        explicit_max_batch_size =
      decide
        (estimate_cuda_memory_batch_limit free_memory_bytes (max_element d ds)
          cuda_batch_memory_reserve_bytes)
        explicit_max_batch_size (recommended_cuda_batch_size_for_difficulty_sequence (d ∷ ds))
