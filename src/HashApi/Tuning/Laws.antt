-- ===== src/HashApi/Tuning/Laws.antt =====
-- vendor/hashapi/HashApiTuning.cpp: the chosen batch against the memory, the limit and a sequence
-- of difficulties.
use x1miner.Base.{
  ℕ, ◌≤◌, ◌≡◌, ◌↔◌, ◌⊎◌, arith, List, [], ◌∷◌, ◌==◌, if◌then◌else◌, All, All-mono, inr, min,
}
use x1miner.Base.Double.{Double}
use x1miner.HashApi.Tuning.{
  recommended_cuda_batch_size, recommend_from, recommended_cuda_batch_size_for_difficulty_sequence,
  decide, estimate_cuda_memory_batch_limit, select_cuda_batch_size, cuda_batch_memory_reserve_bytes,
}

recommend_from-le-start : (n : ℕ) (ds : List ℕ) → (n ≡ 0) ⊎ (recommend_from n ds ≤ n)
unfolding recommend_from
recommend_from-le-start n [] = inr (omega arith)
recommend_from-le-start n (d ∷ ds) = ground (
  arith,
  recommend_from-le-start
      (if n == 0 then recommended_cuda_batch_size d else min n (recommended_cuda_batch_size d)) ds,
)

recommend_from-le :
    (n : ℕ) (ds : List ℕ) → All (λ d. recommend_from n ds ≤ recommended_cuda_batch_size d) ds
unfolding recommend_from
recommend_from-le n [] = tt
recommend_from-le n (d ∷ ds) =
    let n' =
      if n == 0 then recommended_cuda_batch_size d else min n (recommended_cuda_batch_size d) in
    let later : recommend_from n (d ∷ ds) ≤ recommend_from n' ds = ground arith in
    let here : recommend_from n (d ∷ ds) ≤ recommended_cuda_batch_size d =
      ground (arith, recommend_from-le-start n' ds) in
    (
      here,
      All-mono (λ x. recommend_from n' ds ≤ recommended_cuda_batch_size x)
          (λ x. recommend_from n (d ∷ ds) ≤ recommended_cuda_batch_size x) (λ x le. omega arith) ds
          (recommend_from-le n' ds),
    )

-- The size for a sequence of difficulties is at most the size for each of them.
pub sequence_suits_each :
    (ds : List ℕ)
    → All
        (λ d.
          recommended_cuda_batch_size_for_difficulty_sequence ds ≤ recommended_cuda_batch_size d)
        ds
unfolding recommended_cuda_batch_size_for_difficulty_sequence
sequence_suits_each ds = recommend_from-le 0 ds

-- The decision stays within the memory and within an explicit limit, and chooses nothing only when
-- the memory holds nothing.
pub select_cuda_batch_size_bounds :
    (D : Double) (free difficulty explicit : ℕ)
    → let d = select_cuda_batch_size D free difficulty explicit in
      let limit =
        estimate_cuda_memory_batch_limit D free difficulty cuda_batch_memory_reserve_bytes in
      (d.memory_limited_batch_size ≡ limit)
      × (d.selected_batch_size ≤ limit)
      × ((d.selected_batch_size ≡ 0) ↔ (limit ≡ 0))
      × ((explicit ≡ 0) ⊎ (d.selected_batch_size ≤ explicit))
unfolding select_cuda_batch_size decide
select_cuda_batch_size_bounds D free difficulty explicit = ground arith
