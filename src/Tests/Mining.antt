-- ===== src/Tests/Mining.antt =====
-- The kinds of blocks, the encoding of a hit and the VRAM plan on small inputs.
use x1miner.Base.{ℕ, ◌≡◌, ◌⊎◌, refl, true, false, arith, some}
use x1miner.Base.Int.{pos, ◌≤ℤ◌, max_ℤ}
use x1miner.Base.Text.{Text, codes, starts_with}
use x1miner.Common.{BlockHit}
use x1miner.HashApi.Encoding.{base64_encode}
use x1miner.Mining.BlockTypes.{classify_block, hash_digest_for_superblock}
use x1miner.Mining.BlockTypes.Laws.{classify_block_idempotent}
use x1miner.Mining.Encode.{
  encode_argon2id_phc, is_argon2_encoded, memory_cost_from_hash, prepare_hit_for_submit, to_string,
  hex_to_bytes,
}
use x1miner.Mining.Encode.Laws.{encode_argon2id_phc_reads}
use x1miner.Mining.Encode.Prepare.{tidy, prepare_hit_for_submit_twice, prepare_pure, assembled}
use x1miner.Mining.Vram.{PlanRequest, plan_cuda_batch, first_plan, within_limits}
use x1miner.Mining.Vram.Laws.{NoneFits, plan_cuda_batch_fits}
use x1miner.Tests.Sample.{thousandths, hit_of}

abbrev pure_hash : Text
pure_hash = codes "abcXEN11defG"

abbrev salt : Text
salt = codes "24691e54afafe2416a8252097c9ca67557271475"

classify_block_idempotent_example :
    classify_block pure_hash (classify_block pure_hash (codes "xen11"))
    ≡ classify_block pure_hash (codes "xen11")
classify_block_idempotent_example = classify_block_idempotent pure_hash (codes "xen11")

encoded_text :
    encode_argon2id_phc (codes "4d616e") 1100 1 1 (codes "abc")
    ≡ codes "$argon2id$v=19$m=1100,t=1,p=1$TWFu$abc"
unfolding encode_argon2id_phc to_string base64_encode hex_to_bytes
encoded_text = refl

encode_argon2id_phc_reads_example :
    let encoded = encode_argon2id_phc salt 1100 1 1 pure_hash in
    (is_argon2_encoded encoded ≡ true)
    × (memory_cost_from_hash encoded ≡ some (pos 1100))
    × (hash_digest_for_superblock encoded ≡ pure_hash)
encode_argon2id_phc_reads_example =
    encode_argon2id_phc_reads salt 1100 1 1 pure_hash (omega arith) refl

abbrev found : BlockHit ℕ
found = hit_of pure_hash (codes "XEN11") (pos 1100)

not_encoded : is_argon2_encoded found.hash_str ≡ false
unfolding is_argon2_encoded starts_with
not_encoded = refl

prepare_hit_for_submit_twice_example :
    let out = assembled found salt (pos 1100) (pos 1) (pos 1) in
    ((is_argon2_encoded found.hash_str ≡ true) × (out ≡ tidy found)
      ⊎ (is_argon2_encoded found.hash_str ≡ false)
        × (out ≡ assembled found salt (pos 1100) (pos 1) (pos 1)))
    × (is_argon2_encoded out.hash_str ≡ true)
    × (prepare_hit_for_submit out salt (pos 1100) (pos 1) (pos 1) ≡ some out)
prepare_hit_for_submit_twice_example =
    prepare_hit_for_submit_twice found (assembled found salt (pos 1100) (pos 1) (pos 1)) salt 1100
      (pos 1) (pos 1) (omega arith) (prepare_pure found salt (pos 1100) (pos 1) (pos 1) not_encoded)

-- 16 GiB with 1 GiB in use.
abbrev ask : PlanRequest thousandths
ask = record {
  total_bytes = 17179869184;
  free_bytes = 16106127360;
  target_mib = pos 12900;
  desktop_headroom_mib = pos 2600;
  difficulty = pos 1100;
  reference_difficulty = pos 1100;
  max_lanes = pos 4;
  lane_reserve = pos 1;
  explicit_batch = pos 0;
  explicit_max_batch = pos 0;
  runtime_overhead_mib = pos 800;
}

plan_cuda_batch_fits_example :
    let p = plan_cuda_batch thousandths ask in
    ((within_limits p ≡ true)
      ⊎ ((p ≡ first_plan thousandths ask) × NoneFits thousandths (first_plan thousandths ask)))
    × (pos 1 ≤ℤ p.lanes)
    × (p.lanes ≤ℤ max_ℤ (pos 1) (max_ℤ (pos 1) (pos 4)))
    × (p.batch_size ≡ p.batch_per_lane)
plan_cuda_batch_fits_example = plan_cuda_batch_fits thousandths ask
