-- ===== src/Tests/HashApi.antt =====
-- The encoding, the matching, the validation, the batch sizes and the keys on small inputs.
use x1miner.Base.{
  ℕ, ◌+◌, ◌≡◌, refl, true, false, arith, [], ◌∷◌, length, all, All, tally, ltb, if◌then◌else◌,
  replicate, ◌<◌, ◌^◌,
}
use x1miner.Base.Int.{pos, quot, ◌*ℤ◌}
use x1miner.Base.Text.{Text, codes, contains, is_xdigit}
use x1miner.Mining.BlockTypes.{xuni_re}
use x1miner.Mining.Vram.{select_batch_size}
use x1miner.HashApi.Types.{HashApiRequest}
use x1miner.HashApi.Encoding.{base64_encode}
use x1miner.HashApi.Encoding.Laws.{decode, decode-base64_encode}
use x1miner.HashApi.Matching.{contains_xen11, has_xuni_match, append_matches}
use x1miner.HashApi.Matching.Laws.{fast_searches, Keeps, append_matches-Keeps}
use x1miner.HashApi.Validation.{is_valid_request}
use x1miner.HashApi.Validation.Laws.{good_request, is_valid_request-good}
use x1miner.Mining.Vram.{cuda_engine_reserve_bytes}
use x1miner.HashApi.Tuning.{
  estimate_cuda_memory_batch_limit, select_cuda_batch_size, cuda_batch_memory_reserve_bytes,
}
use x1miner.HashApi.Tuning.Vram.{select_batch_size-select_cuda_batch_size}
use x1miner.HashApi.Keygen.{fill, work_all}
use x1miner.HashApi.Keygen.Jobs.{writes, fill_covers}
use x1miner.Tests.Sample.{thousandths}

encoded_man : base64_encode (77 ∷ 97 ∷ 110 ∷ 77 ∷ []) ≡ codes "TWFuTQ"
unfolding base64_encode
encoded_man = refl

decode-base64_encode_example :
    decode (base64_encode (77 ∷ 97 ∷ 110 ∷ 255 ∷ [])) ≡ (77 ∷ 97 ∷ 110 ∷ 255 ∷ [])
decode-base64_encode_example =
    decode-base64_encode (77 ∷ 97 ∷ 110 ∷ 255 ∷ [])
      (omega arith, (omega arith, (omega arith, (omega arith, tt))))

abbrev digest : Text
digest = codes "qXUNI7XEN11z"

fast_searches_example :
    (contains_xen11 digest ≡ contains (codes "XEN11") digest)
    × (has_xuni_match digest ≡ xuni_re digest)
fast_searches_example = fast_searches digest

abbrev request : HashApiRequest
request = record {
  request_id = codes "r";
  algorithm = codes "argon2id-xen";
  backend = codes "cuda";
  salt_hex = codes "0x24691E54aFafe2416a82";
  key = [];
  key_prefix = codes "24691e";
  target_pattern = codes "XEN11";
  difficulty = 1100;
  batch_size = 9000;
  device_id = pos 0;
  allow_xuni = true;
  detailed_timings = false;
  first_block_workers = 0;
  first_block_dynamic_chunk_size = 0;
  first_block_dynamic_chunk_auto = false;
  gpu_first_blocks = true;
  work_patches = pos 2;
  hash_patch = pos 0;
  prepare_patch = pos 1;
  wave_role = pos 0;
  arena_batch_size = 0;
}

append_matches-Keeps_example : All Keeps (append_matches request [] (replicate 64 b'a') digest 5)
append_matches-Keeps_example = append_matches-Keeps request [] (replicate 64 b'a') digest 5 refl tt

is_valid_request-good_example : is_valid_request request ≡ good_request request
is_valid_request-good_example = is_valid_request-good request

abbrev batch_limit : ℕ
batch_limit = 500

int_limit :
    estimate_cuda_memory_batch_limit thousandths
      (900000000 + cuda_engine_reserve_bytes)
      8
      cuda_engine_reserve_bytes
    < 2 ^ 31
unfolding estimate_cuda_memory_batch_limit ◌*ℤ◌ quot
int_limit = omega arith

select_batch_size-select_cuda_batch_size_example :
    select_batch_size thousandths 900000000 (pos 8) (pos 0) false
    ≡ pos
        (select_cuda_batch_size thousandths
          (900000000 + cuda_batch_memory_reserve_bytes)
          8
          0).selected_batch_size
select_batch_size-select_cuda_batch_size_example =
    select_batch_size-select_cuda_batch_size thousandths 900000000 8 0 int_limit

fill_covers_example :
    let p = fill 4 10 in
    ((k : ℕ) → tally (writes k) p.jobs ≡ (if ltb k 10 then 1 else 0))
    × (p.remaining ≡ length p.jobs)
    × (work_all p.jobs p ≡ record { jobs = []; remaining = 0 })
fill_covers_example = fill_covers 4 10

prefix_hex : all is_xdigit (codes "24691E") ≡ true
unfolding is_xdigit
prefix_hex = refl
