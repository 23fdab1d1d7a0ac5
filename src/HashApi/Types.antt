-- ===== src/HashApi/Types.antt =====
-- vendor/hashapi/HashApiTypes.h: the request, the matches, and what the miner reads of a
-- result.
use x1miner.Base.{ℕ, Bool, List}
use x1miner.Base.Int.{ℤ}
use x1miner.Base.Text.{Text}

pub record HashApiRequest : Type 0 where
  pub request_id : Text
  pub algorithm : Text
  pub backend : Text
  pub salt_hex : Text
  pub key : Text
  pub key_prefix : Text
  pub target_pattern : Text
  pub difficulty : ℕ
  pub batch_size : ℕ
  pub device_id : ℤ
  pub allow_xuni : Bool
  pub detailed_timings : Bool
  pub first_block_workers : ℕ
  pub first_block_dynamic_chunk_size : ℕ
  pub first_block_dynamic_chunk_auto : Bool
  pub gpu_first_blocks : Bool
  pub work_patches : ℤ
  pub hash_patch : ℤ
  pub prepare_patch : ℤ
  pub wave_role : ℤ
  pub arena_batch_size : ℕ

pub record HashApiMatch : Type 0 where
  pub key : Text
  pub hash : Text
  pub matched_pattern : Text
  pub attempt_index : ℕ
  pub is_superblock : Bool

pub record HashApiResult (F : Type 0) : Type 0 where
  pub ok : Bool
  pub error : Text
  pub attempts : ℕ
  pub hashrate : F
  pub matches : List HashApiMatch
