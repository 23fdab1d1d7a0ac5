-- ===== src/Common.antt =====
-- src/common.hpp: the records that the components exchange. A `double` is a value of a type `F`
-- that the development leaves open; `int` and `int64_t` are integers.
pub mod Stats
pub mod Json
use x1miner.Base.{ℕ, Bool, Option}
use x1miner.Base.Int.{ℤ}
use x1miner.Base.Text.{Text}

pub record BlockHit (F : Type 0) : Type 0 where
  pub key : Text
  pub hash_str : Text
  pub block_type : Text
  pub attempts : ℤ
  pub strategy : Text
  pub hps : F
  pub found_at : Text
  pub memory_cost : Option ℤ

pub record NetworkStatus (F : Type 0) : Type 0 where
  pub ok : Bool
  pub difficulty : Option ℤ
  pub latency_ms : F
  pub error : Text
  pub seq : ℕ

pub record SubmitResult : Type 0 where
  pub ok : Bool
  pub status : ℤ
  pub body : Text
  pub submitted_at : Text

-- `http_get` and `http_post_json` answer with this (util/http.hpp).
pub record HttpResponse : Type 0 where
  pub status : ℤ
  pub body : Text
  pub error : Text
