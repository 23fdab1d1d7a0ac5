-- ===== src/Mining/Lane.antt =====
-- src/mining/cuda_engine.cpp: a lane's mailbox, its worker thread, and the batch loop's side of the
-- mailbox. The counters are unbounded. A worker runs one wave at a time: it reads the mailbox at
-- `starts` and writes its result at `finishes`. What a wave answers is free.
pub mod Laws
use x1miner.Base.{
  ℕ, suc, ◌+◌, ◌-◌, ◌*◌, ◌%◌, ◌/◌, ◌≡◌, ◌≢◌, Bool, true, false, not, ◌&&◌, ◌||◌, List, [], ◌∷◌,
  ◌++◌, ltb, leb, ◌==◌, if◌then◌else◌,
}
use x1miner.Base.Int.{ℤ, pos, ◌<ℤ?◌, ◌==ℤ◌}
use x1miner.Base.Text.{Text, codes, is_empty, text_eq}
use x1miner.HashApi.Types.{HashApiRequest, HashApiResult}

-- What the batch loop asks of a lane.
pub record Proto : Type 0 where
  pub role : ℤ
  pub salt : Text
  pub difficulty : ℕ
  pub batch_size : ℕ
  pub arena_batch_size : ℕ
  pub xuni_lanes : ℤ
  pub allow_xuni_base : Bool
  pub device_id : ℤ
  pub work_patches : ℤ

-- An entry of `ring` with that of `ring_err`.
pub record Slot (F : Type 0) : Type 0 where
  pub error : Text
  pub result : HashApiResult F

pub record Mailbox (F : Type 0) : Type 0 where
  pub seq : ℕ
  pub done_seq : ℕ
  pub produced : ℕ
  pub consumed : ℕ
  pub proto : Proto
  pub ring : ℕ → Slot F

-- `kRing`
abbrev pub ring_size : ℕ
ring_size = 4

-- A lane's number in four hexadecimal digits, for lanes below 65,536.
unfoldable hex_char : ℕ → ℕ
hex_char d = if ltb d 10 then b'0' + d else b'a' + (d - 10)

unfoldable pub lane_prefix : ℕ → Text
unfolding hex_char
lane_prefix lane =
    hex_char (lane / 4096 % 16)
    ∷ hex_char (lane / 256 % 16)
    ∷ hex_char (lane / 16 % 16)
    ∷ hex_char (lane % 16)
    ∷ []

-- The request of a worker that has read its mailbox.
unfoldable pub lane_request : ℕ → Proto → HashApiRequest
unfolding lane_prefix
lane_request lane p = record {
  request_id = [];
  algorithm = codes "argon2id-xen";
  backend = codes "cuda";
  salt_hex = p.salt;
  key = [];
  key_prefix = lane_prefix lane;
  target_pattern = codes "XEN11";
  difficulty = p.difficulty;
  batch_size = p.batch_size;
  device_id = p.device_id;
  allow_xuni = p.allow_xuni_base && (pos lane <ℤ? p.xuni_lanes);
  detailed_timings = false;
  first_block_workers = 0;
  first_block_dynamic_chunk_size = 0;
  first_block_dynamic_chunk_auto = false;
  gpu_first_blocks = true;
  work_patches = pos 0;
  hash_patch = pos 0;
  prepare_patch = pos 1;
  wave_role = pos 0;
  arena_batch_size = p.arena_batch_size;
}

-- A request that the worker passes over.
unfoldable pub is_void : HashApiRequest → Bool
is_void r = (r.batch_size == 0) || (r.difficulty == 0) || is_empty r.salt_hex

module _ {F : Type 0} where
  -- The reset of `ensure_lane_workers`; the ring keeps its entries.
  unfoldable pub reset_box : Mailbox F → Mailbox F
  reset_box box = record box {
    seq = 0;
    done_seq = 0;
    produced = 0;
    consumed = 0;
    proto = record box.proto { batch_size = 0; difficulty = 0; salt = [] };
  }

  -- `changed` in `mine_batch`.
  unfoldable pub is_changed : Proto → Mailbox F → Bool
  is_changed p box =
      not (text_eq box.proto.salt p.salt)
      || not (box.proto.difficulty == p.difficulty)
      || not (box.proto.batch_size == p.batch_size)
      || not (box.proto.xuni_lanes ==ℤ p.xuni_lanes)
      || not (if box.proto.allow_xuni_base then p.allow_xuni_base else not p.allow_xuni_base)
      || (box.seq == 0)

  unfoldable pub publish : Proto → Mailbox F → Mailbox F
  unfolding is_changed
  publish p box = if is_changed p box then record box { proto = p; seq = suc box.seq } else box

  -- There is a result to take.
  unfoldable pub has_result : Mailbox F → Bool
  has_result box = ltb box.consumed box.produced

  unfoldable pub next_slot : Mailbox F → Slot F
  next_slot box = box.ring (box.consumed % ring_size)

  -- The batch loop throws on any other.
  unfoldable pub is_good : Slot F → Bool
  is_good slot = is_empty slot.error && slot.result.ok

  unfoldable pub take_result : Mailbox F → Mailbox F
  take_result box = record box { consumed = suc box.consumed }

  -- The wait of the worker ends with a free slot.
  unfoldable pub may_produce : Mailbox F → Bool
  may_produce box = ltb (box.produced - box.consumed) ring_size

  unfoldable pub put_result : ℕ → Slot F → Mailbox F → Mailbox F
  put_result seen slot box = record box {
    ring = λ i. if i == box.produced % ring_size then slot else box.ring i;
    produced = suc box.produced;
    done_seq = seen;
  }

-- Where `lane_worker_loop` stands.
pub data Worker : Type 0 where
  waiting : (seen : ℕ) → Worker
  looping : (seen : ℕ) (request : HashApiRequest) → Worker
  computing : (seen : ℕ) (request : HashApiRequest) → Worker
  stopped : Worker

-- A lane, with the results that were made and those that were taken, in order.
pub record Lane (F : Type 0) : Type 0 where
  pub box : Mailbox F
  pub worker : Worker
  pub made : List (Slot F)
  pub taken : List (Slot F)

-- The steps of lane `index` of an engine with `backends` lanes, by the worker thread and by the
-- batch loop.
module _ {F : Type 0} (index backends : ℕ) where
  pub data LaneStep : Lane F → Lane F → Type 0 where
    -- The wait ends, and the mailbox is read.
    wakes :
        (x : Lane F) (seen : ℕ)
        → x.worker ≡ waiting seen
        → x.box.seq ≢ seen
        → is_void (lane_request index x.box.proto) ≡ false
        → ltb index backends ≡ true
        → LaneStep x (record x { worker = looping x.box.seq (lane_request index x.box.proto) })
    passes_over :
        (x : Lane F) (seen : ℕ)
        → x.worker ≡ waiting seen
        → x.box.seq ≢ seen
        → is_void (lane_request index x.box.proto) ≡ true
        → LaneStep x (record x { worker = waiting x.box.seq })
    has_no_backend :
        (x : Lane F) (seen : ℕ)
        → x.worker ≡ waiting seen
        → x.box.seq ≢ seen
        → is_void (lane_request index x.box.proto) ≡ false
        → ltb index backends ≡ false
        → LaneStep x
            (record x { worker = waiting x.box.seq; box = record x.box { done_seq = x.box.seq } })
    -- There is a free slot, and nothing new was asked.
    starts :
        (x : Lane F) (seen : ℕ) (r : HashApiRequest)
        → x.worker ≡ looping seen r
        → x.box.seq ≡ seen
        → may_produce x.box ≡ true
        → LaneStep x (record x { worker = computing seen r })
    leaves :
        (x : Lane F) (seen : ℕ) (r : HashApiRequest)
        → x.worker ≡ looping seen r
        → x.box.seq ≢ seen
        → LaneStep x (record x { worker = waiting seen })
    finishes :
        (x : Lane F) (seen : ℕ) (r : HashApiRequest) (slot : Slot F)
        → x.worker ≡ computing seen r
        → LaneStep x (record x {
          box = put_result seen slot x.box;
          worker = looping seen r;
          made = x.made ++ slot ∷ [];
        })
    -- `workers_stop_`, read where the worker waits or loops.
    stops :
        (x : Lane F) (seen : ℕ)
        → x.worker ≡ waiting seen
        → LaneStep x (record x { worker = stopped })
    stops_looping :
        (x : Lane F) (seen : ℕ) (r : HashApiRequest)
        → x.worker ≡ looping seen r
        → LaneStep x (record x { worker = stopped })
    -- The batch loop.
    publishes : (x : Lane F) (p : Proto) → LaneStep x (record x { box = publish p x.box })
    takes :
        (x : Lane F)
        → has_result x.box ≡ true
        → is_good (next_slot x.box) ≡ true
        → LaneStep x (record x { box = take_result x.box; taken = x.taken ++ next_slot x.box ∷ [] })

  -- A run of steps from the state on the left.
  pub data LaneRun (x : Lane F) : Lane F → Type 0 where
    here : LaneRun x x
    then_step : (y z : Lane F) → LaneRun x y → LaneStep y z → LaneRun x z
