-- ===== src/Mining/Wave.antt =====
-- src/mining/cuda_engine.cpp: `hit_from_match`, `mine_batch` and `drain_pipeline`. A call that throws
-- gives the text of its exception. What the worker threads do while the batch loop waits for results
-- is an argument, as is what a hash backend answers. One call reads the clock once. There are as many
-- mailboxes as the list has, `kMaxLaneMailboxes`, and the lanes are no more than that.
pub mod Hits
pub mod Laws
pub mod Batch
use x1miner.Base.{
  ℕ, zero, suc, ◌+◌, ◌%◌, ◌⊎◌, inl, inr, Bool, true, false, not, ◌&&◌, ◌||◌, Option, none, some,
  List, [], ◌∷◌, ◌++◌, map, ltb, if◌then◌else◌,
}
use x1miner.Base.Int.{ℤ, pos, pos_part, to_uint32, ◌+ℤ◌, ◌-ℤ◌, ◌<ℤ?◌, ◌≤ℤ?◌, ◌==ℤ◌, max_ℤ, min_ℤ}
use x1miner.Base.Double.{Double}
use x1miner.Base.Text.{Text, codes, is_empty, text_eq}
use x1miner.Base.Sort.{sort_by}
use x1miner.Common.{BlockHit}
use x1miner.HashApi.Types.{HashApiRequest, HashApiMatch, HashApiResult}
use x1miner.Mining.BlockTypes.{classify_block}
use x1miner.Mining.Encode.{is_hex64_key}
use x1miner.Queue.Policy.{in_xuni_taper_window}
use x1miner.Mining.Engine.{EngineSettings, Engine, salt_hex, ensure_lane_workers}
use x1miner.Mining.Engine.Xuni.{compute_allow_xuni_base}
use x1miner.Mining.Lane.{
  Proto, Slot, Mailbox, lane_prefix, lane_request, reset_box, publish, next_slot, take_result,
}

pub record MineBatchResult (F : Type 0) : Type 0 where
  pub hashes_done : ℤ
  pub hits : List (BlockHit F)
  pub hit : Option (BlockHit F)
  pub aborted : Bool
  pub abort_reason : Text

-- `std::string::operator<`
unfoldable pub text_before : Text → Text → Bool
text_before [] [] = false
text_before [] (b ∷ t) = true
text_before (a ∷ s) [] = false
text_before (a ∷ s) (b ∷ t) =
    let rest = text_before s t in if ltb a b then true else if ltb b a then false else rest

-- Applied to the first `n` of a list.
unfoldable pub on_first {ℓ} : {A : Type ℓ} → ℕ → (A → A) → List A → List A
on_first zero f l = l
on_first (suc n) f [] = []
on_first (suc n) f (a ∷ l) = f a ∷ on_first n f l

module _ {F : Type 0} where
  abbrev pub empty_result : MineBatchResult F
  empty_result = record {
    hashes_done = pos 0;
    hits = [];
    hit = none;
    aborted = false;
    abort_reason = [];
  }

  unfoldable pub hit_from_match :
      EngineSettings F → ℤ → Text → HashApiMatch → ℤ → F → Option (BlockHit F)
  hit_from_match s difficulty now m attempts hps =
      let kind = classify_block m.hash m.matched_pattern in
      if text_eq kind (codes "OTHER")
      then none
      else if not (is_hex64_key m.key)
      then none
      else some (record {
        key = m.key;
        hash_str = m.hash;
        block_type = kind;
        attempts = attempts;
        strategy = s.strategy;
        hps = hps;
        found_at = now;
        memory_cost = some difficulty;
      })

  unfoldable pub hit_rank : BlockHit F → ℕ
  hit_rank h =
      if text_eq h.block_type (codes "XNM")
      then 0
      else if text_eq h.block_type (codes "XBLK")
      then 1
      else if text_eq h.block_type (codes "XUNI")
      then 2
      else 3

  -- `if (!out.hit || hit_rank(*hit) < hit_rank(*out.hit)) out.hit = hit;`
  unfoldable pub better_hit : BlockHit F → Option (BlockHit F) → Option (BlockHit F)
  unfolding hit_rank
  better_hit h none = some h
  better_hit h (some best) = some (if ltb (hit_rank h) (hit_rank best) then h else best)

  -- The comparison of the sort.
  unfoldable pub hit_before : BlockHit F → BlockHit F → Bool
  unfolding hit_rank text_before
  hit_before a b =
      if ltb (hit_rank a) (hit_rank b)
      then true
      else if ltb (hit_rank b) (hit_rank a)
      then false
      else text_before a.key b.key

  -- The loop over the matches; `hps` is that of a hit of them.
  unfoldable pub absorb_matches :
      (HashApiMatch → Option (BlockHit F))
      → List HashApiMatch
      → MineBatchResult F
      → MineBatchResult F
  unfolding better_hit
  absorb_matches hit_of [] out = out
  absorb_matches hit_of (m ∷ rest) out =
      let found = elim (hit_of m) as (λ _. MineBatchResult F) [
        | none ↦ out
        | some h ↦ record out { hits = out.hits ++ h ∷ []; hit = better_hit h out.hit }
      ] in
      absorb_matches hit_of rest found

  unfoldable pub with_hps : F → BlockHit F → BlockHit F
  with_hps hps h = record h { hps = hps }

  unfoldable pub best_with_hps : F → Option (BlockHit F) → Option (BlockHit F)
  unfolding with_hps
  best_with_hps hps none = none
  best_with_hps hps (some h) = some (with_hps hps h)

  -- `ensure_lane_workers` on the mailboxes: a reset where it makes new workers.
  unfoldable pub ensure_boxes : Engine F → List (Mailbox F) → List (Mailbox F)
  unfolding reset_box
  ensure_boxes e boxes =
      if (e.lanes ≤ℤ? pos 1) || (e.lane_workers ==ℤ e.lanes) && (e.worker_target_lanes ==ℤ e.lanes)
      then boxes
      else map reset_box boxes

module _ (D : Double) where
  open D use {F, lit, add, lt}

  -- The result, and the rate of all lanes, after a lane's result.
  unfoldable pub absorb :
      EngineSettings F
      → ℤ
      → Text
      → HashApiResult F
      → MineBatchResult F × F
      → Text ⊎ (MineBatchResult F × F)
  unfolding absorb_matches hit_from_match
  absorb s difficulty now r (out, total_hs) =
      let total = add total_hs r.hashrate in
      let hps = if lt (lit 0 0) total then total else r.hashrate in
      let hit_of = λ (m : HashApiMatch). hit_from_match s difficulty now m (pos r.attempts) hps in
      if not r.ok
      then inl (if is_empty r.error then codes "CUDA batch failed" else r.error)
      else inr (
        absorb_matches hit_of r.matches
            (record out { hashes_done = out.hashes_done +ℤ pos r.attempts }),
        total,
      )

  -- The loop over the lanes, with the mailboxes that it leaves.
  unfoldable pub absorb_lanes :
      EngineSettings F
      → ℤ
      → Text
      → ℕ
      → List (Mailbox F)
      → MineBatchResult F × F
      → (Text ⊎ (MineBatchResult F × F)) × List (Mailbox F)
  unfolding absorb next_slot take_result
  absorb_lanes s difficulty now zero boxes acc = (inr acc, boxes)
  absorb_lanes s difficulty now (suc lanes) [] acc = (inr acc, [])
  absorb_lanes s difficulty now (suc lanes) (box ∷ boxes) acc =
      let slot = next_slot box in
      elim (if not (is_empty slot.error)
          then inl slot.error
          else absorb s difficulty now slot.result acc)
        as (λ _. (Text ⊎ (MineBatchResult F × F)) × List (Mailbox F)) [
          | inl error ↦ (inl error, box ∷ boxes)
          | inr acc' ↦
              let (z, rest) = absorb_lanes s difficulty now lanes boxes acc' in
              (z, take_result box ∷ rest)
        ]

  -- The sums and the sort at the end of a batch.
  unfoldable pub finish_batch : MineBatchResult F → F → MineBatchResult F
  unfolding with_hps best_with_hps hit_before
  finish_batch out total = record out {
    hits = sort_by hit_before (map (with_hps total) out.hits);
    hit = best_with_hps total out.hit;
  }

  -- The request of an engine with one lane.
  unfoldable pub single_request : EngineSettings F → Bool → ℤ → Engine F → HashApiRequest
  unfolding lane_prefix salt_hex
  single_request s allow_xuni_base xuni_lanes e = record {
    request_id = [];
    algorithm = codes "argon2id-xen";
    backend = codes "cuda";
    salt_hex = salt_hex s.address;
    key = [];
    key_prefix = lane_prefix 0;
    target_pattern = codes "XEN11";
    difficulty = to_uint32 e.difficulty;
    batch_size = pos_part e.batch_per_lane;
    device_id = s.device_id;
    allow_xuni = allow_xuni_base && (pos 0 <ℤ? xuni_lanes);
    detailed_timings = false;
    first_block_workers = 0;
    first_block_dynamic_chunk_size = 0;
    first_block_dynamic_chunk_auto = false;
    gpu_first_blocks = true;
    work_patches = e.work_patches;
    hash_patch = e.hash_patch;
    prepare_patch =
        if pos 1 <ℤ? e.work_patches
        then pos (suc (pos_part e.hash_patch) % pos_part e.work_patches)
        else pos 0;
    wave_role = pos 0;
    arena_batch_size = pos_part (max_ℤ e.planned_batch_per_lane e.batch_per_lane);
  }

  -- What a batch publishes to its lanes.
  unfoldable pub batch_proto : EngineSettings F → Bool → ℤ → Engine F → Proto
  unfolding salt_hex
  batch_proto s allow_xuni_base xuni_lanes e = record {
    role = pos 0;
    salt = salt_hex s.address;
    difficulty = to_uint32 e.difficulty;
    batch_size = pos_part e.batch_per_lane;
    arena_batch_size = pos_part e.batch_per_lane;
    xuni_lanes = xuni_lanes;
    allow_xuni_base = allow_xuni_base;
    device_id = s.device_id;
    work_patches = pos 0;
  }

  -- What a call leaves of the engine and of the mailboxes.
  pub record Mined : Type 0 where
    pub outcome : Text ⊎ MineBatchResult F
    pub engine : Engine F
    pub boxes : List (Mailbox F)

  -- The end of a call, by what the lanes gave.
  unfoldable pub end_batch : Engine F → (Text ⊎ (MineBatchResult F × F)) × List (Mailbox F) → Mined
  unfolding finish_batch
  end_batch e (inl error, boxes) = record { outcome = inl error; engine = e; boxes = boxes }
  end_batch e (inr (out, total), boxes) = record {
    outcome = inr (finish_batch out total);
    engine = record e { last_hashrate = total };
    boxes = boxes;
  }

  -- `run` is the backend of the first lane, `wait` what the workers do until every lane has a result.
  unfoldable pub mine_batch :
      EngineSettings F
      → ℕ
      → Text
      → (HashApiRequest → Text ⊎ HashApiResult F)
      → (List (Mailbox F) → List (Mailbox F))
      → Engine F
      → List (Mailbox F)
      → Mined
  unfolding absorb absorb_lanes single_request batch_proto on_first ensure_boxes end_batch
  mine_batch s minute now run wait e0 boxes =
      let (allow, e1) = compute_allow_xuni_base s minute e0 in
      let e = record e1 { last_allow_xuni = allow } in
      let most = max_ℤ (pos 0) s.xuni_max_lanes in
      let xuni_lanes = if allow && in_xuni_taper_window minute then min_ℤ most (pos 1) else most in
      let lanes = pos_part e.lanes in
      let asked =
        on_first lanes (publish (batch_proto s allow xuni_lanes e)) (ensure_boxes e boxes) in
      let single =
        elim (run (single_request s allow xuni_lanes e)) as (λ _. Text ⊎ (MineBatchResult F × F)) [
          | inl error ↦ inl error
          | inr r ↦ absorb s e.difficulty now r (empty_result, lit 0 0)
        ] in
      if not e0.started || (e0.batch_per_lane ≤ℤ? pos 0) || (e0.lanes_impl ==ℤ pos 0)
      then record { outcome = inr empty_result; engine = e0; boxes = boxes }
      else if e.lanes ==ℤ pos 1
      then end_batch e (single, boxes)
      else end_batch (ensure_lane_workers e)
          (absorb_lanes s e.difficulty now lanes (wait asked) (empty_result, lit 0 0))

  -- The loop over what the lanes still hold.
  unfoldable pub drain_lanes :
      EngineSettings F
      → ℤ
      → Text
      → F
      → List (HashApiResult F)
      → MineBatchResult F
      → MineBatchResult F
  unfolding absorb_matches hit_from_match
  drain_lanes s difficulty now total [] out = out
  drain_lanes s difficulty now total (r ∷ rest) out =
      let hit_of = λ (m : HashApiMatch). hit_from_match s difficulty now m (pos r.attempts) total in
      let found =
        absorb_matches hit_of r.matches
          (record out { hashes_done = out.hashes_done +ℤ pos r.attempts }) in
      drain_lanes s difficulty now total rest
        (if not r.ok && not (is_empty r.error) then out else found)

  -- The answers of the backends' `drainPipeline`, in the order of the lanes.
  unfoldable pub drain_pipeline :
      EngineSettings F → Text → List (HashApiResult F) → Engine F → MineBatchResult F
  unfolding drain_lanes best_with_hps
  drain_pipeline s now results e =
      let out = drain_lanes s e.difficulty now e.last_hashrate results empty_result in
      if not e.started || (e.lanes_impl ==ℤ pos 0)
      then empty_result
      else record out { hit = best_with_hps e.last_hashrate out.hit }
