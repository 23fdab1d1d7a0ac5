-- ===== src/Tests/Engine.antt =====
-- The CUDA engine, its lanes and its batches on small inputs.
use x1miner.Base.{
  ℕ, ◌+◌, ◌*◌, ◌%◌, ◌≤◌, ◌≡◌, ◌≢◌, ◌⊎◌, refl, inl, inr, true, false, none, some, List, [], ◌∷◌,
  ◌++◌, length, replicate, take, tally, arith, ltb,
}
use x1miner.Base.Int.{ℤ, pos, ◌+ℤ◌}
use x1miner.Base.Text.{
  Text, codes, is_empty, text_eq, is_xdigit, trim_by, upper, is_space, contains, is_upper,
}
use x1miner.Base.Sort.{sort_by}
use x1miner.Common.{BlockHit}
use x1miner.Mining.BlockTypes.{classify_block}
use x1miner.Mining.Encode.{is_hex64_key}
use x1miner.Queue.Policy.{in_xuni_window}
use x1miner.HashApi.Types.{HashApiRequest, HashApiResult}
use x1miner.Mining.Engine.{EngineSettings, Engine, Device, new_engine}
use x1miner.Mining.Engine.Laws.{IsSound}
use x1miner.Mining.Engine.Xuni.{run_batches, xuni_throttled, compute_allow_xuni_base}
use x1miner.Mining.Lane.{
  Proto, Slot, Mailbox, Lane, looping, computing, LaneRun, here, then_step, publishes, wakes,
  starts, finishes, reset_box, publish, is_changed, put_result, lane_request, lane_prefix, is_void,
  may_produce, has_result, next_slot, is_good, take_result, ring_size,
}
use x1miner.Mining.Lane.Laws.{fresh_lane, in_ring, lane_fifo, failed_result_stays}
use x1miner.Mining.Wave.{MineBatchResult, mine_batch, on_first, text_before}
use x1miner.Mining.Wave.Laws.{good_lanes, did_throw}
use x1miner.Mining.Wave.Batch.{batch_takes, batch_reports, Reported}
use x1miner.Mining.Calls.{EngineCall, Backs, run_calls, run_calls-IsSound}
use x1miner.Tests.Sample.{thousandths}

abbrev pub settings : EngineSettings ℤ
settings = record {
  device_id = pos 0;
  memory_cost = pos 1100;
  cuda_max_lanes = pos 2;
  cuda_lane_reserve = pos 0;
  cuda_batch_size = pos 0;
  cuda_max_batch_size = pos 0;
  vram_reference_difficulty = pos 1100;
  vram = record {
    total_mib = pos 0;
    target_pct = pos 78000;
    desktop_headroom_pct = pos 16000;
    emergency_vram_pct = pos 94000;
    min_headroom_pct = pos 6000;
    runtime_overhead_pct = pos 5000;
    min_headroom_floor_mib = pos 512;
    overhead_floor_mib = pos 400;
    target_mib_override = pos 0;
    headroom_mib_override = pos 0;
    emergency_mib_override = pos 0;
    min_headroom_mib_override = pos 0;
    runtime_overhead_mib_override = pos 0;
  };
  work_patches = pos 2;
  warn_gpu_temp_c = pos 70;
  max_gpu_temp_c = pos 75;
  thermal_use_memory_junction = true;
  warn_mem_temp_c = pos 76;
  max_mem_temp_c = pos 80;
  gpu_thermal_batch_enabled = true;
  gpu_thermal_batch_min_scale = pos 300;
  gpu_thermal_start_scale = pos 700;
  thermal_settle_s = pos 15;
  thermal_batch_step = pos 1;
  xuni_mining_enabled = true;
  xuni_queue_soft_cap = pos 100;
  xuni_queue_resume = pos 40;
  xuni_every_n_batches = pos 3;
  xuni_max_lanes = pos 2;
  strategy = codes "random";
  address = codes "0x24691e54afafe2416a8252097c9ca67557271475";
}

-- A match of XEN11.
abbrev hash : Text
hash = codes "abcXEN11defG"

abbrev good_result : HashApiResult ℤ
good_result = record {
  ok = true;
  error = [];
  attempts = 100;
  hashrate = pos 5000;
  matches =
      (record {
        key = replicate 64 b'b';
        hash = hash;
        matched_pattern = codes "XEN11";
        attempt_index = 3;
        is_superblock = false;
      })
      ∷ [];
}

abbrev good : Slot ℤ
good = record { error = []; result = good_result }

abbrev failed : Slot ℤ
failed = record { error = codes "out of memory"; result = good_result }

abbrev proto : Proto
proto = record {
  role = pos 0;
  salt = codes "24691e54";
  difficulty = 1100;
  batch_size = 100;
  arena_batch_size = 100;
  xuni_lanes = pos 2;
  allow_xuni_base = false;
  device_id = pos 0;
  work_patches = pos 0;
}

abbrev old_box : Mailbox ℤ
old_box = record {
  seq = 9;
  done_seq = 9;
  produced = 7;
  consumed = 5;
  proto = proto;
  ring = λ _. good;
}

pub run_nothing : HashApiRequest → Text ⊎ HashApiResult ℤ
run_nothing r = inl (codes "no device")

abbrev pub card : Device
card = record { is_there = true; free_bytes = 16106127360; fails_after = none }

abbrev session : List (EngineCall thousandths)
session =
    EngineCall.starts 17179869184 (record card { fails_after = some 1 })
    ∷ EngineCall.starts 17179869184 card
    ∷ EngineCall.sets_difficulty card (pos 2200)
    ∷ EngineCall.reduces_cap
    ∷ EngineCall.reads_temperature (pos 60) (pos 84) (pos 100000)
    ∷ EngineCall.mines 57 (codes "2026-08-12T10:57:00") run_nothing (λ boxes. boxes)
        (old_box ∷ old_box ∷ [])
    ∷ EngineCall.restores_cap card (pos 60) (pos 70)
    ∷ []

run_calls-IsSound_example :
    IsSound (run_calls thousandths settings session (new_engine thousandths settings))
unfolding Backs
run_calls-IsSound_example =
    run_calls-IsSound thousandths settings session (tt, (tt, (refl, (tt, (tt, (tt, (refl, tt)))))))

-- The minutes of four batches, with the number of XUNI blocks in the queue.
abbrev minutes : List (ℕ × ℤ)
minutes = (57, pos 3) ∷ (58, pos 5) ∷ (59, pos 130) ∷ (4, pos 20) ∷ []

xuni_throttled_example :
    tally (λ b. b) (run_batches settings minutes (new_engine thousandths settings)).0 * 3
    ≤ length minutes + (new_engine thousandths settings).batch_seq % 3
xuni_throttled_example = xuni_throttled settings minutes (new_engine thousandths settings)

-- A lane that is asked, wakes, starts a wave and has its result.
abbrev fresh : Lane ℤ
fresh = fresh_lane 0 2 old_box

abbrev asked : Lane ℤ
asked = record fresh { box = publish proto fresh.box }

abbrev woken : Lane ℤ
woken = record asked { worker = looping asked.box.seq (lane_request 0 asked.box.proto) }

abbrev busy : Lane ℤ
busy = record woken { worker = computing woken.box.seq (lane_request 0 asked.box.proto) }

abbrev with_result : Slot ℤ → Lane ℤ
with_result slot = record busy {
  box = put_result woken.box.seq slot busy.box;
  worker = looping woken.box.seq (lane_request 0 asked.box.proto);
  made = slot ∷ [];
}

is_new : asked.box.seq ≢ 0
unfolding publish is_changed reset_box text_eq
is_new h = omega (arith, h)

is_full : is_void (lane_request 0 asked.box.proto) ≡ false
unfolding is_void lane_request lane_prefix publish is_changed reset_box text_eq is_empty
is_full = refl

has_space : may_produce woken.box ≡ true
unfolding may_produce publish is_changed reset_box text_eq
has_space = refl

run_to : (slot : Slot ℤ) → LaneRun 0 2 fresh (with_result slot)
run_to slot =
    let first = then_step fresh asked here (publishes fresh proto) in
    let second = then_step asked woken first (wakes asked 0 refl is_new is_full refl) in
    let third = then_step woken busy second (starts woken _ _ refl refl has_space) in
    then_step busy (with_result slot) third (finishes busy _ _ slot refl)

lane_fifo_example :
    let z = with_result good in
    (z.made ≡ z.taken ++ in_ring z.box) × (length (in_ring z.box) ≤ ring_size)
lane_fifo_example = lane_fifo 0 2 old_box (with_result good) (run_to good)

failed_there : has_result (with_result failed).box ≡ true
unfolding has_result put_result publish is_changed reset_box text_eq
failed_there = refl

failed_next : is_good (next_slot (with_result failed).box) ≡ false
unfolding next_slot is_good put_result publish is_changed reset_box text_eq is_empty
failed_next = refl

-- The worker goes on with a second wave.
abbrev busy_again : Lane ℤ
busy_again = record (with_result failed) {
  worker = computing woken.box.seq (lane_request 0 asked.box.proto);
}

more_space : may_produce (with_result failed).box ≡ true
unfolding may_produce put_result publish is_changed reset_box text_eq
more_space = refl

same_seq : (with_result failed).box.seq ≡ woken.box.seq
unfolding put_result
same_seq = refl

failed_result_stays_example :
    (busy_again.taken ≡ (with_result failed).taken)
    × (next_slot busy_again.box ≡ next_slot (with_result failed).box)
    × (has_result busy_again.box ≡ true)
failed_result_stays_example =
    failed_result_stays 0 2 old_box (with_result failed) busy_again (run_to failed) failed_there
      failed_next
      (then_step (with_result failed) busy_again here
        (starts (with_result failed) _ _ refl same_seq more_space))

-- An engine with two lanes at work.
abbrev pub at_work : Engine ℤ
at_work = record (new_engine thousandths settings) {
  started = true;
  lanes = pos 2;
  batch_per_lane = pos 100;
  lanes_impl = pos 2;
  lane_workers = pos 2;
  worker_target_lanes = pos 2;
}

abbrev half_failed : List (Mailbox ℤ)
half_failed = old_box ∷ record old_box { ring = λ _. failed } ∷ []

abbrev pub clock : Text
clock = codes "2026-08-12T10:00:00"

batch_takes_example :
    let m =
      mine_batch thousandths settings 30 clock run_nothing (λ _. half_failed) at_work half_failed in
    let taking = good_lanes 2 half_failed in
    (m.boxes ≡ on_first taking take_result half_failed)
    × (did_throw m.outcome ≡ ltb taking (length (take 2 half_failed)))
batch_takes_example =
    batch_takes thousandths settings 30 clock run_nothing half_failed at_work half_failed refl

-- The hit of both lanes, with the rate of the two.
abbrev pub lane_hit : BlockHit ℤ
lane_hit = record {
  key = replicate 64 b'b';
  hash_str = hash;
  block_type = codes "XNM";
  attempts = pos 100;
  strategy = codes "random";
  hps = pos 10000;
  found_at = clock;
  memory_cost = some (pos 1100);
}

abbrev pub got : MineBatchResult ℤ
got = record {
  hashes_done = pos 200;
  hits = lane_hit ∷ lane_hit ∷ [];
  hit = some lane_hit;
  aborted = false;
  abort_reason = [];
}

abbrev pub both_good : List (Mailbox ℤ)
both_good = old_box ∷ old_box ∷ []

returned :
    (mine_batch thousandths settings 30 clock run_nothing
      (λ _. both_good)
      at_work
      both_good).outcome
    ≡ inr got
unfolding mine_batch classify_block is_hex64_key is_xdigit ◌+ℤ◌ sort_by compute_allow_xuni_base
    in_xuni_window text_before is_empty text_eq trim_by upper is_space contains is_upper new_engine
returned = refl

batch_reports_example : Reported thousandths (take 2 both_good) got
batch_reports_example =
    batch_reports thousandths settings 30 clock run_nothing both_good at_work both_good got refl
      returned
