-- ===== src/Tests/Run.antt =====
-- A miner with two lanes that finds a hit, then runs out of device memory, rests and starts again.
use mathlib.Core.List.Memᴰ.{head}
use x1miner.Base.{◌≡◌, ◌⊎◌, refl, sym, subst, true, false, none, some, inr, List, [], ◌∷◌, value_or}
use x1miner.Base.Int.{ℤ, pos}
use x1miner.Base.Int.{◌+ℤ◌, ◌*ℤ◌, to_uint32}
use x1miner.Base.Text.{
  codes, is_empty, starts_with, is_xdigit, text_eq, mem_text, trim_by, upper, is_space, contains,
  is_upper,
}
use x1miner.Base.Sort.{sort_by}
use x1miner.Mining.BlockTypes.{classify_block}
use x1miner.Mining.Encode.{
  is_hex64_key, is_argon2_encoded, encode_argon2id_phc, to_string, hex_to_bytes,
}
use x1miner.HashApi.Encoding.{base64_encode}
use x1miner.Queue.Policy.{in_xuni_window}
use x1miner.Mining.Engine.{new_engine, ensure_lane_workers}
use x1miner.Mining.Engine.Xuni.{compute_allow_xuni_base, set_queue_counts}
use x1miner.Mining.Lane.{publish}
use x1miner.Queue.Store.{is_indexed}
use x1miner.Supervisor.Live.Laws.{is_safe}
use x1miner.Supervisor.Oracle.{mining_difficulty, force_mine_mode}
use x1miner.Mining.Calls.{run_calls, run_calls-IsSound}
use x1miner.Mining.Wave.{mine_batch, text_before}
use x1miner.Common.{BlockHit}
use x1miner.Mining.Encode.{prepare_hit_for_submit}
use x1miner.Supervisor.Events.{Event}
use x1miner.Supervisor.Events.Holds.{IsHeld, IsSteady}
use x1miner.Supervisor.Run.{
  RunSettings, GpuSnapshot, Reading, Rig, RunEvent, mine, turn, run_session, count_queue,
  set_parked, with_sup, config_of,
}
use x1miner.Supervisor.Run.Found.{batch_of, mined_hit-IsHeld}
use x1miner.Supervisor.Run.Session.{run_session-IsSound}
use x1miner.Mining.Engine.Laws.{IsSound}
use x1miner.Supervisor.Run.Rest.{turns_of, emergency_rests}
use x1miner.Tests.Sample.{thousandths, trees_of_thousandths}
use x1miner.Tests.Engine.{card, settings, at_work, both_good, got, lane_hit, clock, run_nothing}
use x1miner.Tests.Supervisor.{config, miner, moment, no_paper, silent}
use x1miner.Tests.Events.{times, miner-IsSteady}

abbrev run_settings : RunSettings ℤ
run_settings = record {
  config = record config { force_mine_memory_cost = pos 0 };
  engine = settings;
  emergency_mib = some (pos 23000);
  gpu_cooldown_s = pos 15;
}

abbrev reading : Reading ℤ
reading = record {
  moment = record moment { clock = clock };
  paper = no_paper;
  snapshot = none;
  total_bytes = 17179869184;
  device = card;
  start_error = codes "cudaSetDevice failed";
  replans = card;
  after = pos 2200;
  boxes = both_good;
  run = run_nothing;
  wait = λ boxes. boxes;
  leftover = [];
}

abbrev rig : Rig thousandths trees_of_thousandths
rig = record {
  engine = at_work;
  both = (miner, times);
  cooldown_until = pos 0;
  reduce_lanes_after_cooldown = false;
  shutting_down = false;
}

abbrev prepared : BlockHit ℤ
prepared =
    value_or
      (prepare_hit_for_submit lane_hit config.salt_hex (pos 1100) config.time_cost
        config.parallelism)
      lane_hit

abbrev night : List (RunEvent thousandths trees_of_thousandths)
night =
    RunEvent.works (Event.works silent moment no_paper true)
    ∷ RunEvent.turns reading
    ∷ RunEvent.stops (record reading { moment = record moment { shutting_down = true } })
    ∷ []

mined_here : (batch_of thousandths trees_of_thousandths run_settings reading rig).outcome ≡ inr got
unfolding mine_batch classify_block is_hex64_key is_xdigit ◌+ℤ◌ sort_by compute_allow_xuni_base
    in_xuni_window text_before is_empty text_eq trim_by upper is_space contains is_upper new_engine
    count_queue set_parked with_sup set_queue_counts publish
mined_here = refl

mined_m :
    (batch_of thousandths trees_of_thousandths run_settings reading rig).engine.difficulty
    ≡ pos 1100
unfolding mine_batch classify_block is_hex64_key is_xdigit ◌+ℤ◌ sort_by compute_allow_xuni_base
    in_xuni_window text_before is_empty text_eq trim_by upper is_space contains is_upper new_engine
    count_queue set_parked with_sup set_queue_counts publish ensure_lane_workers
mined_m = refl

prepared_for :
    (m : ℤ)
    → m ≡ pos 1100
    → prepare_hit_for_submit lane_hit config.salt_hex m config.time_cost config.parallelism
      ≡ some prepared
unfolding prepare_hit_for_submit is_argon2_encoded starts_with contains encode_argon2id_phc
    to_string to_uint32 base64_encode hex_to_bytes
prepared_for m e =
    subst
      (λ d.
        prepare_hit_for_submit lane_hit config.salt_hex d config.time_cost config.parallelism
        ≡ some prepared)
      (sym e) refl

mined_hit-IsHeld_example :
    IsHeld thousandths trees_of_thousandths prepared.hash_str
      (run_session thousandths trees_of_thousandths run_settings night
        (mine thousandths trees_of_thousandths run_settings reading rig).1).both.0
unfolding is_hex64_key is_xdigit config_of mining_difficulty force_mine_mode
mined_hit-IsHeld_example =
    mined_hit-IsHeld thousandths trees_of_thousandths run_settings reading rig got lane_hit prepared
      night ((λ _. refl), (tt, (tt, tt))) miner-IsSteady mined_here (head refl) refl
      (prepared_for _ mined_m)

-- A miner that has not started its engine.
abbrev idle : Rig thousandths trees_of_thousandths
idle = record rig { engine = new_engine thousandths settings }

run_session-IsSound_example :
    let after =
      run_session thousandths trees_of_thousandths run_settings
        (RunEvent.turns reading ∷ night)
        idle in
    IsSound after.engine
    × IsSteady thousandths trees_of_thousandths after.both.0
    × IsHeld thousandths trees_of_thousandths
        (codes "$argon2id$v=19$m=100,t=1,p=1$qw$XEN11a")
        after.both.0
unfolding new_engine run_calls is_empty is_safe is_indexed mem_text text_eq
run_session-IsSound_example =
    run_session-IsSound thousandths trees_of_thousandths run_settings
      (RunEvent.turns reading ∷ night) idle (codes "$argon2id$v=19$m=100,t=1,p=1$qw$XEN11a")
      (refl, (tt, (refl, (tt, tt)))) (tt, ((λ _. refl), (tt, (tt, tt))))
      (run_calls-IsSound thousandths settings [] tt) miner-IsSteady refl refl

-- The readings of an emergency, of a turn in the pause, and of the turn that ends it.
abbrev full : GpuSnapshot
full = record { used_mib = pos 23500; temperature_c = pos 60; memory_junction_c = pos 70 }

abbrev emergency : Reading ℤ
emergency = record reading { snapshot = some full }

abbrev pause : Reading ℤ
pause = record reading { moment = record moment { now = pos 3000 }; after = pos 3200 }

abbrev last : Reading ℤ
last = record reading { moment = record moment { now = pos 4900 }; after = pos 5100 }

emergency_rests_example :
    let stopped = turn thousandths trees_of_thousandths run_settings emergency rig in
    let rested =
      run_session thousandths trees_of_thousandths run_settings
        (turns_of thousandths trees_of_thousandths run_settings (pause ∷ []))
        stopped in
    let back = turn thousandths trees_of_thousandths run_settings last rested in
    (stopped.engine.started ≡ false)
    × (rested.engine ≡ stopped.engine)
    × (rested.both.0.stats ≡ stopped.both.0.stats)
    × ((back.engine.started ≡ true) ⊎ (back.cooldown_until ≡ pos 5100 +ℤ pos 15 *ℤ pos 1000))
unfolding ◌+ℤ◌
emergency_rests_example =
    emergency_rests thousandths trees_of_thousandths run_settings emergency (pause ∷ []) last rig
      full (pos 23000) refl refl refl refl ((refl, refl), tt) refl refl
