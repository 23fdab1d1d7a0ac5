-- ===== src/Tests/Events.antt =====
-- A hit that is found, goes into the bag while the pool is silent, and is flushed at the shutdown.
use x1miner.Base.{refl, true, false, arith, List, [], ◌∷◌}
use x1miner.Base.Int.{ℤ, pos}
use x1miner.Base.Text.{is_empty, is_xdigit, mem_text, starts_with}
use x1miner.Mining.Encode.{
  is_hex64_key, prepare_hit_for_submit, is_argon2_encoded, memory_cost_from_hash, search_memory,
  memory_at, stoi_digits,
}
use x1miner.Queue.Store.Invariant.{count_id, count_hash}
use x1miner.Queue.Store.Methods.{IsValid}
use x1miner.Supervisor.Oracle.{mining_difficulty, force_mine_mode}
use x1miner.Supervisor.Live.{handle_hit}
use x1miner.Supervisor.Worker.{FlushTimes}
use x1miner.Supervisor.Events.{Event, run_events}
use x1miner.Supervisor.Events.Holds.{IsHeld, IsSteady}
use x1miner.Supervisor.Events.Safety.{handled_hit-IsHeld}
use x1miner.Tests.Sample.{thousandths, trees_of_thousandths}
use x1miner.Tests.Supervisor.{
  config, found, empty_store, miner, moment, ready, no_paper, kind_pool, silent,
}

abbrev pub times : FlushTimes ℤ
times = record { was_in_xuni_window = false; last_xuni_flush = pos 0; last_queue_flush = pos 0 }

abbrev evening : List (Event thousandths trees_of_thousandths)
evening =
    Event.works silent moment no_paper true
    ∷ Event.watches moment
    ∷ Event.polls moment no_paper true
    ∷ Event.works kind_pool moment no_paper true
    ∷ Event.shuts_down (record moment { shutting_down = true })
    ∷ Event.works kind_pool (record moment { shutting_down = true }) no_paper false
    ∷ Event.finalizes (record moment { shutting_down = true })
    ∷ []

empty_store-IsValid : IsValid empty_store
unfolding count_id count_hash mem_text
empty_store-IsValid = record {
  indexed = record {
    ids_unique = λ i. omega arith;
    ids_fresh = tt;
    next_positive = omega arith;
    hashes_unique = λ h ne. omega arith;
    index_exact = λ h. ground arith;
  };
  written_back = omega arith;
}

pub miner-IsSteady : IsSteady thousandths trees_of_thousandths miner
unfolding is_argon2_encoded starts_with
miner-IsSteady = record { sealed = (empty_store-IsValid, tt); jobs = (refl, tt) }

handled_hit-IsHeld_example :
    let after =
      (run_events thousandths trees_of_thousandths config evening
        (handle_hit thousandths trees_of_thousandths config moment found miner, times)).0 in
    IsHeld thousandths trees_of_thousandths ready.hash_str after
    × IsSteady thousandths trees_of_thousandths after
unfolding is_hex64_key is_xdigit prepare_hit_for_submit is_argon2_encoded starts_with
    memory_cost_from_hash search_memory memory_at is_empty stoi_digits mining_difficulty
    force_mine_mode
handled_hit-IsHeld_example =
    handled_hit-IsHeld thousandths trees_of_thousandths config moment found ready evening miner
      times ((λ _. refl), (tt, (tt, ((λ _. refl), (tt, ((λ _. refl), (tt, tt))))))) miner-IsSteady
      refl refl
