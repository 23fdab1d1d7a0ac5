-- ===== src/Tests/Supervisor.antt =====
-- A miner that bags m=100 while the network asks for it, with one hit in its live queue.
use x1miner.Base.{
  List, arith, ◌≡◌, ◌⊎◌, refl, true, false, not, ◌||◌, none, some, [], ◌∷◌, is_some, value_or,
  replicate,
}
use x1miner.Base.Int.{ℤ, pos, ◌≤ℤ?◌}
use x1miner.Base.Text.{codes, is_empty, mem_text}
use x1miner.Common.{BlockHit, NetworkStatus, SubmitResult}
use x1miner.Common.Stats.{new_stats}
use x1miner.Mining.Encode.{prepare_hit_for_submit}
use x1miner.Queue.Store.{BlockStore, pending_eligible_m, enqueue}
use x1miner.Supervisor.Oracle.{
  NetState, Config, holds, force_mine_mode, bag_target_m, mining_difficulty, oracle_says_m,
  oracle_left_m,
}
use x1miner.Supervisor.Network.{refresh_network}
use x1miner.Supervisor.Network.Laws.{refresh_network_once}
use x1miner.Supervisor.Drain.{DrainState, update_match_drain}
use x1miner.Supervisor.Drain.Laws.{update_match_drain_open}
use x1miner.Supervisor.Live.{Supervisor, Moment}
use x1miner.Supervisor.Network.{PaperStatus}
use x1miner.Supervisor.Flush.{WorkItem, FlushTally, flush_rounds}
use x1miner.Supervisor.Flush.Send.{flush_gate, try_flush_pending}
use x1miner.Supervisor.Flush.Laws.{Sheds}
use x1miner.Supervisor.Flush.Attempt.{Released, try_flush_pending-Sheds}
use x1miner.Supervisor.Flush.Rounds.{flush_rounds_report}
use x1miner.Tests.Sample.{thousandths, trees_of_thousandths, Tree, no_files}

abbrev pub config : Config
config = record {
  force_mine_memory_cost = pos 100;
  memory_cost = pos 1100;
  sample_interval_s = pos 5;
  network_down_poll_interval_s = pos 10;
  connection_timeout_s = pos 8;
  salt_hex = codes "ab";
  time_cost = pos 1;
  parallelism = pos 1;
  match_drain_enabled = true;
  match_drain_min_queue = pos 1;
  match_drain_max_s = pos 60;
  match_drain_parallel = pos 0;
  match_drain_batch = pos 0;
  engine_difficulty = some (pos 100);
}

abbrev matching : NetState ℤ
matching = record {
  network_ok = true;
  difficulty_stale = false;
  network_difficulty = some (pos 100);
  last_difficulty_ok_at = pos 1000;
  difficulty_fail_streak = pos 0;
  last_poll_seq = 4;
  paper_ok = false;
  paper_newest_m = none;
  paper_tip_id = pos 0;
  last_paper_ok_at = pos 0;
  last_paper_seq = 0;
  defer_submit_until = pos 0;
  submit_backoff_until = pos 0;
}

-- A poll that failed.
abbrev missed : NetworkStatus ℤ
missed = record {
  ok = false;
  difficulty = none;
  latency_ms = pos 0;
  error = codes "timeout";
  seq = 5;
}

refresh_network_once_example :
    let t = (refresh_network thousandths false config missed (pos 2000) matching).1 in
    ((refresh_network thousandths false config missed (pos 9000) t).1 ≡ t)
    × ((not (is_some matching.network_difficulty) || is_some t.network_difficulty) ≡ true)
refresh_network_once_example =
    refresh_network_once thousandths config missed (pos 2000) (pos 9000) matching

abbrev pub found : BlockHit ℤ
found = record {
  key = replicate 64 b'a';
  hash_str = codes "$argon2id$v=19$m=100,t=1,p=1$qw$XEN11a";
  block_type = codes "XNM";
  attempts = pos 7;
  strategy = codes "random";
  hps = pos 13000;
  found_at = codes "2026-08-12T10:00:00";
  memory_cost = some (pos 100);
}

abbrev pub empty_store : BlockStore ℤ Tree
empty_store = record {
  pending = [];
  hash_index = [];
  next_id = pos 1;
  dirty_ops = 0;
  disk = no_files;
}

abbrev bag : BlockStore ℤ Tree
bag = (enqueue trees_of_thousandths (codes "10:00") empty_store found (codes "network_down")).1

abbrev closed : DrainState ℤ
closed = record {
  active = false;
  gpu_parked = false;
  until = pos 0;
  start_queue = pos 0;
  flushed = pos 0;
  logged_first_wave = false;
  flush_skip_before_id = pos 0;
}

update_match_drain_open_example :
    (true ≡ true)
    × (oracle_left_m matching (bag_target_m config matching) ≡ false)
    × ((false ≡ true)
        ⊎ ((oracle_says_m matching (bag_target_m config matching) ≡ true)
            × ((config.match_drain_min_queue
                  ≤ℤ? pos (
                      pending_eligible_m bag
                        (bag_target_m config matching)
                        (bag_target_m config matching)))
                ≡ true)))
unfolding update_match_drain oracle_says_m bag_target_m force_mine_mode holds pending_eligible_m
    enqueue is_empty mem_text
update_match_drain_open_example =
    update_match_drain_open thousandths trees_of_thousandths config matching (pos 2000) closed bag
      refl

abbrev pub miner : Supervisor ℤ Tree
miner = record {
  net = matching;
  store = empty_store;
  stats = new_stats (pos 0);
  live_q = record { hit = found; kind = codes "XNM" } ∷ [];
  drain = closed;
  reported = [];
  ended = false;
}

abbrev pub moment : Moment ℤ
moment = record {
  now = pos 2000;
  clock = codes "10:00";
  minute = 30;
  shutting_down = false;
  poll = missed;
}

-- A pool that does not answer.
abbrev pub silent : BlockHit ℤ → SubmitResult
silent _ = record {
  ok = false;
  status = pos 0;
  body = codes "timed out";
  submitted_at = codes "10:00";
}

abbrev pub ready : BlockHit ℤ
ready =
    value_or
      (prepare_hit_for_submit found config.salt_hex (mining_difficulty config matching)
        config.time_cost config.parallelism)
      found

abbrev pub no_paper : PaperStatus ℤ
no_paper = record { ok = false; newest_m = none; tip_id = pos 0; seq = 0 }

abbrev full_miner : Supervisor ℤ Tree
full_miner = record miner { store = bag }

abbrev pub kind_pool : BlockHit ℤ → SubmitResult
kind_pool _ = record {
  ok = true;
  status = pos 200;
  body = codes "ok";
  submitted_at = codes "10:00";
}

try_flush_pending-Sheds_example :
    Sheds
      (Released thousandths trees_of_thousandths config kind_pool moment false
        (flush_gate thousandths trees_of_thousandths config moment no_paper false full_miner).1)
      bag
      (try_flush_pending thousandths trees_of_thousandths config kind_pool moment no_paper false
        full_miner).1.store
try_flush_pending-Sheds_example =
    try_flush_pending-Sheds thousandths trees_of_thousandths config kind_pool moment no_paper false
      full_miner

abbrev two_items : List (WorkItem ℤ)
two_items = record { id = pos 1; hit = found } ∷ record { id = pos 2; hit = ready } ∷ []

abbrev no_tally : FlushTally
no_tally = record { accepted_ids = []; flushed = pos 0; holds = pos 0; transport_fail = false }

flush_rounds_report_example :
    (flush_rounds thousandths trees_of_thousandths config kind_pool moment false 2 1 two_items
      (full_miner, no_tally)).0.reported
    ≡ found ∷ ready ∷ []
flush_rounds_report_example =
    flush_rounds_report thousandths trees_of_thousandths kind_pool (λ _. refl) config moment false 1
      two_items (full_miner, no_tally) (omega arith) refl
