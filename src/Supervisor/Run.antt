-- ===== src/Supervisor/Run.antt =====
-- src/app/supervisor.cpp: `gpu_safety_tick`, the loop of `run` that the mining thread turns, and
-- `graceful_shutdown`. The pointers to the engine, the store and the metrics are set. The power limit,
-- the dashboard, the log, the updater and the pauses are left out, and a throw out of `stop` with them.
pub mod Steady
pub mod Session
pub mod Rest
pub mod Found
use x1miner.Base.{
  ℕ, ◌⊎◌, inl, inr, Bool, true, false, not, ◌&&◌, ◌||◌, Option, none, some, List, [], ◌∷◌, ◌++◌,
  if◌then◌else◌, is_some, value_or,
}
use x1miner.Base.Int.{ℤ, pos, pos_part, neg_part, ◌<ℤ?◌, ◌≤ℤ?◌}
use x1miner.Base.Double.{Double}
use x1miner.Base.Text.{Text, codes, contains}
use x1miner.Common.Json.{JsonLib}
use x1miner.Common.Stats.{MiningStats, record_hashes, set_active_lanes}
use x1miner.HashApi.Types.{HashApiRequest, HashApiResult}
use x1miner.Queue.Policy.{in_xuni_window}
use x1miner.Queue.Store.{pending_by_type}
use x1miner.Mining.Encode.{to_string}
use x1miner.Mining.Engine.{
  EngineSettings, Engine, Device, start, stop, set_difficulty, reduce_lane_cap,
}
use x1miner.Mining.Engine.Thermal.{update_thermal_batch_from_temp}
use x1miner.Mining.Engine.Xuni.{set_queue_counts}
use x1miner.Mining.Lane.{Mailbox}
use x1miner.Mining.Wave.{MineBatchResult, mine_batch, drain_pipeline}
use x1miner.Supervisor.Oracle.{Config, holds, force_mine_mode, should_park_cuda}
use x1miner.Supervisor.Network.{PaperStatus}
use x1miner.Supervisor.Live.{Supervisor, Moment}
use x1miner.Supervisor.Worker.{FlushTimes}
use x1miner.Supervisor.Events.{Both, Event, handle_batch_hits, take_event}

-- What the supervisor reads of `GpuSnapshot`.
pub record GpuSnapshot : Type 0 where
  pub used_mib : ℤ
  pub temperature_c : ℤ
  pub memory_junction_c : ℤ

pub record RunSettings (F : Type 0) : Type 0 where
  pub config : Config
  pub engine : EngineSettings F
  -- `vram_caps_->emergency_mib`
  pub emergency_mib : Option ℤ
  pub gpu_cooldown_s : ℤ

-- What one turn reads: the time and the polls at its start, the sensors, the total memory of the device,
-- what it answers to a start, the text of a start's exception, what it answers to a new difficulty,
-- the time `after` the pause of a cooldown, the mailboxes at the call of the engine, the backends.
pub record Reading (F : Type 0) : Type 0 where
  pub moment : Moment F
  pub paper : PaperStatus F
  pub snapshot : Option GpuSnapshot
  pub total_bytes : ℕ
  pub device : Device
  pub start_error : Text
  pub replans : Device
  pub after : F
  pub boxes : List (Mailbox F)
  pub run : HashApiRequest → Text ⊎ HashApiResult F
  pub wait : List (Mailbox F) → List (Mailbox F)
  pub leftover : List (HashApiResult F)

-- The test of the handler of `run`.
unfoldable pub is_cuda_700 : Text → Bool
is_cuda_700 msg =
    contains (codes "illegal memory access") msg || contains (codes "CUDA error 700") msg

module _ (D : Double) (J : JsonLib D.F) where
  open D use {F, lit, of_int, add, lt, le}
  open J use {Doc}

  -- The supervisor with its engine; `both` is what the submit worker shares.
  pub record Rig : Type 0 where
    pub engine : Engine F
    pub both : Both D J
    pub cooldown_until : F
    pub reduce_lanes_after_cooldown : Bool
    pub shutting_down : Bool

  -- The settings that a method of the supervisor reads, with the engine's difficulty.
  unfoldable pub config_of : RunSettings F → Engine F → Config
  config_of s e = record s.config { engine_difficulty = some e.difficulty }

  unfoldable pub with_sup : Supervisor F Doc → Rig → Rig
  with_sup sup r = record r { both = (sup, r.both.1) }

  -- The replan of `refresh_network`, after the state has changed; `old` is the difficulty before.
  unfoldable pub replan_on_change : RunSettings F → Device → Option ℤ → Rig → Rig
  replan_on_change s device old r =
      let now = r.both.0.net.network_difficulty in
      let diff = value_or now (pos 0) in
      let changed = is_some old && not (holds old diff) in
      if changed && not (force_mine_mode s.config) && r.engine.started
      then record r { engine = (set_difficulty D s.engine device diff r.engine).1 }
      else r

  -- `refresh_network(false, true)`, `refresh_paper()` and `update_match_drain(t)`.
  unfoldable pub watch : RunSettings F → Reading F → Rig → Rig
  unfolding take_event replan_on_change
  watch s x r0 =
      let polled = take_event D J s.config (Event.polls x.moment x.paper false) r0.both in
      let r =
        replan_on_change s x.replans r0.both.0.net.network_difficulty
          (record r0 { both = polled }) in
      record r { both = take_event D J (config_of s r.engine) (Event.watches x.moment) r.both }

  unfoldable pub gpu_safety_tick : RunSettings F → F → Option GpuSnapshot → Rig → Bool × Rig
  gpu_safety_tick s now none r = (true, r)
  gpu_safety_tick s now (some g) r =
      let e =
        (update_thermal_batch_from_temp D s.engine g.temperature_c g.memory_junction_c now
          r.engine).1 in
      let hunted = record r { engine = e } in
      let stopped = record r { engine = stop e; cooldown_until = add now (lit 3 0) } in
      let emergency =
        is_some s.emergency_mib && (value_or s.emergency_mib (pos 0) ≤ℤ? g.used_mib) in
      if emergency then (false, stopped) else (true, hunted)

  -- The difficulty that the engine gets after it has started again.
  unfoldable pub set_wanted : RunSettings F → Device → Option ℤ → Engine F → Bool × Engine F
  set_wanted s device none e = (true, e)
  set_wanted s device (some m) e = set_difficulty D s.engine device m e

  -- The end of a cooldown.
  unfoldable pub restart : RunSettings F → Reading F → Rig → Rig
  unfolding set_wanted
  restart s x r =
      let e = if r.reduce_lanes_after_cooldown then (reduce_lane_cap r.engine).1 else r.engine in
      let (started, e1) = start D s.engine x.total_bytes x.device e in
      let wanted =
        if force_mine_mode s.config
        then some s.config.force_mine_memory_cost
        else r.both.0.net.network_difficulty in
      let (planned, e2) = set_wanted s x.replans wanted e1 in
      record r {
        engine = if started then e2 else e1;
        reduce_lanes_after_cooldown = false;
        cooldown_until =
            if started && planned then r.cooldown_until else add x.after (of_int s.gpu_cooldown_s);
      }

  -- A turn during a cooldown.
  unfoldable pub cool_down : RunSettings F → Reading F → Rig → Rig
  unfolding restart
  cool_down s x r = if le r.cooldown_until x.after && not r.engine.started then restart s x r else r

  -- The hashes of a batch and its hits.
  unfoldable pub count_batch : Engine F → MineBatchResult F → Supervisor F Doc → Supervisor F Doc
  count_batch e batch sup = record sup {
    stats =
        if pos 0 <ℤ? batch.hashes_done
        then record_hashes D sup.stats batch.hashes_done e.last_hashrate
        else sup.stats;
  }

  unfoldable pub take_batch : RunSettings F → Moment F → MineBatchResult F → Rig → Rig
  unfolding count_batch with_sup
  take_batch s t batch r =
      with_sup
        (handle_batch_hits D J (config_of s r.engine) t batch (count_batch r.engine batch r.both.0))
        r

  unfoldable pub set_parked : Bool → Rig → Rig
  unfolding with_sup
  set_parked b r =
      let sup = r.both.0 in with_sup (record sup { drain = record sup.drain { gpu_parked = b } }) r

  -- A turn while CUDA is parked.
  unfoldable pub park : RunSettings F → Reading F → Rig → Rig
  unfolding take_batch set_parked
  park s x r =
      let leftover = drain_pipeline D s.engine x.moment.clock x.leftover r.engine in
      if not r.both.0.drain.gpu_parked && r.engine.started
      then set_parked true (take_batch s x.moment leftover r)
      else r

  -- The queue counts that the XUNI throttle gets.
  unfoldable pub count_queue : RunSettings F → Moment F → Rig → Rig
  count_queue s t r =
      let count = λ (kind : Text). pos (pending_by_type r.both.0.store false kind) in
      record r {
        engine =
            if s.engine.xuni_mining_enabled && in_xuni_window t.minute
            then set_queue_counts (count (codes "XUNI")) (count (codes "XNM"))
                (count (codes "XBLK")) r.engine
            else set_queue_counts (pos 0) (pos 0) (pos 0) r.engine;
      }

  -- After `mine_batch`.
  unfoldable pub end_mine :
      RunSettings F → Moment F → Text ⊎ MineBatchResult F → Rig → Option Text × Rig
  unfolding take_batch with_sup
  end_mine s t (inl error) r = (some error, r)
  end_mine s t (inr batch) r =
      let sup = r.both.0 in
      let shown = record sup { stats = set_active_lanes sup.stats r.engine.lanes } in
      (none, take_batch s t batch (with_sup shown r))

  -- A batch, with the exception if there is one.
  unfoldable pub mine : RunSettings F → Reading F → Rig → Option Text × Rig
  unfolding set_parked count_queue end_mine
  mine s x r0 =
      let r = count_queue s x.moment (set_parked false r0) in
      let m = mine_batch D s.engine x.moment.minute x.moment.clock x.run x.wait r.engine x.boxes in
      let mined = record r { engine = m.engine } in end_mine s x.moment m.outcome mined

  -- The body of the `try`.
  unfoldable pub attempt : RunSettings F → Reading F → Rig → Option Text × Rig
  unfolding mine park
  attempt s x r0 =
      let (ready, e) =
        if r0.engine.started
        then (true, r0.engine)
        else start D s.engine x.total_bytes x.device r0.engine in
      let r = record r0 { engine = e } in
      let sup = r.both.0 in
      if not ready
      then (some x.start_error, r)
      else if should_park_cuda s.config sup.net sup.drain.active
      then (none, park s x r)
      else mine s x r

  -- The handler of the `try`.
  unfoldable pub on_error : F → Option Text × Rig → Rig
  on_error now (none, r) = r
  on_error now (some msg, r) =
      if is_cuda_700 msg
      then record r { engine = stop r.engine; cooldown_until = add now (lit 3 0) }
      else r

  unfoldable pub turn : RunSettings F → Reading F → Rig → Rig
  unfolding watch cool_down gpu_safety_tick attempt on_error
  turn s x r0 =
      let r = watch s x r0 in
      let (safe, checked) = gpu_safety_tick s x.moment.now x.snapshot r in
      if lt x.moment.now r.cooldown_until
      then cool_down s x r
      else if not safe
      then checked
      else on_error x.moment.now (attempt s x checked)

  -- The engine drained and stopped, then the queues, once.
  unfoldable pub graceful_shutdown : RunSettings F → Reading F → Rig → Rig
  unfolding take_batch take_event
  graceful_shutdown s x r0 =
      let t = record x.moment { shutting_down = true } in
      let leftover = drain_pipeline D s.engine t.clock x.leftover r0.engine in
      let r = if r0.engine.started then take_batch s t leftover r0 else r0 in
      let stopped = record r {
        engine = stop r.engine;
        both = take_event D J s.config (Event.shuts_down t) r.both;
        shutting_down = true;
      } in
      if r0.shutting_down then r0 else stopped

  -- What happens to the supervisor: turns of the mining thread, the shutdown, and the worker. A turn
  -- after the shutdown, which the loop no longer takes, is among them.
  pub data RunEvent : Type 0 where
    turns : Reading F → RunEvent
    stops : Reading F → RunEvent
    works : Event D J → RunEvent

  -- The calls that set `shutting_down_`.
  unfoldable pub begins_shutdown : Event D J → Bool
  begins_shutdown (Event.persists t) = true
  begins_shutdown (Event.shuts_down t) = true
  begins_shutdown (Event.finalizes t) = true
  begins_shutdown (Event.mines t batch) = false
  begins_shutdown (Event.works pool t paper is_running) = false
  begins_shutdown (Event.watches t) = false
  begins_shutdown (Event.polls t paper force) = false

  unfoldable pub take_run_event : RunSettings F → RunEvent → Rig → Rig
  unfolding turn graceful_shutdown take_event begins_shutdown
  take_run_event s (RunEvent.turns x) r = turn s x r
  take_run_event s (RunEvent.stops x) r = graceful_shutdown s x r
  take_run_event s (RunEvent.works e) r = record r {
    both = take_event D J (config_of s r.engine) e r.both;
  }

  -- Nothing is done once an exception of the worker has ended the process.
  unfoldable pub on_run_event : RunSettings F → RunEvent → Rig → Rig
  unfolding take_run_event
  on_run_event s e r = if r.both.0.ended then r else take_run_event s e r

  unfoldable pub run_session : RunSettings F → List RunEvent → Rig → Rig
  unfolding on_run_event
  run_session s [] r = r
  run_session s (e ∷ events) r = run_session s events (on_run_event s e r)
