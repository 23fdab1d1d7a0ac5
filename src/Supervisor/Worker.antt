-- ===== src/Supervisor/Worker.antt =====
-- src/app/supervisor.cpp: `service_pending_queue`, a whole turn of `submit_worker_loop`, and the bagging
-- at `graceful_shutdown` and `finalize_session`. The engine, the log and the helper threads that the
-- last two also stop are left out. What the pool answers in a turn is a function from hits to results.
pub mod Flushes
pub mod Rounds
pub mod Attempt
pub mod Jobs
use x1miner.Base.{ℕ, Bool, true, false, not, ◌&&◌, ◌||◌, List, [], ◌∷◌, ltb, if◌then◌else◌}
use x1miner.Base.Int.{ℤ, pos}
use x1miner.Base.Double.{Double, min_f}
use x1miner.Base.Text.{codes}
use x1miner.Common.{BlockHit, SubmitResult}
use x1miner.Common.Json.{JsonLib}
use x1miner.Queue.Policy.{in_xuni_submit_window, in_xuni_taper_window}
use x1miner.Queue.Store.{
  pending_count, pending_by_type, defer_all_to_next_start, flush, shutdown_pending_reason,
}
use x1miner.Supervisor.Oracle.{Config, live_submit_allowed}
use x1miner.Supervisor.Network.{PaperStatus}
use x1miner.Supervisor.Live.{
  has_thrown, Supervisor, Moment, drain_live_queue, bag_live_queue_to_store,
}
use x1miner.Supervisor.Flush.Send.{try_flush_pending}

-- What the worker remembers of its flushes.
pub record FlushTimes (F : Type 0) : Type 0 where
  pub was_in_xuni_window : Bool
  pub last_xuni_flush : F
  pub last_queue_flush : F

module _ (D : Double) (J : JsonLib D.F) where
  open D use {F, lit, sub, le}
  open J use {Doc}

  -- `flush_every`
  unfoldable pub flush_interval : Bool → Bool → ℕ → ℕ → F
  flush_interval draining taper pending_xuni pending_total =
      let by_size =
        if ltb 500 pending_total
        then lit 1 0
        else if ltb 50 pending_total
        then lit 2 0
        else lit 5 0 in
      let every = if draining then lit 0 0 else by_size in
      if taper && ltb 0 pending_xuni then min_f D every (lit 25 2) else every

  -- The first part: a flush when the submit window opens.
  unfoldable pub open_window :
      Config
      → (BlockHit F → SubmitResult)
      → Moment F
      → PaperStatus F
      → Supervisor F Doc × FlushTimes F
      → Supervisor F Doc × FlushTimes F
  open_window c pool t paper (s, w) =
      let submit_win = in_xuni_submit_window t.minute in
      let opened = record w { was_in_xuni_window = true } in
      let flushed = record opened { last_xuni_flush = t.now; last_queue_flush = t.now } in
      if submit_win && not w.was_in_xuni_window
      then if ltb 0 (pending_by_type s.store false (codes "XUNI"))
        then ((try_flush_pending D J c pool t paper false s).1, flushed)
        else (s, opened)
      else if not submit_win
      then (s, record w { was_in_xuni_window = false })
      else (s, w)

  unfoldable pub service_pending_queue :
      Config
      → (BlockHit F → SubmitResult)
      → Moment F
      → PaperStatus F
      → Supervisor F Doc × FlushTimes F
      → Supervisor F Doc × FlushTimes F
  unfolding open_window flush_interval has_thrown
  service_pending_queue c pool t paper (s0, w0) =
      let submit_win = in_xuni_submit_window t.minute in
      let taper = in_xuni_taper_window t.minute in
      let pending_xuni = pending_by_type s0.store false (codes "XUNI") in
      let pending_total = pending_count s0.store in
      let (s, w) = open_window c pool t paper (s0, w0) in
      let sent = (try_flush_pending D J c pool t paper false s).1 in
      let xuni_every = if taper then lit 5 1 else lit 2 0 in
      if has_thrown s0 s
      then (s, w)
      else if le (flush_interval s.drain.active taper pending_xuni pending_total)
          (sub t.now w.last_queue_flush)
      then (sent, record w { last_queue_flush = t.now })
      else if submit_win && ltb 0 pending_xuni && le xuni_every (sub t.now w.last_xuni_flush)
      then (sent, record w { last_xuni_flush = t.now })
      else (s, w)

  -- The end of the loop, when the worker is to stop.
  unfoldable pub end_worker :
      Config
      → (BlockHit F → SubmitResult)
      → Moment F
      → PaperStatus F
      → Supervisor F Doc
      → Supervisor F Doc
  end_worker c pool t paper s0 =
      let bagged = bag_live_queue_to_store D J t.clock shutdown_pending_reason s0 in
      let s = record bagged { store = defer_all_to_next_start J t.minute bagged.store } in
      if not t.shutting_down || live_submit_allowed D c s.net t.now
      then (try_flush_pending D J c pool t paper true s).1
      else s

  -- One turn; `is_running` is `submit_worker_running_` at its end.
  unfoldable pub worker_turn :
      Config
      → (BlockHit F → SubmitResult)
      → Moment F
      → PaperStatus F
      → Bool
      → Supervisor F Doc × FlushTimes F
      → Supervisor F Doc × FlushTimes F
  unfolding service_pending_queue end_worker has_thrown
  worker_turn c pool t paper is_running (s0, w0) =
      let drained = drain_live_queue D J c pool t s0 in
      let (s, w) =
        if t.shutting_down || has_thrown s0 drained
        then (drained, w0)
        else service_pending_queue c pool t paper (drained, w0) in
      if is_running || has_thrown s0 s then (s, w) else (end_worker c pool t paper s, w)

  -- `graceful_shutdown` on the queue and the store, before it stops the worker.
  unfoldable pub shutdown_queue : Moment F → Supervisor F Doc → Supervisor F Doc
  shutdown_queue t s =
      let bagged = bag_live_queue_to_store D J t.clock shutdown_pending_reason s in
      record bagged { store = flush J (defer_all_to_next_start J t.minute bagged.store) }

  -- `finalize_session`, likewise.
  unfoldable pub finalize_queue : Moment F → Supervisor F Doc → Supervisor F Doc
  finalize_queue t s =
      let bagged = bag_live_queue_to_store D J t.clock shutdown_pending_reason s in
      record bagged { store = defer_all_to_next_start J t.minute bagged.store }
