-- ===== src/Supervisor/Events.antt =====
-- src/app/supervisor.cpp: what the mining thread and the submit worker do to the supervisor, as a
-- sequence of events. One event is one call, or one turn of the worker.
pub mod Holds
pub mod Safety
use x1miner.Base.{Bool, true, false, List, [], ◌∷◌, Option, none, some, if◌then◌else◌}
use x1miner.Base.Double.{Double}
use x1miner.Common.{BlockHit, NetworkStatus, SubmitResult}
use x1miner.Common.Json.{JsonLib}
use x1miner.Supervisor.Oracle.{Config}
use x1miner.Supervisor.Network.{PaperStatus, refresh_network, refresh_paper}
use x1miner.Supervisor.Drain.{update_match_drain}
use x1miner.Supervisor.Live.{
  Supervisor, Moment, handle_hit, persist_queue_for_restart, is_none_left,
}
use x1miner.Supervisor.Worker.{FlushTimes, worker_turn, shutdown_queue, finalize_queue}
use x1miner.Mining.Wave.{MineBatchResult}

module _ (D : Double) (J : JsonLib D.F) where
  open D use {F}
  open J use {Doc}

  -- The supervisor with what its worker remembers.
  abbrev pub Both : Type 0
  Both = Supervisor F Doc × FlushTimes F

  pub data Event : Type 0 where
    mines : Moment F → MineBatchResult F → Event
    works : (BlockHit F → SubmitResult) → Moment F → PaperStatus F → (is_running : Bool) → Event
    watches : Moment F → Event
    polls : Moment F → PaperStatus F → (force : Bool) → Event
    persists : Moment F → Event
    shuts_down : Moment F → Event
    finalizes : Moment F → Event

  unfoldable pub handle_hits :
      Config → Moment F → List (BlockHit F) → Supervisor F Doc → Supervisor F Doc
  handle_hits c t [] s = s
  handle_hits c t (hit ∷ hits) s = handle_hits c t hits (handle_hit D J c t hit s)

  unfoldable pub handle_batch_hits :
      Config → Moment F → MineBatchResult F → Supervisor F Doc → Supervisor F Doc
  unfolding handle_hits
  handle_batch_hits c t batch s =
      if is_none_left batch.hits
      then elim batch.hit as (λ _. Supervisor F Doc) [
        | none ↦ s
        | some hit ↦ handle_hit D J c t hit s
      ]
      else handle_hits c t batch.hits s

  unfoldable pub take_event : Config → Event → Both → Both
  unfolding handle_batch_hits
  take_event c (Event.mines t batch) (s, w) = (handle_batch_hits c t batch s, w)
  take_event c (Event.works pool t paper is_running) (s, w) =
      worker_turn D J c pool t paper is_running (s, w)
  take_event c (Event.watches t) (s, w) =
      let (drain, store) = update_match_drain D J c s.net t.now s.drain s.store in
      (record s { drain = drain; store = store }, w)
  take_event c (Event.polls t paper force) (s, w) = (
    record s { net = refresh_paper D paper t.now (refresh_network D force c t.poll t.now s.net).1 },
    w,
  )
  take_event c (Event.persists t) (s, w) = (persist_queue_for_restart D J t s, w)
  take_event c (Event.shuts_down t) (s, w) = (shutdown_queue D J t s, w)
  take_event c (Event.finalizes t) (s, w) = (finalize_queue D J t s, w)

  -- No call is made once an exception has ended the process.
  unfoldable pub on_event : Config → Event → Both → Both
  unfolding take_event
  on_event c e x = if x.0.ended then x else take_event c e x

  unfoldable pub run_events : Config → List Event → Both → Both
  unfolding on_event
  run_events c [] x = x
  run_events c (e ∷ events) x = run_events c events (on_event c e x)
