-- ===== src/Supervisor/Drain/Laws.antt =====
-- `update_match_drain` of src/app/supervisor.cpp.
use x1miner.Base.{◌≡◌, ◌⊎◌, arith, true, false}
use x1miner.Base.Int.{pos, ◌≤ℤ?◌}
use x1miner.Base.Double.{Double}
use x1miner.Common.Json.{JsonLib}
use x1miner.Queue.Store.{BlockStore, pending_eligible_m}
use x1miner.Supervisor.Oracle.{NetState, Config, bag_target_m, oracle_says_m, oracle_left_m}
use x1miner.Supervisor.Oracle.Laws.{oracles_agree}
use x1miner.Supervisor.Drain.{DrainState, update_match_drain}

module _ (D : Double) (J : JsonLib D.F) where
  open D use {F}
  open J use {Doc}

  -- After an update the window is open only when draining is enabled and the oracles have not left
  -- the m= of the bag. A window that was closed opens only when an oracle says that m= and the bag
  -- has the least number of hits for it.
  pub update_match_drain_open :
      (c : Config) (s : NetState F) (now : F) (d : DrainState F) (store : BlockStore F Doc)
      → (update_match_drain D J c s now d store).0.active ≡ true
      → let m = bag_target_m c s in
        (c.match_drain_enabled ≡ true)
        × (oracle_left_m s m ≡ false)
        × ((d.active ≡ true)
            ⊎ ((oracle_says_m s m ≡ true)
                × ((c.match_drain_min_queue ≤ℤ? pos (pending_eligible_m store m m)) ≡ true)))
  unfolding update_match_drain
  update_match_drain_open c s now d store h =
      ground (arith, (oracles_agree c s (bag_target_m c s)).0)
