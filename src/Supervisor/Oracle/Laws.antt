-- ===== src/Supervisor/Oracle/Laws.antt =====
-- The oracles and the gate of CUDA of src/app/supervisor.cpp.
use x1miner.Base.{◌≡◌, arith, Bool, true, false, not, ◌&&◌, ◌||◌}
use x1miner.Base.Int.{ℤ, pos, ◌<ℤ?◌}
use x1miner.Supervisor.Oracle.{
  NetState, Config, holds, is_positive, bag_target_m, oracle_says_m, oracle_left_m, submit_target_m,
  should_park_cuda, have_oracle,
}

module _ {F : Type 0} (c : Config) (s : NetState F) where
  -- The oracles never say both that a positive m= is the network's and that it was left, and with
  -- an oracle at hand they say one of the two.
  pub oracles_agree :
      (m : ℤ)
      → ((oracle_says_m s m && oracle_left_m s m) ≡ false)
        × ((not ((pos 0 <ℤ? m) && have_oracle s) || oracle_says_m s m || oracle_left_m s m) ≡ true)
  unfolding oracle_says_m oracle_left_m
  oracles_agree m = ground arith

  -- CUDA is parked only while a match is drained, and then the m= that is submitted is the m= of the
  -- bag, which an oracle confirms when it is positive.
  pub parked_submits :
      (draining : Bool)
      → should_park_cuda c s draining ≡ true
      → (pos 0 <ℤ? bag_target_m c s) ≡ true
      → (draining ≡ true)
        × (submit_target_m c s ≡ bag_target_m c s)
        × (oracle_says_m s (bag_target_m c s) ≡ true)
  unfolding should_park_cuda submit_target_m oracle_says_m holds is_positive
  parked_submits draining h p = ground arith
