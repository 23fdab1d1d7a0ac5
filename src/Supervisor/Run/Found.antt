-- ===== src/Supervisor/Run/Found.antt =====
-- src/app/supervisor.cpp: the way of a hit from the batch that the mining thread gets on.
use mathlib.Core.List.{Memᴰ}
use mathlib.Core.List.Memᴰ.{head, tail}
use x1miner.Base.{All, ◌≡◌, refl, subst, true, false, some, inr, List, [], ◌∷◌, by_case, not_both}
use x1miner.Base.Double.{Double}
use x1miner.Common.{BlockHit}
use x1miner.Common.Json.{JsonLib}
use x1miner.Common.Stats.{set_active_lanes}
use x1miner.Mining.Encode.{is_hex64_key, prepare_hit_for_submit}
use x1miner.Mining.Encode.Prepare.{prepare_hit_for_submit-encoded}
use x1miner.Mining.Engine.{Engine}
use x1miner.Mining.Wave.{MineBatchResult, Mined, mine_batch}
use x1miner.Supervisor.Oracle.{Config, mining_difficulty}
use x1miner.Supervisor.Live.{Supervisor, Moment, handle_hit, is_none_left}
use x1miner.Supervisor.Worker.{FlushTimes}
use x1miner.Supervisor.Events.{handle_hits, handle_batch_hits, run_events}
use x1miner.Supervisor.Events.Holds.{IsHeld, IsSteady, handled-Holds}
use x1miner.Supervisor.Events.Safety.{
  handled_all, aside-Holds, encoded_not_empty, handled_hit-IsHeld,
}
use x1miner.Supervisor.Run.{
  RunSettings, Reading, Rig, config_of, count_queue, set_parked, with_sup, count_batch, take_batch,
  end_mine, mine, RunEvent, run_session,
}
use x1miner.Supervisor.Run.Steady.{parked-Keeps}
use x1miner.Supervisor.Run.Session.{
  BacksTurn, PrintsTurn, run_session-Keeps, queue-Keeps, end_mine-Keeps,
}

module _ (D : Double) (J : JsonLib D.F) where
  open D use {F}
  open J use {Doc}

  -- The difficulty of the engine, or the forced one, does not change with the network.
  abbrev Fixed : Config → Type 0
  Fixed c = (s t : Supervisor F Doc) → mining_difficulty c s.net ≡ mining_difficulty c t.net

  -- What `handle_hit` prepares.
  abbrev pub PreparedAs : Config → Supervisor F Doc → BlockHit F → BlockHit F → Type 0
  PreparedAs c s hit ready =
      prepare_hit_for_submit hit c.salt_hex (mining_difficulty c s.net) c.time_cost c.parallelism
      ≡ some ready

  all-IsHeld :
      (c : Config) (t : Moment F) (w : FlushTimes F) (hits : List (BlockHit F))
      (hit ready : BlockHit F) (s : Supervisor F Doc)
      → Fixed c
      → IsSteady D J s
      → Memᴰ hit hits
      → is_hex64_key hit.key ≡ true
      → PreparedAs c s hit ready
      → IsHeld D J ready.hash_str (handle_hits D J c t hits s)
  unfolding handle_hits run_events
  all-IsHeld c t w [] hit ready s fixed v m key e = elim m [ ]
  all-IsHeld c t w (found ∷ hits) hit ready s fixed v (head same) key e =
      let s' = handle_hit D J c t found s in
      let key' = subst (λ (h : BlockHit F). is_hex64_key h.key ≡ true) same key in
      let e' = subst (λ (h : BlockHit F). PreparedAs c s h ready) same e in
      let ne = encoded_not_empty D J ready.hash_str (
        prepare_hit_for_submit-encoded found ready c.salt_hex (mining_difficulty c s.net)
          c.time_cost c.parallelism e') in
      let (held, v') = handled_hit-IsHeld D J c t found ready [] s w tt v key' e' in
      (handled_all D J c t hits s').held v' ready.hash_str ne held
  all-IsHeld c t w (other ∷ hits) hit ready s fixed v (tail m) key e =
      let s' = handle_hit D J c t other s in
      all-IsHeld c t w hits hit ready s' fixed ((handled-Holds D J c t other s).steady v) m key (
        subst (λ d. prepare_hit_for_submit hit c.salt_hex d c.time_cost c.parallelism ≡ some ready)
          (fixed s s') e)

  -- The engine as `mine_batch` gets it.
  abbrev pub ready_rig : RunSettings F → Reading F → Rig D J → Rig D J
  ready_rig s x r = count_queue D J s x.moment (set_parked D J false r)

  abbrev pub batch_of : RunSettings F → Reading F → Rig D J → Mined D
  batch_of s x r =
      mine_batch D s.engine x.moment.minute x.moment.clock x.run x.wait (ready_rig s x r).engine
        x.boxes

  some_left :
      (hits : List (BlockHit F)) (hit : BlockHit F) → Memᴰ hit hits → is_none_left hits ≡ false
  unfolding is_none_left
  some_left [] hit m = elim m [ ]
  some_left (_ ∷ _) hit m = refl

  engine-Fixed : (s : RunSettings F) (e : Engine F) → Fixed (config_of D J s e)
  unfolding config_of mining_difficulty
  engine-Fixed s e a b = refl

  end_mine-IsHeld :
      (s : RunSettings F) (t : Moment F) (batch : MineBatchResult F) (hit ready : BlockHit F)
      (r : Rig D J)
      → IsSteady D J r.both.0
      → Memᴰ hit batch.hits
      → is_hex64_key hit.key ≡ true
      → PreparedAs (config_of D J s r.engine) r.both.0 hit ready
      → let after = (end_mine D J s t (inr batch) r).1.both.0 in
        IsHeld D J ready.hash_str after × IsSteady D J after
  unfolding end_mine take_batch with_sup count_batch handle_batch_hits
  end_mine-IsHeld s t batch hit ready r v m key e =
      let c = config_of D J s r.engine in
      let sup = r.both.0 in
      let shown : Supervisor F Doc = record sup {
        stats = set_active_lanes sup.stats r.engine.lanes;
      } in
      let u = count_batch D J r.engine batch shown in
      let v' : IsSteady D J u = (aside-Holds D J sup u refl refl refl).steady v in
      let P : Supervisor F Doc → Type 0 = λ z. IsHeld D J ready.hash_str z in
      (
        by_case P (is_none_left batch.hits) (λ h. absurd (not_both (some_left batch.hits hit m) h))
            (λ h.
              all-IsHeld c t r.both.1 batch.hits hit ready u (engine-Fixed s r.engine) v' m key e),
        (end_mine-Keeps D J Unit s t (inr batch) r).holds.steady v,
      )

  -- A hit of a batch that the mining thread gets, with a proper key, and prepared as `ready` for the
  -- difficulty of the engine: from a supervisor whose store is valid and whose bagged and queued hits are
  -- encoded, after the batch and any further turns, shutdowns and events of the worker in which the
  -- JSON library can print the pool's answers, the digest of `ready` is in the bag or in the live queue, or a hit with it was accepted and reported.
  pub mined_hit-IsHeld :
      (s : RunSettings F) (x : Reading F) (r : Rig D J) (batch : MineBatchResult F)
      (hit ready : BlockHit F) (later : List (RunEvent D J))
      → All (PrintsTurn D J) later
      → IsSteady D J r.both.0
      → (batch_of s x r).outcome ≡ inr batch
      → Memᴰ hit batch.hits
      → is_hex64_key hit.key ≡ true
      → PreparedAs (config_of D J s (batch_of s x r).engine) r.both.0 hit ready
      → IsHeld D J ready.hash_str (run_session D J s later (mine D J s x r).1).both.0
  unfolding mine
  mined_hit-IsHeld s x r batch hit ready later prints v got m key e =
      let u : Rig D J = record (ready_rig s x r) { engine = (batch_of s x r).engine } in
      let steady : IsSteady D J u.both.0 =
        (queue-Keeps D J Unit s x.moment (set_parked D J false r)).holds.steady
          ((parked-Keeps D J Unit s false r).holds.steady v) in
      let c = config_of D J s u.engine in
      let e' : PreparedAs c u.both.0 hit ready =
        subst (λ d. prepare_hit_for_submit hit c.salt_hex d c.time_cost c.parallelism ≡ some ready)
          (engine-Fixed s u.engine r.both.0 u.both.0) e in
      let (held, v') = end_mine-IsHeld s x.moment batch hit ready u steady m key e' in
      let t = (end_mine D J s x.moment (inr batch) u).1 in
      let ne = encoded_not_empty D J ready.hash_str (
        prepare_hit_for_submit-encoded hit ready c.salt_hex (mining_difficulty c r.both.0.net)
          c.time_cost c.parallelism e) in
      rw got (
        (run_session-Keeps D J (All (BacksTurn D J) later) s later t (λ b. b) prints).holds.held v'
          ready.hash_str ne held)
