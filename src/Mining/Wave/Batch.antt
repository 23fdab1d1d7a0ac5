-- ===== src/Mining/Wave/Batch.antt =====
-- A whole call of `mine_batch` of src/mining/cuda_engine.cpp on an engine with several lanes.
use x1miner.Base.{
  ℕ, ◌≡◌, ◌⊎◌, refl, sym, ap, ◌∙◌, subst, inl, inr, Bool, true, false, not, ◌&&◌, ◌||◌, Option,
  none, some, List, [], ◌∷◌, map, ltb, by_if, arith, length, take, tally, All,
}
use x1miner.Base.Int.{ℤ, pos, pos_part, ◌≤ℤ?◌, ◌==ℤ◌}
use x1miner.Base.Double.{Double}
use x1miner.Base.Text.{Text}
use x1miner.Base.Sort.{sort_by, IsOrdered, All-sort_by, tally-sort_by, sort_by-IsOrdered}
use x1miner.Common.{BlockHit}
use x1miner.HashApi.Types.{HashApiRequest, HashApiResult}
use x1miner.Queue.Policy.{in_xuni_window}
use x1miner.Mining.Engine.{EngineSettings, Engine, ensure_lane_workers}
use x1miner.Mining.Engine.Xuni.{compute_allow_xuni_base, queue_paused}
use x1miner.Mining.Lane.{Mailbox, take_result}
use x1miner.Mining.Wave.{
  MineBatchResult, empty_result, hit_rank, hit_before, with_hps, best_with_hps, on_first,
  absorb_lanes, finish_batch, end_batch, Mined, mine_batch,
}
use x1miner.Mining.Wave.Hits.{SameBlocks, IsBest, Keeps, before_asym, before_behind}
use x1miner.Mining.Wave.Laws.{
  wave_matches, wave_attempts, good_lanes, did_throw, Absorbed, Given, lanes-Given,
}

module _ {F : Type 0} where
  -- `compute_allow_xuni_base` changes no more than its two fields.
  pub compute_only :
      (s : EngineSettings F) (minute : ℕ) (e : Engine F)
      → let t = (compute_allow_xuni_base s minute e).1 in
        t ≡ record e { batch_seq = t.batch_seq; xuni_queue_paused = t.xuni_queue_paused }
  unfolding compute_allow_xuni_base
  compute_only s minute e =
      let P : Bool × Engine F → Type 0 = λ z.
        z.1 ≡ record e { batch_seq = z.1.batch_seq; xuni_queue_paused = z.1.xuni_queue_paused } in
      by_if P (not s.xuni_mining_enabled) refl (
        by_if P (not (in_xuni_window minute)) refl
          (by_if P (queue_paused s e) refl (by_if P (s.xuni_max_lanes ≤ℤ? pos 0) refl refl)))

  -- A batch is mined, by several lanes.
  abbrev pub runs_lanes : Engine F → Bool
  runs_lanes e =
      e.started
      && not (e.batch_per_lane ≤ℤ? pos 0)
      && not (e.lanes_impl ==ℤ pos 0)
      && not (e.lanes ==ℤ pos 1)

  hps-tally :
      (q : Text → Text → Text → Bool) (hps : F) (hits : List (BlockHit F))
      → tally (λ h. q h.key h.hash_str h.block_type) (map (with_hps hps) hits)
        ≡ tally (λ h. q h.key h.hash_str h.block_type) hits
  unfolding with_hps
  hps-tally q hps [] = refl
  hps-tally q hps (h ∷ hits) = ground (arith, hps-tally q hps hits)

  hps-All :
      (b : BlockHit F) (hps : F) (hits : List (BlockHit F))
      → All (λ g. ltb (hit_rank g) (hit_rank b) ≡ false) hits
      → All (λ g. ltb (hit_rank g) (hit_rank (with_hps hps b)) ≡ false) (map (with_hps hps) hits)
  unfolding with_hps hit_rank
  hps-All b hps [] v = tt
  hps-All b hps (h ∷ hits) v = (v.0, hps-All b hps hits v.1)

  best_with_hps-IsBest :
      (best : Option (BlockHit F)) (hps : F) (hits : List (BlockHit F))
      → IsBest best hits
      → IsBest (best_with_hps hps best) (sort_by hit_before (map (with_hps hps) hits))
  unfolding best_with_hps
  best_with_hps-IsBest none hps hits v =
      subst (λ l. sort_by hit_before (map (with_hps hps) l) ≡ []) (sym v) (unfold sort_by in refl)
  best_with_hps-IsBest (some b) hps hits v =
      All-sort_by hit_before (λ g. ltb (hit_rank g) (hit_rank (with_hps hps b)) ≡ false) _
        (hps-All b hps hits v)

module _ (D : Double) where
  open D use {F}

  -- What the batch reports of the lanes' results.
  abbrev pub Reported : List (Mailbox F) → MineBatchResult F → Type 0
  Reported lanes out =
      (out.hashes_done ≡ pos (wave_attempts lanes))
      × SameBlocks out.hits (wave_matches lanes)
      × IsOrdered hit_before out.hits
      × IsBest out.hit out.hits

  abbrev Ended : ℕ → List (Mailbox F) → Mined D → Type 0
  Ended lanes waited m =
      (m.boxes ≡ on_first (good_lanes lanes waited) take_result waited)
      × (did_throw m.outcome ≡ ltb (good_lanes lanes waited) (length (take lanes waited)))
      × elim m.outcome as (λ _. Type 0) [
        | inl _ ↦ Unit
        | inr out ↦ Reported (take lanes waited) out
      ]

  finish-Reported :
      (lanes : List (Mailbox F)) (out : MineBatchResult F) (total : F)
      → Keeps out (wave_matches lanes)
      → out.hashes_done ≡ pos (wave_attempts lanes)
      → Reported lanes (finish_batch D out total)
  unfolding finish_batch
  finish-Reported lanes out total v h =
      let hits = map (with_hps total) out.hits in
      (
        h,
        λ q.
            tally-sort_by hit_before (λ b. q b.key b.hash_str b.block_type) hits
            ∙ hps-tally q total out.hits
            ∙ v.blocks q,
        sort_by-IsOrdered hit_before (λ a b. before_asym b a) before_behind hits,
        best_with_hps-IsBest out.hit total out.hits v.best,
      )

  end-Ended :
      (s : EngineSettings F) (difficulty : ℤ) (now : Text) (e : Engine F) (lanes : ℕ)
      (waited : List (Mailbox F)) (y : (Text ⊎ (MineBatchResult F × F)) × List (Mailbox F))
      → Given D s difficulty now lanes waited [] 0 y
      → Ended lanes waited (end_batch D e y)
  unfolding end_batch
  end-Ended s difficulty now e lanes waited (inl error, after) (left, threw, _) = (left, threw, tt)
  end-Ended s difficulty now e lanes waited (inr (out, total), after) (left, threw, sum) = (
    left,
    threw,
    finish-Reported (take lanes waited) out total sum.keeps (sum.hashes ∙ ap pos (omega arith)),
  )

  nothing-Absorbed :
      (s : EngineSettings F) (difficulty : ℤ) (now : Text)
      → Absorbed D s difficulty now (empty_result, D.lit 0 0) [] 0
  nothing-Absorbed s difficulty now = record {
    keeps = record { blocks = λ q. refl; best = refl };
    hashes = refl;
  }

  batch-Ended :
      (s : EngineSettings F) (minute : ℕ) (now : Text)
      (run : HashApiRequest → Text ⊎ HashApiResult F) (waited : List (Mailbox F)) (e : Engine F)
      (boxes : List (Mailbox F))
      → runs_lanes e ≡ true
      → Ended (pos_part e.lanes) waited (mine_batch D s minute now run (λ _. waited) e boxes)
  unfolding mine_batch
  batch-Ended s minute now run waited e boxes h =
      let t = (compute_allow_xuni_base s minute e).1 in
      let same_lanes : t.lanes ≡ e.lanes =
        ap (λ (x : Engine F). x.lanes) (compute_only s minute e) in
      let off : (not e.started || (e.batch_per_lane ≤ℤ? pos 0) || (e.lanes_impl ==ℤ pos 0))
          ≡ false =
        ground (arith, h) in
      let many : (t.lanes ==ℤ pos 1) ≡ false = ground (arith, h, same_lanes) in
      let after : Engine F =
        ensure_lane_workers
          (record t { last_allow_xuni = (compute_allow_xuni_base s minute e).0 }) in
      let lanes = pos_part t.lanes in
      let y = absorb_lanes D s t.difficulty now lanes waited (empty_result, D.lit 0 0) in
      let given : Given D s t.difficulty now lanes waited [] 0 y =
        lanes-Given D s t.difficulty now lanes waited _ [] 0
          (nothing-Absorbed s t.difficulty now) in
      rw (off, many)
        (subst (λ n. Ended (pos_part n) waited (end_batch D after y)) same_lanes
          (end-Ended s t.difficulty now after lanes waited y given))

  -- On an engine that runs several lanes, whatever mailboxes the wait for the workers ends with: the
  -- batch takes the next result of each lane up to the first that is a failed one (an error, or not
  -- `ok`), and throws exactly when there is one; the results from that one on stay untaken.
  pub batch_takes :
      (s : EngineSettings F) (minute : ℕ) (now : Text)
      (run : HashApiRequest → Text ⊎ HashApiResult F) (waited : List (Mailbox F)) (e : Engine F)
      (boxes : List (Mailbox F))
      → runs_lanes e ≡ true
      → let m = mine_batch D s minute now run (λ _. waited) e boxes in
        let lanes = pos_part e.lanes in
        let good = good_lanes lanes waited in
        (m.boxes ≡ on_first good take_result waited)
        × (did_throw m.outcome ≡ ltb good (length (take lanes waited)))
  batch_takes s minute now run waited e boxes h =
      let (left, threw, _) = batch-Ended s minute now run waited e boxes h in (left, threw)

  reported :
      (lanes : List (Mailbox F)) (z : Text ⊎ MineBatchResult F) (out : MineBatchResult F)
      → z ≡ inr out
      → elim z as (λ _. Type 0) [ inl _ ↦ Unit | inr o ↦ Reported lanes o ]
      → Reported lanes out
  reported lanes z out same h =
      subst (λ y. elim y as (λ _. Type 0) [ inl _ ↦ Unit | inr o ↦ Reported lanes o ]) same h

  -- A batch of several lanes that returns: its hashes are the attempts of all lanes; its hits are
  -- exactly the matches of all lanes that have a 64-digit hexadecimal key and a kind other than OTHER,
  -- as often as they occur, with their key, hash and kind; they are sorted by rank and then by key;
  -- and the single hit is absent only where there are none, and no hit has a better rank.
  pub batch_reports :
      (s : EngineSettings F) (minute : ℕ) (now : Text)
      (run : HashApiRequest → Text ⊎ HashApiResult F) (waited : List (Mailbox F)) (e : Engine F)
      (boxes : List (Mailbox F)) (out : MineBatchResult F)
      → runs_lanes e ≡ true
      → (mine_batch D s minute now run (λ _. waited) e boxes).outcome ≡ inr out
      → Reported (take (pos_part e.lanes) waited) out
  batch_reports s minute now run waited e boxes out h returned =
      reported (take (pos_part e.lanes) waited) _ out returned
        (batch-Ended s minute now run waited e boxes h).2
