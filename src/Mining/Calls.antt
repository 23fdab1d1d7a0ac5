-- ===== src/Mining/Calls.antt =====
-- The public calls of `CudaEngine` of src/mining/cuda_engine.cpp, in any sequence. Each comes with
-- what the device and the clock answer.
use x1miner.Base.{
  ◌≡◌, none, All, ℕ, ◌⊎◌, refl, sym, subst, arith, not, ◌&&◌, ◌||◌, List, [], ◌∷◌, by_if, not_both,
  Bool-cases, inl, inr,
}
use x1miner.Base.Int.{ℤ, pos, ◌≤ℤ◌, ◌<ℤ?◌, ◌≤ℤ?◌, ◌==ℤ◌}
use x1miner.Base.Double.{Double}
use x1miner.Base.Text.{Text}
use x1miner.HashApi.Types.{HashApiRequest, HashApiResult}
use x1miner.Efficiency.Thermal.{clamp_float, apply_batch_scale}
use x1miner.Efficiency.Hunt.{HuntState, HuntResult, hunt_thermal_scale}
use x1miner.Efficiency.Vram.{VramCaps}
use x1miner.Mining.Engine.{
  EngineSettings, Engine, Device, new_engine, ensure_lane_workers, set_vram_caps, start, stop,
  set_difficulty, reduce_lane_cap, add_lane_cap, restore_lane_cap_if_cool,
}
use x1miner.Mining.Engine.Thermal.{
  set_thermal_batch_scale, is_close, start_hunt, hunt_input, take_hunt,
  update_thermal_batch_from_temp,
}
use x1miner.Mining.Engine.Xuni.{set_queue_counts, compute_allow_xuni_base}
use x1miner.Mining.Engine.Laws.{
  IsSound, ensured, reduce_lane_cap-IsSound, add_lane_cap-IsSound, stop-IsSound,
}
use x1miner.Mining.Engine.Plans.{start-IsSound, set_difficulty-IsSound, restore-IsSound, scale_low}
use x1miner.Mining.Lane.{Mailbox}
use x1miner.Mining.Wave.{Mined, end_batch, mine_batch}
use x1miner.Mining.Wave.Batch.{compute_only}

module _ (D : Double) where
  open D use {F}

  pub data EngineCall : Type 0 where
    starts : (total_bytes : ℕ) → Device → EngineCall
    stops : EngineCall
    sets_caps : VramCaps F → EngineCall
    sets_difficulty : Device → (difficulty : ℤ) → EngineCall
    sets_counts : (xuni xnm xblk : ℤ) → EngineCall
    reduces_cap : EngineCall
    adds_cap : EngineCall
    restores_cap : Device → (temperature_c memory_junction_c : ℤ) → EngineCall
    sets_scale : F → EngineCall
    reads_temperature : (temperature_c memory_junction_c : ℤ) (now : F) → EngineCall
    mines :
        (minute : ℕ) (now : Text) (run : HashApiRequest → Text ⊎ HashApiResult F)
        (wait : List (Mailbox F) → List (Mailbox F)) (boxes : List (Mailbox F))
        → EngineCall

  module _ (s : EngineSettings F) where
    unfoldable pub call : EngineCall → Engine F → Engine F
    call (starts total device) e = (start D s total device e).1
    call stops e = stop e
    call (sets_caps caps) e = set_vram_caps caps e
    call (sets_difficulty device difficulty) e = (set_difficulty D s device difficulty e).1
    call (sets_counts xuni xnm xblk) e = set_queue_counts xuni xnm xblk e
    call reduces_cap e = (reduce_lane_cap e).1
    call adds_cap e = (add_lane_cap e).1
    call (restores_cap device t j) e = (restore_lane_cap_if_cool D s device t j e).2
    call (sets_scale scale) e = (set_thermal_batch_scale D s scale e).1
    call (reads_temperature t j now) e = (update_thermal_batch_from_temp D s t j now e).1
    call (mines minute now run wait boxes) e = (mine_batch D s minute now run wait e boxes).engine

    unfoldable pub run_calls : List EngineCall → Engine F → Engine F
    unfolding call
    run_calls [] e = e
    run_calls (c ∷ calls) e = run_calls calls (call c e)

    -- What a thermal reading may change.
    retuned :
        (e : Engine F) (b : ℤ) (scale : F) (idle : ℤ) (hunt : HuntState F)
        → IsSound e
        → (pos 1 ≤ℤ e.planned_batch_per_lane → pos 1 ≤ℤ b)
        → IsSound (record e {
          batch_per_lane = b;
          thermal_batch_scale = scale;
          thermal_idle_ms = idle;
          thermal_hunt = hunt;
        })
    retuned e b scale idle hunt v h =
        let w = v.sized in
        record {
          sized = record {
            cap_low = w.cap_low;
            cap_high = w.cap_high;
            lanes_low = w.lanes_low;
            lanes_high = w.lanes_high;
            batch = h;
          };
          target = v.target;
          pooled = v.pooled;
          ready = v.ready;
        }

    set_scale-IsSound :
        (scale : F) (e : Engine F) → IsSound e → IsSound (set_thermal_batch_scale D s scale e).1
    unfolding set_thermal_batch_scale
    set_scale-IsSound scale e v =
        let floor = clamp_float D s.gpu_thermal_batch_min_scale (D.lit 20 2) (D.lit 1 0) in
        let new_scale = clamp_float D scale floor (D.lit 1 0) in
        let batch = apply_batch_scale D e.planned_batch_per_lane new_scale in
        let P : F × Engine F → Type 0 = λ z. IsSound z.1 in
        by_if P (is_close D new_scale e.thermal_batch_scale) v (
          by_if IsSound (pos 0 <ℤ? e.planned_batch_per_lane)
            (retuned e batch new_scale e.thermal_idle_ms (record e.thermal_hunt { batch = batch }) v
              (λ h. scale_low D e.planned_batch_per_lane new_scale h))
            (retuned e e.batch_per_lane new_scale e.thermal_idle_ms e.thermal_hunt v v.sized.batch))

    start_hunt-IsSound : (e : Engine F) → IsSound e → IsSound (start_hunt D s e)
    unfolding start_hunt
    start_hunt-IsSound e v =
        let scale = clamp_float D s.gpu_thermal_start_scale (D.lit 50 2) (D.lit 1 0) in
        let batch = apply_batch_scale D e.planned_batch_per_lane scale in
        by_if IsSound (e.thermal_hunt.batch ≤ℤ? pos 0)
          (retuned e batch scale e.thermal_idle_ms
            (record e.thermal_hunt { batch = batch; floor = batch; last_ok = batch }) v
            (λ h. scale_low D e.planned_batch_per_lane scale h))
          v

    take_hunt-IsSound :
        (r : HuntResult F) (hunt : HuntState F) (e : Engine F)
        → IsSound e
        → IsSound (take_hunt D (r, hunt) e).1
    unfolding take_hunt
    take_hunt-IsSound r hunt e v =
        elim (Bool-cases ((pos 0 <ℤ? r.batch) && not (r.batch ==ℤ e.batch_per_lane))) [
          | inl moves ↦ rw moves (
              retuned e r.batch (D.div (D.of_int r.batch) (D.of_int e.planned_batch_per_lane))
                r.idle_ms hunt v (λ _. ground (arith, moves)))
          | inr stays ↦
              rw stays
                (retuned e e.batch_per_lane e.thermal_batch_scale r.idle_ms hunt v v.sized.batch)
        ]

    reading-IsSound :
        (t j : ℤ) (now : F) (e : Engine F)
        → IsSound e
        → IsSound (update_thermal_batch_from_temp D s t j now e).1
    unfolding update_thermal_batch_from_temp
    reading-IsSound t j now e v =
        let P : HuntResult F × Engine F → Type 0 = λ z. IsSound z.1 in
        let u = start_hunt D s e in
        let (r, hunt) = hunt_thermal_scale D (hunt_input D s t j now u) u.thermal_hunt in
        by_if P (not s.gpu_thermal_batch_enabled || (e.planned_batch_per_lane ≤ℤ? pos 0)) v
          (take_hunt-IsSound r hunt u (start_hunt-IsSound e v))

    end-IsSound :
        (e : Engine F) (y : (Text ⊎ _) × List (Mailbox F))
        → IsSound e
        → IsSound (end_batch D e y).engine
    unfolding end_batch
    end-IsSound e (inl error, boxes) v = v
    end-IsSound e (inr (out, total), boxes) v = v

    compute-IsSound :
        (minute : ℕ) (e : Engine F) → IsSound e → IsSound (compute_allow_xuni_base s minute e).1
    compute-IsSound minute e v = subst IsSound (sym (compute_only s minute e)) v

    mine-IsSound :
        (minute : ℕ) (now : Text) (run : HashApiRequest → Text ⊎ HashApiResult F)
        (wait : List (Mailbox F) → List (Mailbox F)) (boxes : List (Mailbox F)) (e : Engine F)
        → IsSound e
        → IsSound (mine_batch D s minute now run wait e boxes).engine
    unfolding mine_batch
    mine-IsSound minute now run wait boxes e v =
        let t = (compute_allow_xuni_base s minute e).1 in
        let w = compute-IsSound minute e v in
        let allowed = (compute_allow_xuni_base s minute e).0 in
        let u : Engine F = record t { last_allow_xuni = allowed } in
        let P : Mined D → Type 0 = λ m. IsSound m.engine in
        by_if P (not e.started || (e.batch_per_lane ≤ℤ? pos 0) || (e.lanes_impl ==ℤ pos 0)) v (
          by_if P (t.lanes ==ℤ pos 1) (end-IsSound u _ w)
            (end-IsSound (ensure_lane_workers u) _ (ensured u w.sized w.target w.ready)))

    -- Each backend that a new plan of a running engine asks for can be made.
    unfoldable pub Backs : EngineCall → Type 0
    Backs (starts total device) = Unit
    Backs stops = Unit
    Backs (sets_caps caps) = Unit
    Backs (sets_difficulty device difficulty) = device.fails_after ≡ none
    Backs (sets_counts xuni xnm xblk) = Unit
    Backs reduces_cap = Unit
    Backs adds_cap = Unit
    Backs (restores_cap device t j) = device.fails_after ≡ none
    Backs (sets_scale scale) = Unit
    Backs (reads_temperature t j now) = Unit
    Backs (mines minute now run wait boxes) = Unit

    pub call-IsSound : (c : EngineCall) (e : Engine F) → Backs c → IsSound e → IsSound (call c e)
    unfolding call Backs
    call-IsSound (starts total device) e b v = start-IsSound D s total device e v
    call-IsSound stops e b v = stop-IsSound e v
    call-IsSound (sets_caps caps) e b v = unfold set_vram_caps in v
    call-IsSound (sets_difficulty device difficulty) e b v =
        set_difficulty-IsSound D s device difficulty e b v
    call-IsSound (sets_counts xuni xnm xblk) e b v = unfold set_queue_counts in v
    call-IsSound reduces_cap e b v = reduce_lane_cap-IsSound e v
    call-IsSound adds_cap e b v = add_lane_cap-IsSound e v
    call-IsSound (restores_cap device t j) e b v = restore-IsSound D s device t j e b v
    call-IsSound (sets_scale scale) e b v = set_scale-IsSound scale e v
    call-IsSound (reads_temperature t j now) e b v = reading-IsSound t j now e v
    call-IsSound (mines minute now run wait boxes) e b v =
        mine-IsSound minute now run wait boxes e v

    new-IsSound : IsSound (new_engine D s)
    unfolding new_engine
    new-IsSound = record {
      sized = record {
        cap_low = ground arith;
        cap_high = ground arith;
        lanes_low = ground arith;
        lanes_high = ground arith;
        batch = λ h. ground (arith, h);
      };
      target = refl;
      pooled = λ h. absurd (not_both refl h);
      ready = λ h. absurd (not_both refl h);
    }

    calls-IsSound :
        (calls : List EngineCall) (e : Engine F)
        → All Backs calls
        → IsSound e
        → IsSound (run_calls calls e)
    unfolding run_calls
    calls-IsSound [] e b v = v
    calls-IsSound (c ∷ calls) e (b, bs) v = calls-IsSound calls (call c e) bs (call-IsSound c e b v)

    -- After any sequence of the engine's public calls in which each backend that a new plan of the
    -- running engine asks for can be made, whatever else the device, the clock and the sensors answer,
    -- whether a start fails before, at or after its plan, and wherever no batch fits: the lane cap is at
    -- least 1 and at most the configured one; there is at least one lane and no more than the cap; a plan
    -- with a batch leaves a positive batch per lane, however the thermal policy scales it; the number of
    -- workers that is kept is the real one; and a started engine has a plan with a batch, a worker for
    -- each lane or none for a single lane, and a hash backend for each lane.
    pub run_calls-IsSound :
        (calls : List EngineCall) → All Backs calls → IsSound (run_calls calls (new_engine D s))
    run_calls-IsSound calls b = calls-IsSound calls (new_engine D s) b new-IsSound
