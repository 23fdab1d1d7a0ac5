-- ===== src/Supervisor/Flush/Attempt.antt =====
-- `try_flush_pending` of src/app/supervisor.cpp as a whole, from its early returns to its pause.
use mathlib.Core.List.{Memᴰ}
use mathlib.Core.List.Memᴰ.{head, tail}
use x1miner.Base.{
  by_if, ℕ, ◌≡◌, ◌⊎◌, refl, ap, sym, ◌∙◌, subst, ◌||◌, Bool, true, false, not, ◌&&◌, List, [], ◌∷◌,
  All, value_or, length, Option-cases, inl, inr,
}
use x1miner.Base.Int.{ℤ, pos, pos_part, ◌<ℤ?◌, ◌==ℤ◌}
use x1miner.Base.Double.{Double}
use x1miner.Common.{BlockHit, SubmitResult}
use x1miner.Common.Json.{JsonLib}
use x1miner.Mining.Encode.{is_argon2_encoded, prepare_hit_for_submit}
use x1miner.Queue.Codec.{PendingBlock}
use x1miner.Queue.Policy.{ready_to_flush}
use x1miner.Supervisor.Oracle.{
  NetState, Config, force_mine_mode, mining_difficulty, bag_target_m, oracle_says_m,
  submit_target_m, flush_submit_allowed,
}
use x1miner.Supervisor.Network.{PaperStatus, refresh_network, refresh_paper}
use x1miner.Supervisor.Live.{has_thrown, Supervisor, Moment, is_none_left}
use x1miner.Supervisor.Flush.{
  WorkItem, Choice, FlushTally, wave_size, parallel_count, choose, build_work, flush_rounds,
}
use x1miner.Supervisor.Flush.Send.{
  flush_gate, finish_flush, flush_wave, send_wave, try_flush_pending,
}
use x1miner.Supervisor.Flush.Laws.{
  Sheds, Sheds-refl, Sheds-trans, defer-Sheds, flush_rounds-Sheds, build_work-Works, MayPick,
}

-- The id that a choice speaks of, for the block with the id `id`.
unfoldable chosen_id : {F : Type 0} → Choice F → ℤ → ℤ
chosen_id Choice.skips id = id
chosen_id Choice.drops id = id
chosen_id (Choice.sends item) id = item.id

chosen_id-choose :
    {F : Type 0} (c : Config) (net : NetState F) (minute : ℕ) (net_m : ℤ) (pb : PendingBlock F)
    → chosen_id (choose c net minute net_m pb) pb.id ≡ pb.id
unfolding choose chosen_id
chosen_id-choose {F} c net minute net_m pb =
    let hit_m = value_or pb.hit.memory_cost (mining_difficulty c net) in
    let Q : Choice F → Type 0 = λ z. chosen_id z pb.id ≡ pb.id in
    by_if Q (not (ready_to_flush minute pb.hit.block_type).0) refl (
      by_if Q (hit_m <ℤ? net_m) refl (
        by_if Q (is_argon2_encoded pb.hit.hash_str) refl
          (elim (Option-cases
            (prepare_hit_for_submit pb.hit c.salt_hex hit_m c.time_cost c.parallelism)) [
              | inl e ↦ rw e refl
              | inr (hit, e) ↦ rw e refl
            ])))

module _ (D : Double) (J : JsonLib D.F) where
  open D use {F, lt}
  open J use {Doc}

  -- A block of the wave has this id, and it cannot be prepared or the pool accepts what is sent.
  abbrev pub Released :
      Config → (BlockHit F → SubmitResult) → Moment F → Bool → Supervisor F Doc → ℤ → Type 0
  Released c pool t down s i =
      (pb : PendingBlock F) × Memᴰ pb (flush_wave D J c t down s)
      × (pb.id ≡ i)
      × ((choose c s.net t.minute (submit_target_m c s.net) pb ≡ Choice.drops)
          ⊎ ((item : WorkItem F) × (choose c s.net t.minute (submit_target_m c s.net) pb
                ≡ Choice.sends item)
              × ((pool item.hit).ok ≡ true)))

  module _ (c : Config) (pool : BlockHit F → SubmitResult) (t : Moment F) (down : Bool)
      (s : Supervisor F Doc) where
    abbrev wave_of : List (PendingBlock F)
    wave_of = flush_wave D J c t down s

    abbrev pick_of : PendingBlock F → Choice F
    pick_of = choose c s.net t.minute (submit_target_m c s.net)

    may_pick :
        (l : List (PendingBlock F))
        → ((pb : PendingBlock F) → Memᴰ pb l → Memᴰ pb wave_of)
        → All (MayPick D J (Released c pool t down s) pool pick_of) l
    may_pick [] inside = tt
    may_pick (pb ∷ l) inside = (
      (
        λ e. (pb, inside pb (head refl), refl, inl e),
        λ item e ok. (
          pb,
          inside pb (head refl),
          sym (chosen_id-choose c s.net t.minute (submit_target_m c s.net) pb)
              ∙ unfold chosen_id in ap (λ z. chosen_id z pb.id) e,
          inr (item, e, ok),
        ),
      ),
      may_pick l (λ x m. inside x (tail m)),
    )

    finish_flush-store :
        (work : List (WorkItem F)) (x : Supervisor F Doc × FlushTally)
        → (finish_flush D J t down work x).1.store ≡ x.0.store
    unfolding finish_flush
    finish_flush-store work (s0, y) =
        let Q : ℤ × Supervisor F Doc → Type 0 = λ z. z.1.store ≡ s0.store in
        by_if Q (not (y.flushed ==ℤ pos 0)) refl
          (by_if Q (not down && (pos 0 <ℤ? y.holds) && not y.transport_fail) refl refl)

    send_wave-Sheds :
        Sheds (Released c pool t down s) s.store (send_wave D J c pool t down wave_of s).1.store
    unfolding send_wave
    send_wave-Sheds =
        let P = Released c pool t down s in
        let most = pos_part (wave_size c down s.drain.active) in
        let r = build_work D J pick_of most wave_of ([], s.store) in
        let (go, h) =
          build_work-Works D J P pool pick_of most wave_of s.store ([], s.store)
            (may_pick wave_of (λ _ m. m)) (tt, Sheds-refl D J P s.store) in
        let first : Supervisor F Doc = record s {
          store = r.1;
          drain = record s.drain {
            logged_first_wave = s.drain.active || s.drain.logged_first_wave;
          };
        } in
        let start : FlushTally = record {
          accepted_ids = [];
          flushed = pos 0;
          holds = pos 0;
          transport_fail = false;
        } in
        let parallel = pos_part (parallel_count c down s.drain.active) in
        let rounds = flush_rounds D J c pool t down (length r.0) parallel r.0 (first, start) in
        let Q : ℤ × Supervisor F Doc → Type 0 = λ z. Sheds P s.store z.1.store in
        let sent =
          Sheds-trans D J P s.store r.1 rounds.0.store h
            (flush_rounds-Sheds D J P pool c t down (length r.0) parallel r.0 (first, start) go) in
        by_if Q (is_none_left r.0) h (
          by_if Q (has_thrown first rounds.0) sent
            (subst (Sheds P s.store) (sym (finish_flush-store r.0 rounds)) sent))

  pub flush_gate-Sheds :
      (P : ℤ → Type 0) (c : Config) (t : Moment F) (paper : PaperStatus F) (down : Bool)
      (s : Supervisor F Doc)
      → Sheds P s.store (flush_gate D J c t paper down s).1.store
  unfolding flush_gate
  flush_gate-Sheds P c t paper down s =
      let (refreshed, polled) = refresh_network D down c t.poll t.now s.net in
      let net = refresh_paper D paper t.now polled in
      let allowed = flush_submit_allowed D c net t.now in
      let same = Sheds-refl D J P s.store in
      let Q : Bool × Supervisor F Doc → Type 0 = λ z. Sheds P s.store z.1.store in
      by_if Q (not down && not (flush_submit_allowed D c s.net t.now)) same (
        by_if Q (not down && not (force_mine_mode c) && lt t.now s.net.defer_submit_until) same (
          by_if Q (not refreshed && down) (defer-Sheds D J P t.minute s.store) (
            by_if Q (not refreshed && (not allowed || not (oracle_says_m net (bag_target_m c net))))
              same (by_if Q (not down && not allowed) same same))))

  -- An attempt to flush takes a block out of the bag only when the block was in the wave and the
  -- pool accepted what was sent for it, or when no hit could be prepared from it: of any other id
  -- the bag holds as many blocks afterwards, whichever request failed and wherever the attempt
  -- stopped. A valid store stays valid.
  pub try_flush_pending-Sheds :
      (c : Config) (pool : BlockHit F → SubmitResult) (t : Moment F) (paper : PaperStatus F)
      (down : Bool) (s : Supervisor F Doc)
      → let gated = (flush_gate D J c t paper down s).1 in
        Sheds
          (Released c pool t down gated)
          s.store
          (try_flush_pending D J c pool t paper down s).1.store
  unfolding try_flush_pending
  try_flush_pending-Sheds c pool t paper down s =
      let (goes_on, gated) = flush_gate D J c t paper down s in
      let P = Released c pool t down gated in
      let before = flush_gate-Sheds P c t paper down s in
      let Q : ℤ × Supervisor F Doc → Type 0 = λ z. Sheds P s.store z.1.store in
      by_if Q (not goes_on) before (
        by_if Q (is_none_left (flush_wave D J c t down gated)) before
          (Sheds-trans D J P s.store gated.store _ before (send_wave-Sheds c pool t down gated)))
