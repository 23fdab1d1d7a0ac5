-- ===== src/Supervisor/Worker/Attempt.antt =====
-- `try_flush_pending` of src/app/supervisor.cpp as a whole, seen by the digests of a bag whose hits are
-- all encoded.
use x1miner.Base.{
  by_if, ℕ, ◌+◌, ◌≤◌, ◌≡◌, ◌⊎◌, refl, sym, subst, arith, Bool, true, false, not, ◌&&◌, ◌||◌, List,
  [], ◌∷◌, ◌++◌, All, All-append, All-mono, leb, ltb, length, Bool-cases, inl, inr, if◌then◌else◌,
  value_or,
}
use x1miner.Base.Int.{ℤ, pos, pos_part, ◌==ℤ◌, ◌<ℤ?◌, ==ℤ_refl}
use x1miner.Base.Double.{Double}
use x1miner.Base.Sort.{All-sort_by}
use x1miner.Base.Text.{Text, text_eq, text_eq_refl, text_eq_iff}
use x1miner.Common.{BlockHit, SubmitResult}
use x1miner.Common.Json.{JsonLib}
use x1miner.Mining.Encode.{is_argon2_encoded}
use x1miner.Queue.Codec.{PendingBlock}
use x1miner.Queue.Policy.{ready_to_flush}
use x1miner.Queue.Store.{BlockStore}
use x1miner.Queue.Store.Batch.{
  Wave, is_skipped, is_eligible, take_block, scan_blocks, refill, gather, flushes_before,
  sort_blocks, wave_cap, list_flush_batch,
}
use x1miner.Queue.Store.Invariant.{Entry, entries, count_id, count_both}
use x1miner.Queue.Store.Methods.{IsValid}
use x1miner.Supervisor.Oracle.{
  Config, NetState, mining_difficulty, submit_target_m, flush_submit_allowed, force_mine_mode,
  oracle_says_m, bag_target_m,
}
use x1miner.Supervisor.Network.{PaperStatus, refresh_network, refresh_paper}
use x1miner.Supervisor.Live.{has_thrown, Supervisor, Moment, is_none_left}
use x1miner.Supervisor.Flush.{
  WorkItem, Choice, FlushTally, choose, is_sent, take_choice, build_work, wave_size, parallel_count,
  flush_rounds,
}
use x1miner.Supervisor.Flush.Send.{
  flush_gate, finish_flush, flush_wave, send_wave, try_flush_pending,
}
use x1miner.Supervisor.Worker.Flushes.{
  is_reported, Matches, Encoded, Guards, Guards-refl, Guards-trans, Alike, Alike-refl, Alike-Guards,
  defer-Alike,
}
use x1miner.Supervisor.Flush.Attempt.{flush_gate-Sheds, try_flush_pending-Sheds}
use x1miner.Supervisor.Worker.Rounds.{flush_rounds-Guards}

-- Two digests under one id count for two.
both-le :
    (i : ℤ) (g h : Text) (l : List Entry)
    → text_eq g h ≡ false
    → count_both i g l + count_both i h l ≤ count_id i l
unfolding count_both count_id
both-le i g h [] ne = omega arith
both-le i g h (e ∷ l) ne =
    ground (arith, both-le i g h l ne, text_eq_iff e.1 g, text_eq_iff e.1 h, text_eq_iff g h)

module _ {F : Type 0} where
  abbrev as_item : PendingBlock F → WorkItem F
  as_item pb = record { id = pb.id; hit = pb.hit }

  -- A block is among the entries, so that no other digest has its id.
  among :
      (l : List (PendingBlock F)) → All (λ pb. 1 ≤ count_both pb.id pb.hit.hash_str (entries l)) l
  unfolding count_both
  among [] = tt
  among (x ∷ l) = (
    ground (arith, ==ℤ_refl x.id, text_eq_refl x.hit.hash_str),
    All-mono _ _ (λ pb h. ground (arith, h)) l (among l),
  )

  own-Matches :
      (l : List Entry) (pb : PendingBlock F)
      → ((i : ℤ) → count_id i l ≤ 1)
      → 1 ≤ count_both pb.id pb.hit.hash_str l
      → Matches l (as_item pb)
  own-Matches l pb unique there h e = elim (Bool-cases (text_eq pb.hit.hash_str h)) [
    | inl same ↦ same
    | inr other ↦
        absurd (omega (arith, both-le pb.id pb.hit.hash_str h l other, unique pb.id, there, e))
  ]

  -- What holds of all pending blocks holds of the wave.
  module _ (P : PendingBlock F → Type 0) where
    All-take_block :
        (w : Wave) (cap : ℕ) (dest : List (PendingBlock F)) (pb : PendingBlock F)
        → All P dest
        → P pb
        → All P (take_block w cap dest pb)
    unfolding take_block
    All-take_block w cap dest pb a p =
        by_if (All P) (leb cap (length dest)) a
          (by_if (All P) (is_eligible w pb) (All-append P dest (pb ∷ []) a (p, tt)) a)

    All-scan :
        (w : Wave) (cap : ℕ) (l a b : List (PendingBlock F))
        → All P l
        → All P a
        → All P b
        → let (x, y) = scan_blocks w cap l a b in All P x × All P y
    unfolding scan_blocks
    All-scan w cap [] a b h x y = (x, y)
    All-scan w cap (pb ∷ l) a b h x y =
        let Q : List (PendingBlock F) × List (PendingBlock F) → Type 0 =
          λ z. All P z.0 × All P z.1 in
        let a' = if is_skipped w pb then a else take_block w cap a pb in
        let b' = if is_skipped w pb then take_block w cap b pb else b in
        let x' : All P a' = by_if (All P) (is_skipped w pb) x (All-take_block w cap a pb x h.0) in
        let y' : All P b' = by_if (All P) (is_skipped w pb) (All-take_block w cap b pb y h.0) y in
        by_if Q (leb cap (length a')) (x', y') (All-scan w cap l a' b' h.1 x' y')

    All-refill :
        (cap : ℕ) (a b : List (PendingBlock F)) → All P a → All P b → All P (refill cap a b)
    unfolding refill
    All-refill cap a [] x y = x
    All-refill cap a (pb ∷ b) x y =
        let more = All-append P a (pb ∷ []) x (y.0, tt) in
        by_if (All P) (leb cap (length (a ++ pb ∷ []))) more
          (All-refill cap (a ++ pb ∷ []) b more y.1)

    pub All-list_flush_batch :
        {Doc : Type 0} (w : Wave) (limit : ℤ) (s : BlockStore F Doc)
        → All P s.pending
        → All P (list_flush_batch w limit s)
    unfolding list_flush_batch sort_blocks gather
    All-list_flush_batch w limit s h =
        let cap = wave_cap limit s.pending in
        let (a, b) = scan_blocks w cap s.pending [] [] in
        let (x, y) = All-scan w cap s.pending [] [] h tt tt in
        All-sort_by flushes_before P _
          (by_if (All P) (ltb (length a) cap) (All-refill cap a b x y) x)

  -- An encoded block is skipped, or sent as it is.
  choose_encoded :
      (c : Config) (net : NetState F) (minute : ℕ) (net_m : ℤ) (pb : PendingBlock F)
      → is_argon2_encoded pb.hit.hash_str ≡ true
      → (choose c net minute net_m pb ≡ Choice.skips)
        ⊎ (choose c net minute net_m pb ≡ Choice.sends (as_item pb))
  unfolding choose
  choose_encoded c net minute net_m pb e =
      let P : Choice F → Type 0 = λ z. (z ≡ Choice.skips) ⊎ (z ≡ Choice.sends (as_item pb)) in
      by_if P (not (ready_to_flush minute pb.hit.block_type).0) (inl refl) (
        by_if P (value_or pb.hit.memory_cost (mining_difficulty c net) <ℤ? net_m) (inl refl)
          (rw e (inr refl)))

module _ (D : Double) (J : JsonLib D.F) where
  open D use {F, lt}
  open J use {Doc}

  -- What the loop over an encoded wave builds: the store as it was, and items of blocks in the bag.
  build_work-encoded :
      (c : Config) (net : NetState F) (minute : ℕ) (net_m : ℤ) (most : ℕ) (l : List Entry)
      (wave : List (PendingBlock F)) (x : List (WorkItem F) × BlockStore F Doc)
      → All (λ pb. (is_argon2_encoded pb.hit.hash_str ≡ true) × Matches l (as_item pb)) wave
      → All (Matches l) x.0
      → let (work, store) = build_work D J (choose c net minute net_m) most wave x in
        (store ≡ x.1) × All (Matches l) work
  unfolding build_work take_choice is_sent
  build_work-encoded c net minute net_m most l [] x h a = (refl, a)
  build_work-encoded c net minute net_m most l (pb ∷ wave) x h a =
      let Q : List (WorkItem F) × BlockStore F Doc → Type 0 =
        λ z. (z.1 ≡ x.1) × All (Matches l) z.0 in
      elim (choose_encoded c net minute net_m pb h.0.0) [
        | inl skips ↦ rw skips (build_work-encoded c net minute net_m most l wave x h.1 a)
        | inr sends ↦
            let more = All-append (Matches l) x.0 (as_item pb ∷ []) a (h.0.1, tt) in
            rw sends (
              by_if Q (ltb 0 most && leb most (length (x.0 ++ as_item pb ∷ []))) (refl, more)
                (build_work-encoded c net minute net_m most l wave (x.0 ++ as_item pb ∷ [], x.1) h.1
                  more))
      ]

  wave_facts :
      (c : Config) (t : Moment F) (down : Bool) (s : Supervisor F Doc)
      → IsValid s.store
      → Encoded s.store.pending
      → All
          (λ pb.
            (is_argon2_encoded pb.hit.hash_str ≡ true)
            × Matches (entries s.store.pending) (as_item pb))
          (flush_wave D J c t down s)
  unfolding flush_wave
  wave_facts c t down s v e =
      let l = entries s.store.pending in
      All-list_flush_batch
        (λ pb. (is_argon2_encoded pb.hit.hash_str ≡ true) × Matches l (as_item pb)) _ _ s.store
        (both s.store.pending e (among s.store.pending))
    where
      both :
          (m : List (PendingBlock F))
          → Encoded m
          → All (λ pb. 1 ≤ count_both pb.id pb.hit.hash_str (entries s.store.pending)) m
          → All
              (λ pb.
                (is_argon2_encoded pb.hit.hash_str ≡ true)
                × Matches (entries s.store.pending) (as_item pb))
              m
      both [] e a = tt
      both (pb ∷ m) e a =
          ((e.0, own-Matches (entries s.store.pending) pb v.indexed.ids_unique a.0), both m e.1 a.1)

  -- What only the network, the drain and the statistics tell apart.
  pub quiet-Guards :
      (s s' : Supervisor F Doc)
      → s'.store ≡ s.store
      → s'.reported ≡ s.reported
      → s'.live_q ≡ s.live_q
      → Guards s s'
  quiet-Guards s s' store told queue =
      Alike-Guards s s' (subst (Alike s.store) (sym store) (Alike-refl s.store)) queue
        (λ h e. subst (λ q. is_reported h q ≡ true) (sym told) e)

  finish-Guards :
      (t : Moment F) (down : Bool) (work : List (WorkItem F)) (x : Supervisor F Doc × FlushTally)
      → Guards x.0 (finish_flush D J t down work x).1
  unfolding finish_flush
  finish-Guards t down work (s, y) =
      let P : ℤ × Supervisor F Doc → Type 0 = λ z. Guards s z.1 in
      by_if P (not (y.flushed ==ℤ pos 0)) (quiet-Guards s _ refl refl refl) (
        by_if P (not down && (pos 0 <ℤ? y.holds) && not y.transport_fail)
          (quiet-Guards s _ refl refl refl) (quiet-Guards s _ refl refl refl))

  send_wave-Guards :
      (c : Config) (pool : BlockHit F → SubmitResult) (t : Moment F) (down : Bool)
      (s : Supervisor F Doc)
      → IsValid s.store
      → Encoded s.store.pending
      → Guards s (send_wave D J c pool t down (flush_wave D J c t down s) s).1
  unfolding send_wave
  send_wave-Guards c pool t down s v e =
      let P : ℤ × Supervisor F Doc → Type 0 = λ z. Guards s z.1 in
      let wave = flush_wave D J c t down s in
      let most = pos_part (wave_size c down s.drain.active) in
      let r =
        build_work D J (choose c s.net t.minute (submit_target_m c s.net)) most wave
          ([], s.store) in
      let (same, a) =
        build_work-encoded c s.net t.minute (submit_target_m c s.net) most (entries s.store.pending)
          wave ([], s.store) (wave_facts c t down s v e) tt in
      let first : Supervisor F Doc = record s {
        store = r.1;
        drain = record s.drain { logged_first_wave = s.drain.active || s.drain.logged_first_wave };
      } in
      let start : FlushTally = record {
        accepted_ids = [];
        flushed = pos 0;
        holds = pos 0;
        transport_fail = false;
      } in
      let parallel = pos_part (parallel_count c down s.drain.active) in
      let rounds = flush_rounds D J c pool t down (length r.0) parallel r.0 (first, start) in
      let sent = Guards-trans s first rounds.0 (quiet-Guards s first same refl refl) (
        flush_rounds-Guards D J c pool t down (length r.0) parallel r.0 (first, start)
          (subst (λ (st : BlockStore F Doc). All (Matches (entries st.pending)) r.0) (sym same)
            a)) in
      by_if P (is_none_left r.0) (quiet-Guards s _ same refl refl) (
        by_if P (has_thrown first rounds.0) sent
          (Guards-trans s rounds.0 _ sent (finish-Guards t down r.0 rounds)))

  flush_gate-Guards :
      (c : Config) (t : Moment F) (paper : PaperStatus F) (down : Bool) (s : Supervisor F Doc)
      → Guards s (flush_gate D J c t paper down s).1
  unfolding flush_gate
  flush_gate-Guards c t paper down s =
      let (refreshed, polled) = refresh_network D down c t.poll t.now s.net in
      let net = refresh_paper D paper t.now polled in
      let allowed = flush_submit_allowed D c net t.now in
      let read : Supervisor F Doc = record s { net = net } in
      let same = quiet-Guards s read refl refl refl in
      let Q : Bool × Supervisor F Doc → Type 0 = λ z. Guards s z.1 in
      by_if Q (not down && not (flush_submit_allowed D c s.net t.now)) (Guards-refl s) (
        by_if Q (not down && not (force_mine_mode c) && lt t.now s.net.defer_submit_until)
          (Guards-refl s)
          (by_if Q (not refreshed && down)
            (Alike-Guards s _ (defer-Alike D J t.minute s.store) refl (λ h e. e))
            (by_if Q
              (not refreshed && (not allowed || not (oracle_says_m net (bag_target_m c net)))) same
              (by_if Q (not down && not allowed) same same))))

  -- What the store keeps to.
  abbrev pub IsSealed : BlockStore F Doc → Type 0
  IsSealed st = IsValid st × Encoded st.pending

  pub try_flush_pending-IsSealed :
      (c : Config) (pool : BlockHit F → SubmitResult) (t : Moment F) (paper : PaperStatus F)
      (down : Bool) (s : Supervisor F Doc)
      → IsSealed s.store
      → Guards s (try_flush_pending D J c pool t paper down s).1
        × IsSealed (try_flush_pending D J c pool t paper down s).1.store
  unfolding try_flush_pending
  try_flush_pending-IsSealed c pool t paper down s (v, e) =
      let gated = (flush_gate D J c t paper down s).1 in
      let g = flush_gate-Guards c t paper down s in
      let w = (flush_gate-Sheds D J (λ _. Unit) c t paper down s).valid v in
      let P : ℤ × Supervisor F Doc → Type 0 = λ z. Guards s z.1 in
      let all = by_if P (not (flush_gate D J c t paper down s).0) g (
        by_if P (is_none_left (flush_wave D J c t down gated)) g
          (Guards-trans s gated _ g (send_wave-Guards c pool t down gated w (g.encoded e)))) in
      (all, ((try_flush_pending-Sheds D J c pool t paper down s).valid v, all.encoded e))
