-- ===== src/Mining/Lane/Laws.antt =====
-- The mailboxes of src/mining/cuda_engine.cpp over any run of a lane's steps.
use x1miner.Base.{
  ℕ, zero, suc, ◌+◌, ◌-◌, ◌%◌, ◌<◌, ◌≤◌, ◌≡◌, refl, sym, ap, ◌∙◌, subst, true, false, List, [], ◌∷◌,
  ◌++◌, ◌==◌, if◌then◌else◌, by_if, not_both, arith, length,
}
use mathlib.Core.List.{append_assoc}
use x1miner.HashApi.Types.{HashApiRequest}
use x1miner.Mining.Lane.{
  Proto, Slot, Mailbox, Worker, waiting, looping, computing, stopped, Lane, LaneStep, wakes,
  passes_over, has_no_backend, starts, leaves, finishes, stops, stops_looping, publishes, takes,
  LaneRun, here, then_step, reset_box, ring_size, publish, is_changed, has_result, next_slot,
  is_good, take_result, may_produce, put_result,
}

-- A worker that runs a wave has a free slot.
abbrev pub HasRoom : Worker → ℕ → ℕ → Type 0
HasRoom w produced consumed = elim w as (λ _. Type 0) [
  | waiting _ ↦ Unit
  | looping _ _ ↦ Unit
  | computing _ _ ↦ produced < consumed + ring_size
  | stopped ↦ Unit
]

room_mono : (w : Worker) (p c : ℕ) → HasRoom w p c → HasRoom w p (suc c)
room_mono (waiting _) p c h = tt
room_mono (looping _ _) p c h = tt
room_mono (computing _ _) p c h = omega (arith, h)
room_mono stopped p c h = tt

module _ {F : Type 0} where
  -- The slots of the ring from a counter on.
  abbrev contents : ℕ → ℕ → (ℕ → Slot F) → List (Slot F)
  contents zero c ring = []
  contents (suc n) c ring = ring (c % ring_size) ∷ contents n (suc c) ring

  -- The results that are made and not yet taken.
  abbrev pub in_ring : Mailbox F → List (Slot F)
  in_ring box = contents (box.produced - box.consumed) box.consumed box.ring

  abbrev with_slot : ℕ → Slot F → (ℕ → Slot F) → ℕ → Slot F
  with_slot p slot ring i = if i == p % ring_size then slot else ring i

  length-contents : (n c : ℕ) (ring : ℕ → Slot F) → length (contents n c ring) ≡ n
  length-contents zero c ring = refl
  length-contents (suc n) c ring = ap suc (length-contents n (suc c) ring)

  -- A slot written behind the contents joins them.
  contents-put :
      (n c p : ℕ) (slot : Slot F) (ring : ℕ → Slot F)
      → c + n ≡ p
      → n < ring_size
      → contents (suc n) c (with_slot p slot ring) ≡ contents n c ring ++ slot ∷ []
  contents-put zero c p slot ring e h =
      let same : (c % ring_size == p % ring_size) ≡ true = ground arith in rw same refl
  contents-put (suc n) c p slot ring e h =
      let other : (c % ring_size == p % ring_size) ≡ false = ground arith in
      rw (other, contents-put n (suc c) p slot ring (omega (arith, e)) (omega (arith, h))) refl

  record IsQueue (made taken : List (Slot F)) (produced consumed : ℕ) (ring : ℕ → Slot F)
      : Type 0 where
    in_order : made ≡ taken ++ contents (produced - consumed) consumed ring
    taken_made : consumed ≤ produced
    fits : produced ≤ consumed + ring_size

  record IsLane (x : Lane F) : Type 0 where
    queue : IsQueue x.made x.taken x.box.produced x.box.consumed x.box.ring
    room : HasRoom x.worker x.box.produced x.box.consumed

  published : (x : Lane F) (p : Proto) → IsLane x → IsLane (record x { box = publish p x.box })
  unfolding publish
  published x p v =
      by_if (λ b. IsLane (record x { box = b })) (is_changed p x.box)
        (record { queue = v.queue; room = v.room }) v

  taken-IsLane :
      (x : Lane F)
      → has_result x.box ≡ true
      → IsLane x
      → IsLane (record x { box = take_result x.box; taken = x.taken ++ next_slot x.box ∷ [] })
  unfolding has_result take_result next_slot
  taken-IsLane x h v =
      let one_less : x.box.produced - x.box.consumed ≡ suc (x.box.produced - suc x.box.consumed) =
        ground arith in
      let later = contents (x.box.produced - suc x.box.consumed) (suc x.box.consumed) x.box.ring in
      record {
        queue = record {
          in_order =
              v.queue.in_order
              ∙ ap (λ n. x.taken ++ contents n x.box.consumed x.box.ring) one_less
              ∙ sym (append_assoc x.taken (x.box.ring (x.box.consumed % ring_size) ∷ []) later);
          taken_made = ground (arith, v.queue.taken_made);
          fits = omega (arith, v.queue.fits);
        };
        room = room_mono x.worker x.box.produced x.box.consumed v.room;
      }

  finished :
      (x : Lane F) (seen : ℕ) (r : HashApiRequest) (slot : Slot F)
      → x.worker ≡ computing seen r
      → IsLane x
      → IsLane (record x {
        box = put_result seen slot x.box;
        worker = looping seen r;
        made = x.made ++ slot ∷ [];
      })
  unfolding put_result
  finished x seen r slot at v =
      let b = x.box in
      let free : b.produced < b.consumed + ring_size =
        subst (λ w. HasRoom w b.produced b.consumed) at v.room in
      let n = b.produced - b.consumed in
      let one_more : suc b.produced - b.consumed ≡ suc n = omega (arith, v.queue.taken_made) in
      let put =
        contents-put n b.consumed b.produced slot b.ring (omega (arith, v.queue.taken_made))
          (omega (arith, free, v.queue.taken_made)) in
      record {
        queue = record {
          in_order =
              ap (λ l. l ++ slot ∷ []) v.queue.in_order
              ∙ append_assoc x.taken (in_ring b) (slot ∷ [])
              ∙ ap (λ l. x.taken ++ l)
                  (sym put
                    ∙ ap (λ k. contents k b.consumed (with_slot b.produced slot b.ring))
                        (sym one_more));
          taken_made = omega (arith, v.queue.taken_made);
          fits = omega (arith, free);
        };
        room = tt;
      }

module _ {F : Type 0} (index backends : ℕ) where
  step-IsLane : (x y : Lane F) → LaneStep index backends x y → IsLane x → IsLane y
  step-IsLane _ _ (wakes x seen at ne full on) v = record { queue = v.queue; room = tt }
  step-IsLane _ _ (passes_over x seen at ne void) v = record { queue = v.queue; room = tt }
  step-IsLane _ _ (has_no_backend x seen at ne full off) v = record { queue = v.queue; room = tt }
  step-IsLane _ _ (starts x seen r at same free) v = record {
    queue = v.queue;
    room = unfold may_produce in ground (arith, free, v.queue.taken_made);
  }
  step-IsLane _ _ (leaves x seen r at ne) v = record { queue = v.queue; room = tt }
  step-IsLane _ _ (finishes x seen r slot at) v = finished x seen r slot at v
  step-IsLane _ _ (stops x seen at) v = record { queue = v.queue; room = tt }
  step-IsLane _ _ (stops_looping x seen r at) v = record { queue = v.queue; room = tt }
  step-IsLane _ _ (publishes x p) v = published x p v
  step-IsLane _ _ (takes x h good) v = taken-IsLane x h v

  run-IsLane : (x y : Lane F) → LaneRun index backends x y → IsLane x → IsLane y
  run-IsLane x _ here v = v
  run-IsLane x _ (then_step y z run step) v = step-IsLane y z step (run-IsLane x y run v)

  -- A lane when its thread is made.
  abbrev pub fresh_lane : Mailbox F → Lane F
  fresh_lane box = record { box = reset_box box; worker = waiting 0; made = []; taken = [] }

  fresh-IsLane : (box : Mailbox F) → IsLane (fresh_lane box)
  unfolding reset_box
  fresh-IsLane box = record {
    queue = record { in_order = refl; taken_made = omega arith; fits = omega arith };
    room = tt;
  }

  -- Whatever the worker and the batch loop of a fresh lane do, in any interleaving: the results that
  -- the worker made are those that the loop took, followed by those in the ring, in order, so that none
  -- is lost, taken twice or overwritten; and the ring holds at most four.
  pub lane_fifo :
      (box : Mailbox F) (z : Lane F)
      → LaneRun index backends (fresh_lane box) z
      → (z.made ≡ z.taken ++ in_ring z.box) × (length (in_ring z.box) ≤ ring_size)
  lane_fifo box z run =
      let v = run-IsLane (fresh_lane box) z run (fresh-IsLane box) in
      let many = length-contents (z.box.produced - z.box.consumed) z.box.consumed z.box.ring in
      (v.queue.in_order, omega (arith, many, v.queue.fits))

  -- The loop stands before the same failed result.
  abbrev StandsAt : List (Slot F) → Slot F → Lane F → Type 0
  StandsAt taken slot x = (x.taken ≡ taken) × (next_slot x.box ≡ slot) × (has_result x.box ≡ true)

  finish_stands :
      (x : Lane F) (seen : ℕ) (r : HashApiRequest) (slot : Slot F)
      → x.worker ≡ computing seen r
      → IsLane x
      → has_result x.box ≡ true
      → (next_slot (put_result seen slot x.box) ≡ next_slot x.box)
        × (has_result (put_result seen slot x.box) ≡ true)
  unfolding next_slot has_result put_result
  finish_stands x seen r slot at v h =
      let b = x.box in
      let free : b.produced < b.consumed + ring_size =
        subst (λ w. HasRoom w b.produced b.consumed) at v.room in
      let other : (b.consumed % ring_size == b.produced % ring_size) ≡ false = ground arith in
      (rw other refl, ground arith)

  step_stands :
      (x y : Lane F)
      → LaneStep index backends x y
      → IsLane x
      → is_good (next_slot x.box) ≡ false
      → has_result x.box ≡ true
      → StandsAt x.taken (next_slot x.box) y
  unfolding next_slot has_result publish
  step_stands _ _ (wakes x seen at ne full on) v bad h = (refl, refl, h)
  step_stands _ _ (passes_over x seen at ne void) v bad h = (refl, refl, h)
  step_stands _ _ (has_no_backend x seen at ne full off) v bad h = (refl, refl, h)
  step_stands _ _ (starts x seen r at eq free) v bad h = (refl, refl, h)
  step_stands _ _ (leaves x seen r at ne) v bad h = (refl, refl, h)
  step_stands _ _ (finishes x seen r slot at) v bad h =
      let (same, there) = finish_stands x seen r slot at v h in (refl, same, there)
  step_stands _ _ (stops x seen at) v bad h = (refl, refl, h)
  step_stands _ _ (stops_looping x seen r at) v bad h = (refl, refl, h)
  step_stands _ _ (publishes x p) v bad h =
      by_if (λ b. StandsAt x.taken (next_slot x.box) (record x { box = b })) (is_changed p x.box)
        (refl, refl, h) (refl, refl, h)
  step_stands _ _ (takes x there good) v bad h = absurd (not_both bad good)

  stands :
      (x y : Lane F)
      → LaneRun index backends x y
      → IsLane x
      → is_good (next_slot x.box) ≡ false
      → has_result x.box ≡ true
      → StandsAt x.taken (next_slot x.box) y
  stands x _ here v bad h = (refl, refl, h)
  stands x z (then_step y _ run step) v bad h =
      let (taken, same, there) = stands x y run v bad h in
      let (taken', same', there') =
        step_stands y z step (run-IsLane x y run v) (subst (λ t. is_good t ≡ false) (sym same) bad)
          there in
      (taken' ∙ taken, same' ∙ same, there')

  -- Once the next result of a lane that its thread has run from the start is a failed one (an error,
  -- or not `ok`), no later step changes that, however many waves follow: the batch loop takes no
  -- further result from that lane, and the next one stays this failed one.
  pub failed_result_stays :
      (box : Mailbox F) (x y : Lane F)
      → LaneRun index backends (fresh_lane box) x
      → has_result x.box ≡ true
      → is_good (next_slot x.box) ≡ false
      → LaneRun index backends x y
      → (y.taken ≡ x.taken) × (next_slot y.box ≡ next_slot x.box) × (has_result y.box ≡ true)
  failed_result_stays box x y before there bad run =
      stands x y run (run-IsLane (fresh_lane box) x before (fresh-IsLane box)) bad there
