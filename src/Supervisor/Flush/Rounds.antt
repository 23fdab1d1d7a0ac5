-- ===== src/Supervisor/Flush/Rounds.antt =====
-- The rounds of `try_flush_pending` of src/app/supervisor.cpp with a pool that takes everything.
use x1miner.Base.{
  ℕ, zero, suc, ◌≤◌, ◌≡◌, refl, ap, sym, subst, ◌∙◌, arith, Bool, true, false, List, [], ◌∷◌, ◌++◌,
  map, if◌then◌else◌, take, drop, length, by_case, not_both,
}
use mathlib.Core.List.{append-nil, append_assoc}
use x1miner.Base.Double.{Double}
use x1miner.Common.{BlockHit, SubmitResult}
use x1miner.Common.Json.{JsonLib}
use x1miner.Supervisor.Oracle.{Config}
use x1miner.Supervisor.Live.{Supervisor, Moment, is_none_left, has_thrown}
use x1miner.Supervisor.Live.Laws.{has_thrown-same}
use x1miner.Supervisor.Flush.{
  WorkItem, FlushTally, accept_flush, settle_item, settle_items, flush_round, flush_rounds,
}

take-drop : {A : Type 0} (n : ℕ) (l : List A) → take n l ++ drop n l ≡ l
take-drop zero l = refl
take-drop (suc n) [] = refl
take-drop (suc n) (x ∷ l) = ap (◌∷◌ x) (take-drop n l)

length-drop : {A : Type 0} (n : ℕ) (l : List A) → length (drop n l) ≤ length l
length-drop zero l = omega arith
length-drop (suc n) [] = omega arith
length-drop (suc n) (x ∷ l) = omega (arith, length-drop n l)

map-append : {A B : Type 0} (f : A → B) (l m : List A) → map f (l ++ m) ≡ map f l ++ map f m
map-append f [] m = refl
map-append f (x ∷ l) m = ap (◌∷◌ (f x)) (map-append f l m)

module _ (D : Double) (J : JsonLib D.F) where
  open D use {F}
  open J use {Doc}

  module _ (pool : BlockHit F → SubmitResult) (takes : (hit : BlockHit F) → (pool hit).ok ≡ true)
      (c : Config) (t : Moment F) (down : Bool) where
    accepted :
        (item : WorkItem F) (x : Supervisor F Doc × FlushTally)
        → settle_item D J c t down item (pool item.hit) x ≡ accept_flush D J item x
    unfolding settle_item
    accepted item x = rw (takes item.hit) refl

    -- The reports grow by the hits of the items, no request counts as failed, and nothing is thrown.
    abbrev Reports :
        List (WorkItem F) → Supervisor F Doc × FlushTally → Supervisor F Doc × FlushTally → Type 0
    Reports items x z =
        (z.0.reported ≡ x.0.reported ++ map (λ item. item.hit) items)
        × (z.1.transport_fail ≡ x.1.transport_fail)
        × (z.0.ended ≡ x.0.ended)

    settle_items-Reports :
        (items : List (WorkItem F)) (x : Supervisor F Doc × FlushTally)
        → Reports items x (settle_items D J c pool t down items x)
    unfolding settle_items accept_flush
    settle_items-Reports [] x = (sym (append-nil x.0.reported), refl, refl)
    settle_items-Reports (item ∷ items) x =
        subst
          (λ y.
            Reports (item ∷ items) x
              (if has_thrown x.0 y.0 then y else settle_items D J c pool t down items y))
          (sym (accepted item x))
          (let x' = accept_flush D J item x in
            let (e, f, g) = settle_items-Reports items x' in
            by_case (Reports (item ∷ items) x) (has_thrown x.0 x'.0)
              (λ h. absurd (not_both (has_thrown-same x.0 x'.0 refl) h))
              (λ h. (e ∙ append_assoc x.0.reported (item.hit ∷ []) (map (λ i. i.hit) items), f, g)))

    flush_round-Reports :
        (items : List (WorkItem F)) (x : Supervisor F Doc × FlushTally)
        → Reports items x (flush_round D J c pool t down items x)
    unfolding flush_round
    flush_round-Reports items (s, y) =
        let start : Supervisor F Doc × FlushTally = (s, record y { accepted_ids = [] }) in
        let done = settle_items D J c pool t down items start in
        let r = settle_items-Reports items start in
        by_case (Reports items (s, y)) (has_thrown s done.0)
          (λ h. absurd (not_both (has_thrown-same s done.0 r.2) h)) (λ h. r)

    rounds_report :
        (turns parallel : ℕ) (work : List (WorkItem F)) (x : Supervisor F Doc × FlushTally)
        → 1 ≤ parallel
        → length work ≤ turns
        → x.1.transport_fail ≡ false
        → (flush_rounds D J c pool t down turns parallel work x).0.reported
          ≡ x.0.reported ++ map (λ item. item.hit) work
    unfolding flush_rounds is_none_left
    rounds_report zero parallel [] x h le ok = sym (append-nil x.0.reported)
    rounds_report (suc turns) parallel [] x h le ok = sym (append-nil x.0.reported)
    rounds_report zero parallel (item ∷ work) x h le ok = elim le [ ]
    rounds_report (suc turns) zero (item ∷ work) x h le ok = elim h [ ]
    rounds_report (suc turns) (suc more) (item ∷ work) x h le ok =
        let round = flush_round D J c pool t down (item ∷ take more work) x in
        let (e, f, g) = flush_round-Reports (item ∷ take more work) x in
        let later =
          rounds_report turns (suc more) (drop more work) round h
            (omega (arith, le, length-drop more work)) (f ∙ ok) in
        let hits : List (WorkItem F) → List (BlockHit F) = map (λ i. i.hit) in
        let joined : hits (take more work) ++ hits (drop more work) ≡ hits work =
          sym (map-append (λ (i : WorkItem F). i.hit) (take more work) (drop more work))
          ∙ ap hits (take-drop more work) in
        subst
          (λ b.
            (if b
              then x
              else if has_thrown x.0 round.0
              then round
              else flush_rounds D J c pool t down turns (suc more) (drop more work)
                  round).0.reported
            ≡ x.0.reported ++ hits (item ∷ work))
          (sym ok)
          (by_case
            (λ (z : Supervisor F Doc × FlushTally).
              z.0.reported ≡ x.0.reported ++ hits (item ∷ work))
            (has_thrown x.0 round.0) (λ h. absurd (not_both (has_thrown-same x.0 round.0 g) h))
            (λ h.
              later
              ∙ ap (λ l. l ++ hits (drop more work)) e
              ∙ append_assoc x.0.reported _ _
              ∙ ap (λ l. x.0.reported ++ item.hit ∷ l) joined))

    -- With a pool that accepts every hit, the rounds of an attempt, as many turns as there are items
    -- and at least one request at a time, report every item's hit, once and in the order of the wave.
    pub flush_rounds_report :
        (parallel : ℕ) (work : List (WorkItem F)) (x : Supervisor F Doc × FlushTally)
        → 1 ≤ parallel
        → x.1.transport_fail ≡ false
        → (flush_rounds D J c pool t down (length work) parallel work x).0.reported
          ≡ x.0.reported ++ map (λ item. item.hit) work
    flush_rounds_report parallel work x h ok =
        rounds_report (length work) parallel work x h (omega arith) ok
