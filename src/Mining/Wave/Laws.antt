-- ===== src/Mining/Wave/Laws.antt =====
-- The loop over the lanes in `mine_batch` of src/mining/cuda_engine.cpp.
use x1miner.Base.{
  ℕ, zero, suc, ◌+◌, ◌≡◌, ◌⊎◌, refl, sym, ap, ◌∙◌, subst, inl, inr, Bool, true, false, not, Option,
  List, [], ◌∷◌, ◌++◌, ltb, if◌then◌else◌, Bool-cases, arith, length, take,
}
use mathlib.Core.List.{append_assoc, append-nil}
use x1miner.Base.Int.{ℤ, pos, ◌+ℤ◌}
use x1miner.Base.Double.{Double}
use x1miner.Base.Text.{Text, is_empty}
use x1miner.Common.{BlockHit}
use x1miner.HashApi.Types.{HashApiMatch, HashApiResult}
use x1miner.Mining.Engine.{EngineSettings}
use x1miner.Mining.Lane.{Slot, Mailbox, next_slot, take_result, is_good}
use x1miner.Mining.Wave.{MineBatchResult, hit_from_match, on_first, absorb, absorb_lanes}
use x1miner.Mining.Wave.Hits.{Keeps, hit_from_match-GivesHit, matches-Keeps, matches-hashes}

module _ {F : Type 0} where
  -- What the lanes hand over: the matches and the attempts of their next results.
  abbrev pub wave_matches : List (Mailbox F) → List HashApiMatch
  wave_matches [] = []
  wave_matches (box ∷ boxes) = (next_slot box).result.matches ++ wave_matches boxes

  abbrev pub wave_attempts : List (Mailbox F) → ℕ
  wave_attempts [] = 0
  wave_attempts (box ∷ boxes) = (next_slot box).result.attempts + wave_attempts boxes

  -- How many of the first lanes have a good next result, up to the first that has not.
  abbrev pub good_lanes : ℕ → List (Mailbox F) → ℕ
  good_lanes zero boxes = 0
  good_lanes (suc n) [] = 0
  good_lanes (suc n) (box ∷ boxes) =
      let rest = good_lanes n boxes in if is_good (next_slot box) then suc rest else 0

-- Whether the call threw.
abbrev pub did_throw {ℓ} : {A : Type ℓ} → Text ⊎ A → Bool
did_throw (inl _) = true
did_throw (inr _) = false

module _ (D : Double) (s : EngineSettings D.F) (difficulty : ℤ) (now : Text) where
  open D use {F}

  abbrev pub Sum : Type 0
  Sum = MineBatchResult F × F

  pub record Absorbed (acc : Sum) (ms : List HashApiMatch) (n : ℕ) : Type 0 where
    pub keeps : Keeps acc.0 ms
    pub hashes : acc.0.hashes_done ≡ pos n

  add_pos : (a b : ℕ) → pos a +ℤ pos b ≡ pos (a + b)
  unfolding ◌+ℤ◌
  add_pos a b = ground arith

  absorb_cases :
      (r : HashApiResult F) (acc : Sum) (ms : List HashApiMatch) (n : ℕ)
      → Absorbed acc ms n
      → elim (absorb D s difficulty now r acc) as (λ _. Type 0) [
        | inl _ ↦ r.ok ≡ false
        | inr acc' ↦ (r.ok ≡ true) × Absorbed acc' (ms ++ r.matches) (n + r.attempts)
      ]
  unfolding absorb
  absorb_cases r acc ms n v =
      let total = D.add acc.1 r.hashrate in
      let hps = if D.lt (D.lit 0 0) total then total else r.hashrate in
      let hit_of : HashApiMatch → Option (BlockHit F) =
        λ m. hit_from_match s difficulty now m (pos r.attempts) hps in
      let start : MineBatchResult F = record acc.0 {
        hashes_done = acc.0.hashes_done +ℤ pos r.attempts;
      } in
      elim (Bool-cases r.ok) [
        | inl ok ↦ rw ok (
          ok,
          record {
            keeps =
                matches-Keeps hit_of
                  (λ m. hit_from_match-GivesHit s difficulty now m (pos r.attempts) hps) r.matches
                  start ms (record { blocks = v.keeps.blocks; best = v.keeps.best });
            hashes =
                matches-hashes hit_of
                  (λ m. hit_from_match-GivesHit s difficulty now m (pos r.attempts) hps) r.matches
                  start
                ∙ ap (λ z. z +ℤ pos r.attempts) v.hashes
                ∙ add_pos n r.attempts;
          },
        )
        | inr bad ↦ rw bad bad
      ]

  -- What the loop over the lanes gives.
  abbrev pub Given :
      ℕ → List (Mailbox F) → List HashApiMatch → ℕ → (Text ⊎ Sum) × List (Mailbox F) → Type 0
  Given lanes boxes ms n (z, after) =
      (after ≡ on_first (good_lanes lanes boxes) take_result boxes)
      × (did_throw z ≡ ltb (good_lanes lanes boxes) (length (take lanes boxes)))
      × elim z as (λ _. Type 0) [
        | inl _ ↦ Unit
        | inr acc ↦
            Absorbed acc (ms ++ wave_matches (take lanes boxes))
              (n + wave_attempts (take lanes boxes))
      ]

  -- What the next result of a lane gives.
  abbrev HeadFact : Slot F → List HashApiMatch → ℕ → Text ⊎ Sum → Type 0
  HeadFact slot ms n z = elim z as (λ _. Type 0) [
    | inl _ ↦ is_good slot ≡ false
    | inr acc ↦
        (is_good slot ≡ true) × Absorbed acc (ms ++ slot.result.matches) (n + slot.result.attempts)
  ]

  head_fact :
      (slot : Slot F) (acc : Sum) (ms : List HashApiMatch) (n : ℕ)
      → Absorbed acc ms n
      → HeadFact slot ms n (
          if not (is_empty slot.error)
          then inl slot.error
          else absorb D s difficulty now slot.result acc)
  unfolding is_good
  head_fact slot acc ms n v = elim (Bool-cases (is_empty slot.error)) [
    | inr full ↦ rw full (ground (arith, full))
    | inl clear ↦
        let same : slot.result.ok ≡ is_good slot = ground (arith, clear) in
        rw clear (
          subst
            (λ b. elim (absorb D s difficulty now slot.result acc) as (λ _. Type 0) [
              | inl _ ↦ b ≡ false
              | inr acc' ↦
                  (b ≡ true) × Absorbed acc' (ms ++ slot.result.matches) (n + slot.result.attempts)
            ])
            same (absorb_cases slot.result acc ms n v))
  ]

  sum_further :
      (z : Text ⊎ Sum) (a b d : List HashApiMatch) (i j k : ℕ)
      → elim z as (λ _. Type 0) [
        | inl _ ↦ Unit
        | inr acc ↦ Absorbed acc ((a ++ b) ++ d) (i + j + k)
      ]
      → elim z as (λ _. Type 0) [
        | inl _ ↦ Unit
        | inr acc ↦ Absorbed acc (a ++ (b ++ d)) (i + (j + k))
      ]
  sum_further (inl _) a b d i j k h = tt
  sum_further (inr acc) a b d i j k h = record {
    keeps = subst (Keeps acc.0) (append_assoc a b d) h.keeps;
    hashes = h.hashes ∙ ap pos (omega arith);
  }

  lane-Given :
      (lanes : ℕ) (box : Mailbox F) (boxes : List (Mailbox F)) (ms : List HashApiMatch) (n : ℕ)
      → ((acc : Sum) (ms : List HashApiMatch) (n : ℕ)
          → Absorbed acc ms n
          → Given lanes boxes ms n (absorb_lanes D s difficulty now lanes boxes acc))
      → (z : Text ⊎ Sum) → HeadFact (next_slot box) ms n z
      → Given (suc lanes) (box ∷ boxes) ms n (elim z as (λ _. (Text ⊎ Sum) × List (Mailbox F)) [
        | inl error ↦ (inl error, box ∷ boxes)
        | inr acc ↦
            let (y, rest) = absorb_lanes D s difficulty now lanes boxes acc in
            (y, take_result box ∷ rest)
      ])
  unfolding on_first
  lane-Given lanes box boxes ms n ih (inl error) bad = rw bad (refl, ground arith, tt)
  lane-Given lanes box boxes ms n ih (inr acc) (good, v) =
      let x = next_slot box in
      let (after, threw, total) = ih acc (ms ++ x.result.matches) (n + x.result.attempts) v in
      rw good (
        ap (λ l. take_result box ∷ l) after,
        ground (arith, threw),
        sum_further (absorb_lanes D s difficulty now lanes boxes acc).0 ms x.result.matches
            (wave_matches (take lanes boxes)) n x.result.attempts (wave_attempts (take lanes boxes))
            total,
      )

  pub lanes-Given :
      (lanes : ℕ) (boxes : List (Mailbox F)) (acc : Sum) (ms : List HashApiMatch) (n : ℕ)
      → Absorbed acc ms n
      → Given lanes boxes ms n (absorb_lanes D s difficulty now lanes boxes acc)
  unfolding absorb_lanes on_first
  lanes-Given zero boxes acc ms n v = (
    refl,
    refl,
    record {
      keeps = subst (Keeps acc.0) (sym (append-nil ms)) v.keeps;
      hashes = v.hashes ∙ ap pos (omega arith);
    },
  )
  lanes-Given (suc lanes) [] acc ms n v = (
    refl,
    refl,
    record {
      keeps = subst (Keeps acc.0) (sym (append-nil ms)) v.keeps;
      hashes = v.hashes ∙ ap pos (omega arith);
    },
  )
  lanes-Given (suc lanes) (box ∷ boxes) acc ms n v =
      lane-Given lanes box boxes ms n (λ a m k w. lanes-Given lanes boxes a m k w) _
        (head_fact (next_slot box) acc ms n v)
