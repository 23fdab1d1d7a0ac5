-- ===== src/Mining/Wave/Hits.antt =====
-- The hits of `mine_batch` of src/mining/cuda_engine.cpp: their order, and what is made of the matches.
use x1miner.Base.{
  ◌≡◌, refl, sym, ◌∙◌, subst, inl, inr, Bool, true, false, not, ◌&&◌, Option, none, some, List, [],
  ◌∷◌, ◌++◌, ltb, Bool-cases, not_both, arith, tally, tally-append, All, All-append,
}
use mathlib.Core.List.{append_assoc, append-nil}
use x1miner.Base.Int.{ℤ}
use x1miner.Base.Text.{Text, codes, text_eq}
use x1miner.Common.{BlockHit}
use x1miner.HashApi.Types.{HashApiMatch}
use x1miner.Mining.BlockTypes.{classify_block}
use x1miner.Mining.Encode.{is_hex64_key}
use x1miner.Mining.Engine.{EngineSettings}
use x1miner.Mining.Wave.{
  MineBatchResult, hit_from_match, hit_rank, better_hit, hit_before, text_before, absorb_matches,
}

text_asym : (s t : Text) → text_before s t ≡ true → text_before t s ≡ false
unfolding text_before
text_asym [] [] h = refl
text_asym [] (b ∷ t) h = refl
text_asym (a ∷ s) [] h = absurd (not_both refl h)
text_asym (a ∷ s) (b ∷ t) h = ground (arith, text_asym s t)

text_behind :
    (a b c : Text) → text_before c b ≡ false → text_before b a ≡ false → text_before c a ≡ false
unfolding text_before
text_behind [] b [] h k = refl
text_behind (x ∷ a) [] [] h k = k
text_behind (x ∷ a) (y ∷ b) [] h k = absurd (not_both h refl)
text_behind [] b (z ∷ c) h k = refl
text_behind (x ∷ a) [] (z ∷ c) h k = absurd (not_both k refl)
text_behind (x ∷ a) (y ∷ b) (z ∷ c) h k = ground (arith, text_behind a b c)

-- A match that the miner keeps.
abbrev pub is_block : HashApiMatch → Bool
is_block m =
    not (text_eq (classify_block m.hash m.matched_pattern) (codes "OTHER")) && is_hex64_key m.key

-- A match that is a block and passes the test.
abbrev pub counted : (Text → Text → Text → Bool) → HashApiMatch → Bool
counted q m = is_block m && q m.key m.hash (classify_block m.hash m.matched_pattern)

module _ {F : Type 0} where
  pub before_asym : (b a : BlockHit F) → hit_before b a ≡ true → hit_before a b ≡ false
  unfolding hit_before
  before_asym b a h = ground (arith, text_asym b.key a.key)

  pub before_behind :
      (a b c : BlockHit F)
      → hit_before c b ≡ false
      → hit_before b a ≡ false
      → hit_before c a ≡ false
  unfolding hit_before
  before_behind a b c h k = ground (arith, text_behind a.key b.key c.key)

  -- The best hit: none where there is none, otherwise of a rank that no hit is below.
  abbrev pub IsBest : Option (BlockHit F) → List (BlockHit F) → Type 0
  IsBest best hits = elim best as (λ _. Type 0) [
    | none ↦ hits ≡ []
    | some h ↦ All (λ g. ltb (hit_rank g) (hit_rank h) ≡ false) hits
  ]

  All-worse :
      (h b : BlockHit F) (hits : List (BlockHit F))
      → ltb (hit_rank h) (hit_rank b) ≡ true
      → All (λ g. ltb (hit_rank g) (hit_rank b) ≡ false) hits
      → All (λ g. ltb (hit_rank g) (hit_rank h) ≡ false) hits
  All-worse h b [] less v = tt
  All-worse h b (g ∷ hits) less v = (ground (arith, less, v.0), All-worse h b hits less v.1)

  better-IsBest :
      (h : BlockHit F) (best : Option (BlockHit F)) (hits : List (BlockHit F))
      → IsBest best hits
      → IsBest (better_hit h best) (hits ++ h ∷ [])
  unfolding better_hit
  better-IsBest h none hits v =
      subst (λ l. All (λ g. ltb (hit_rank g) (hit_rank h) ≡ false) (l ++ h ∷ [])) (sym v)
        (ground arith, tt)
  better-IsBest h (some b) hits v = elim (Bool-cases (ltb (hit_rank h) (hit_rank b))) [
    | inl less ↦ rw less (
        All-append (λ g. ltb (hit_rank g) (hit_rank h) ≡ false) hits (h ∷ [])
          (All-worse h b hits less v) (ground arith, tt))
    | inr more ↦
        rw more (All-append (λ g. ltb (hit_rank g) (hit_rank b) ≡ false) hits (h ∷ []) v (more, tt))
  ]

  -- The hits are the blocks among the matches, counted by any test of the key, the hash and the kind.
  abbrev pub SameBlocks : List (BlockHit F) → List HashApiMatch → Type 0
  SameBlocks hits ms =
      (q : Text → Text → Text → Bool)
      → tally (λ h. q h.key h.hash_str h.block_type) hits ≡ tally (counted q) ms

  pub record Keeps (out : MineBatchResult F) (ms : List HashApiMatch) : Type 0 where
    pub blocks : SameBlocks out.hits ms
    pub best : IsBest out.hit out.hits

  -- What a match gives: nothing, or a hit with its key, hash and kind.
  abbrev GivesHit : HashApiMatch → Option (BlockHit F) → Type 0
  GivesHit m found = elim found as (λ _. Type 0) [
    | none ↦ is_block m ≡ false
    | some h ↦
        (is_block m ≡ true)
        × (h.key ≡ m.key)
        × (h.hash_str ≡ m.hash)
        × (h.block_type ≡ classify_block m.hash m.matched_pattern)
  ]

  pub hit_from_match-GivesHit :
      (s : EngineSettings F) (difficulty : ℤ) (now : Text) (m : HashApiMatch) (attempts : ℤ)
      (hps : F)
      → GivesHit m (hit_from_match s difficulty now m attempts hps)
  unfolding hit_from_match
  hit_from_match-GivesHit s difficulty now m attempts hps =
      elim (Bool-cases (text_eq (classify_block m.hash m.matched_pattern) (codes "OTHER"))) [
        | inl other ↦ rw other (ground (arith, other))
        | inr known ↦ elim (Bool-cases (is_hex64_key m.key)) [
          | inl good ↦ rw (known, good) (ground (arith, known, good), refl, refl, refl)
          | inr bad ↦ rw (known, bad) (ground (arith, bad))
        ]
      ]

  module _ (hit_of : HashApiMatch → Option (BlockHit F))
      (gives : (m : HashApiMatch) → GivesHit m (hit_of m)) where
    -- The result after one match.
    abbrev with_match : Option (BlockHit F) → MineBatchResult F → MineBatchResult F
    with_match found out = elim found as (λ _. MineBatchResult F) [
      | none ↦ out
      | some h ↦ record out { hits = out.hits ++ h ∷ []; hit = better_hit h out.hit }
    ]

    same_hashes :
        (found : Option (BlockHit F)) (out : MineBatchResult F)
        → (with_match found out).hashes_done ≡ out.hashes_done
    same_hashes none out = refl
    same_hashes (some h) out = refl

    match-Keeps :
        (m : HashApiMatch) (found : Option (BlockHit F)) (out : MineBatchResult F)
        (ms : List HashApiMatch)
        → GivesHit m found
        → Keeps out ms
        → Keeps (with_match found out) (ms ++ m ∷ [])
    match-Keeps m none out ms g v = record {
      blocks = λ q. v.blocks q ∙ ground (arith, tally-append (counted q) ms (m ∷ []), g);
      best = v.best;
    }
    match-Keeps m (some h) out ms (block, key, hash, kind) v = record {
      blocks = λ q.
          let same : q h.key h.hash_str h.block_type
              ≡ q m.key m.hash (classify_block m.hash m.matched_pattern) =
            cc in
          ground (
            arith,
            v.blocks q,
            same,
            block,
            tally-append (counted q) ms (m ∷ []),
            tally-append (λ (g : BlockHit F). q g.key g.hash_str g.block_type) out.hits (h ∷ []),
          );
      best = better-IsBest h out.hit out.hits v.best;
    }

    pub matches-Keeps :
        (l : List HashApiMatch) (out : MineBatchResult F) (ms : List HashApiMatch)
        → Keeps out ms
        → Keeps (absorb_matches hit_of l out) (ms ++ l)
    unfolding absorb_matches
    matches-Keeps [] out ms v = subst (Keeps out) (sym (append-nil ms)) v
    matches-Keeps (m ∷ l) out ms v =
        subst (Keeps (absorb_matches hit_of l (with_match (hit_of m) out)))
          (append_assoc ms (m ∷ []) l)
          (matches-Keeps l (with_match (hit_of m) out) (ms ++ m ∷ [])
            (match-Keeps m (hit_of m) out ms (gives m) v))

    pub matches-hashes :
        (l : List HashApiMatch) (out : MineBatchResult F)
        → (absorb_matches hit_of l out).hashes_done ≡ out.hashes_done
    unfolding absorb_matches
    matches-hashes [] out = refl
    matches-hashes (m ∷ l) out =
        matches-hashes l (with_match (hit_of m) out) ∙ same_hashes (hit_of m) out
