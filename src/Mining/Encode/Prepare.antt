-- ===== src/Mining/Encode/Prepare.antt =====
-- `prepare_hit_for_submit` of src/mining/argon2_encode.cpp, applied to its own result.
use x1miner.Base.{
  ℕ, ◌^◌, ◌<◌, ◌≡◌, ◌⊎◌, refl, ap, subst, ◌∙◌, arith, true, false, none, some, [], ◌∷◌, ◌++◌,
  Bool-cases, Option-cases, inl, inr,
}
use x1miner.Base.Int.{ℤ, pos, ◌==ℤ◌, ==ℤ_refl, ==ℤ→eq, to_uint32}
use x1miner.Base.Text.{Text, codes, starts_with, contains}
use x1miner.Common.{BlockHit}
use x1miner.Mining.BlockTypes.{classify_block}
use x1miner.Mining.BlockTypes.Laws.{classify_block_idempotent}
use x1miner.Mining.Encode.{
  encode_argon2id_phc, is_argon2_encoded, memory_cost_from_hash, prepare_hit_for_submit,
}
use x1miner.Mining.Encode.Laws.{is_argon2_encoded-phc, memory_cost_from_hash-phc, before_digest}

starts_with_refl : (p : Text) → starts_with p p ≡ true
unfolding starts_with
starts_with_refl [] = refl
starts_with_refl (a ∷ p) = ground (arith, starts_with_refl p)

contains-suffix : (p s : Text) → contains p (s ++ p) ≡ true
unfolding contains
contains-suffix [] [] = starts_with_refl []
contains-suffix (a ∷ p) [] = rw (starts_with_refl (a ∷ p)) refl
contains-suffix p (c ∷ s) = ground (arith, contains-suffix p s)

contains-phc :
    (salt : Text) (m t p : ℕ) (pure : Text)
    → contains pure (encode_argon2id_phc salt m t p pure) ≡ true
unfolding encode_argon2id_phc
contains-phc salt m t p pure = contains-suffix pure (b'$' ∷ before_digest salt m t p ++ codes "$")

to_uint32-pos : (m : ℕ) → m < 2 ^ 31 → to_uint32 (pos m) ≡ m
unfolding to_uint32
to_uint32-pos m h = omega arith

module _ {F : Type 0} where
  -- The hit with its kind found again.
  abbrev pub tidy : BlockHit F → BlockHit F
  tidy h = record h { block_type = classify_block h.hash_str h.block_type }

  tidy_idempotent : (h : BlockHit F) → tidy (tidy h) ≡ tidy h
  tidy_idempotent h =
      ap (λ t. record h { block_type = t }) (classify_block_idempotent h.hash_str h.block_type)

  abbrev MayCost : BlockHit F → ℤ → Type 0
  MayCost h m =
      (memory_cost_from_hash h.hash_str ≡ none) ⊎ (memory_cost_from_hash h.hash_str ≡ some m)

  prepare_encoded :
      (h : BlockHit F) (salt : Text) (m t p : ℤ)
      → is_argon2_encoded h.hash_str ≡ true
      → MayCost h m
      → prepare_hit_for_submit h salt m t p ≡ some (tidy h)
  unfolding prepare_hit_for_submit
  prepare_encoded h salt m t p e (inl c) = rw (e, c) refl
  prepare_encoded h salt m t p e (inr c) = rw (e, c, ==ℤ_refl m) refl

  prepare_encoded_eq :
      (h : BlockHit F) (salt : Text) (m t p : ℤ) (out : BlockHit F)
      → is_argon2_encoded h.hash_str ≡ true
      → prepare_hit_for_submit h salt m t p ≡ some out
      → MayCost h m × (tidy h ≡ out)
  unfolding prepare_hit_for_submit
  prepare_encoded_eq h salt m t p out e f = elim (Option-cases (memory_cost_from_hash h.hash_str)) [
    | inl c ↦ let g = (rw (e, c) at f) in (inl c, cc)
    | inr (n, c) ↦ elim (Bool-cases (n ==ℤ m)) [
      | inl same ↦ let g = (rw (e, c, same) at f) in (inr (c ∙ ap some (==ℤ→eq n m same)), cc)
      | inr other ↦ let g = (rw (e, c, other) at f) in cc
    ]
  ]

  -- The hit with the hash that is assembled for it.
  abbrev pub assembled : BlockHit F → Text → ℤ → ℤ → ℤ → BlockHit F
  assembled h salt m t p =
      let encoded = encode_argon2id_phc salt (to_uint32 m) (to_uint32 t) (to_uint32 p) h.hash_str in
      record h {
        hash_str = encoded;
        block_type = classify_block encoded h.block_type;
        memory_cost = some m;
      }

  pub prepare_pure :
      (h : BlockHit F) (salt : Text) (m t p : ℤ)
      → is_argon2_encoded h.hash_str ≡ false
      → prepare_hit_for_submit h salt m t p ≡ some (assembled h salt m t p)
  unfolding prepare_hit_for_submit
  prepare_pure h salt m t p e =
      rw (e, contains-phc salt (to_uint32 m) (to_uint32 t) (to_uint32 p) h.hash_str) refl

  pub prepare_hit_for_submit-encoded :
      (h out : BlockHit F) (salt : Text) (m t p : ℤ)
      → prepare_hit_for_submit h salt m t p ≡ some out
      → is_argon2_encoded out.hash_str ≡ true
  prepare_hit_for_submit-encoded h out salt m t p e =
      let P : BlockHit F → Type 0 = λ o. is_argon2_encoded o.hash_str ≡ true in
      elim (Bool-cases (is_argon2_encoded h.hash_str)) [
        | inl enc ↦ subst P (prepare_encoded_eq h salt m t p out enc e).1 enc
        | inr pure ↦
            let told = prepare_pure h salt m t p pure in
            let same : assembled h salt m t p ≡ out = cc in
            subst P same
              (is_argon2_encoded-phc salt (to_uint32 m) (to_uint32 t) (to_uint32 p) h.hash_str)
      ]

  -- For a memory cost that is a natural `int`: where a hit is prepared, its hash was encoded and the
  -- result is the hit with its kind found again, or it was not and the result is the hit with the
  -- assembled hash. Either way the result's hash is encoded, and it is prepared again to itself.
  pub prepare_hit_for_submit_twice :
      (h out : BlockHit F) (salt : Text) (m : ℕ) (t p : ℤ)
      → m < 2 ^ 31
      → prepare_hit_for_submit h salt (pos m) t p ≡ some out
      → ((is_argon2_encoded h.hash_str ≡ true) × (out ≡ tidy h)
          ⊎ (is_argon2_encoded h.hash_str ≡ false) × (out ≡ assembled h salt (pos m) t p))
        × (is_argon2_encoded out.hash_str ≡ true)
        × (prepare_hit_for_submit out salt (pos m) t p ≡ some out)
  prepare_hit_for_submit_twice h out salt m t p hm e =
      elim (Bool-cases (is_argon2_encoded h.hash_str)) [
        | inl enc ↦
            let (cost, same) = prepare_encoded_eq h salt (pos m) t p out enc e in
            subst
              (λ (o : BlockHit F).
                ((is_argon2_encoded h.hash_str ≡ true) × (o ≡ tidy h)
                  ⊎ (is_argon2_encoded h.hash_str ≡ false) × (o ≡ assembled h salt (pos m) t p))
                × (is_argon2_encoded o.hash_str ≡ true)
                × (prepare_hit_for_submit o salt (pos m) t p ≡ some o))
              same
              (
                inl (enc, refl),
                enc,
                prepare_encoded (tidy h) salt (pos m) t p enc cost ∙ ap some (tidy_idempotent h),
              )
        | inr pure ↦
            let ready = assembled h salt (pos m) t p in
            let u = to_uint32 (pos m) in
            let v = to_uint32 t in
            let w = to_uint32 p in
            let enc = is_argon2_encoded-phc salt u v w h.hash_str in
            let cost : memory_cost_from_hash ready.hash_str ≡ some (pos m) =
              memory_cost_from_hash-phc salt u v w h.hash_str (rw (to_uint32-pos m hm) hm)
              ∙ ap (λ n. some (pos n)) (to_uint32-pos m hm) in
            let told = prepare_pure h salt (pos m) t p pure in
            let same : ready ≡ out = cc in
            subst
              (λ (o : BlockHit F).
                ((is_argon2_encoded h.hash_str ≡ true) × (o ≡ tidy h)
                  ⊎ (is_argon2_encoded h.hash_str ≡ false) × (o ≡ assembled h salt (pos m) t p))
                × (is_argon2_encoded o.hash_str ≡ true)
                × (prepare_hit_for_submit o salt (pos m) t p ≡ some o))
              same
              (
                inr (pure, refl),
                enc,
                prepare_encoded ready salt (pos m) t p enc (inr cost)
                    ∙ ap some (tidy_idempotent (record ready { block_type = h.block_type })),
              )
      ]
