-- ===== src/Queue/Store/Codecs.antt =====
-- The JSON form of hits and blocks of src/queue/store.cpp, written and read.
use x1miner.Base.{
  ◌^◌, ◌≤◌, ◌<◌, ◌≡◌, refl, ap, subst, Bool, false, Option, none, some, List, [], ◌∷◌, ◌++◌, arith,
}
use x1miner.Base.Int.{to_int32, ℤ, pos, negsuc, pos_part, neg_part}
use x1miner.Base.Text.{Text, codes, text_eq}
use x1miner.Common.{BlockHit}
use x1miner.Common.Json.{JsonLib, JsonLaws, lookup}
use x1miner.Queue.Codec.{
  PendingBlock, value_text, value_int, value_int64, value_num, value_bool, read_cost, hit_fields,
  hit_to_json, hit_from_json, block_to_json, block_from_json,
}

-- The values of an `int`.
abbrev pub IsInt32 : ℤ → Type 0
IsInt32 z = (pos_part z < 2 ^ 31) × (neg_part z ≤ 2 ^ 31)

abbrev pub CostFits : Option ℤ → Type 0
CostFits none = Unit
CostFits (some m) = IsInt32 m

-- What of a hit goes through an `int` when it is read.
abbrev pub HitFits : {F : Type 0} → BlockHit F → Type 0
HitFits hit = IsInt32 hit.attempts × CostFits hit.memory_cost

pub to_int32_fits : (z : ℤ) → IsInt32 z → to_int32 z ≡ z
unfolding to_int32
to_int32_fits (pos n) h = ground arith
to_int32_fits (negsuc n) h = ground arith

module _ {F : Type 0} (J : JsonLib F) (L : JsonLaws J) (zero : F) where
  open J use {Json, object, int, text, num, bool}

  cost_back :
      (m : List (Text × Json)) (c : ℤ)
      → IsInt32 c
      → lookup (codes "memory_cost") m ≡ some (int c)
      → read_cost J (object m) ≡ some (some c)
  unfolding read_cost
  cost_back m c fits e =
      rw (L.get?-object m (codes "memory_cost"), e, read_cost)
        (simp (L.int_not_null, L.as_int-int, to_int32_fits c fits))

  no_cost_back :
      (m : List (Text × Json))
      → lookup (codes "memory_cost") m ≡ none
      → read_cost J (object m) ≡ some none
  unfolding read_cost
  no_cost_back m e = rw (L.get?-object m (codes "memory_cost"), e, read_cost)

  pub text_back :
      (m : List (Text × Json)) (k d t : Text)
      → lookup k m ≡ some (text t)
      → value_text J (object m) k d ≡ some t
  unfolding value_text
  text_back m k d t e = simp (L.object_is, L.get?-object, e, L.as_text-text)

  pub int_back :
      (m : List (Text × Json)) (k : Text) (d n : ℤ)
      → IsInt32 n
      → lookup k m ≡ some (int n)
      → value_int J (object m) k d ≡ some n
  unfolding value_int
  int_back m k d n fits e = simp (L.object_is, L.get?-object, e, L.as_int-int, to_int32_fits n fits)

  pub int64_back :
      (m : List (Text × Json)) (k : Text) (d n : ℤ)
      → lookup k m ≡ some (int n)
      → value_int64 J (object m) k d ≡ some n
  unfolding value_int64
  int64_back m k d n e = simp (L.object_is, L.get?-object, e, L.as_int-int)

  num_back :
      (m : List (Text × Json)) (k : Text) (d x : F)
      → lookup k m ≡ some (num x)
      → value_num J (object m) k d ≡ some x
  unfolding value_num
  num_back m k d x e = simp (L.object_is, L.get?-object, e, L.as_num-num)

  bool_back :
      (m : List (Text × Json)) (k : Text) (d b : Bool)
      → lookup k m ≡ some (bool b)
      → value_bool J (object m) k d ≡ some b
  unfolding value_bool
  bool_back m k d b e = simp (L.object_is, L.get?-object, e, L.as_bool-bool)

  -- What `hit_from_json` reads of an object, whatever else the object has.
  hit_back :
      (m : List (Text × Json)) (hit : BlockHit F)
      → IsInt32 hit.attempts
      → lookup (codes "key") m ≡ some (text hit.key)
      → lookup (codes "hash_str") m ≡ some (text hit.hash_str)
      → lookup (codes "block_type") m ≡ some (text hit.block_type)
      → lookup (codes "strategy") m ≡ some (text hit.strategy)
      → lookup (codes "attempts") m ≡ some (int hit.attempts)
      → lookup (codes "hps") m ≡ some (num hit.hps)
      → lookup (codes "found_at") m ≡ some (text hit.found_at)
      → read_cost J (object m) ≡ some hit.memory_cost
      → hit_from_json J zero (object m) ≡ some hit
  unfolding hit_from_json
  hit_back m hit fits a b c d e f g h = simp (
    text_back m (codes "key") [] hit.key a,
    text_back m (codes "hash_str") [] hit.hash_str b,
    text_back m (codes "block_type") (codes "XNM") hit.block_type c,
    text_back m (codes "strategy") (codes "random") hit.strategy d,
    int_back m (codes "attempts") (pos 0) hit.attempts fits e,
    num_back m (codes "hps") zero hit.hps f,
    text_back m (codes "found_at") [] hit.found_at g,
    h,
  )

  hit_cost_back :
      (hit : BlockHit F) (rest : List (Text × Json)) (c : Option ℤ)
      → hit.memory_cost ≡ c
      → CostFits c
      → lookup (codes "memory_cost") rest ≡ none
      → read_cost J (object (hit_fields J hit ++ rest)) ≡ some c
  unfolding hit_fields lookup text_eq
  hit_cost_back hit rest none e fits absent = no_cost_back _ (rw (e, hit_fields) absent)
  hit_cost_back hit rest (some m) e fits absent = cost_back _ m fits (rw (e, hit_fields))

  -- The fields of a hit, with others behind them that have other names.
  pub hit_fields_back :
      (hit : BlockHit F) (rest : List (Text × Json))
      → HitFits hit
      → lookup (codes "memory_cost") rest ≡ none
      → hit_from_json J zero (object (hit_fields J hit ++ rest)) ≡ some hit
  unfolding hit_fields lookup text_eq
  hit_fields_back hit rest fits absent =
      hit_back _ hit fits.0 refl refl refl refl refl refl refl
        (hit_cost_back hit rest hit.memory_cost refl fits.1 absent)

  append_none : (l : List (Text × Json)) → l ++ [] ≡ l
  append_none [] = refl
  append_none (x ∷ l) = ap (◌∷◌ x) (append_none l)

  -- Every hit whose attempts and memory cost fit an `int` is read back as it was written.
  pub hit_from_json-hit_to_json :
      (hit : BlockHit F) → HitFits hit → hit_from_json J zero (hit_to_json J hit) ≡ some hit
  unfolding hit_to_json lookup
  hit_from_json-hit_to_json hit fits =
      subst (λ m. hit_from_json J zero (object m) ≡ some hit) (append_none (hit_fields J hit))
        (hit_fields_back hit [] fits refl)

  abbrev block_tail : PendingBlock F → List (Text × Json)
  block_tail pb =
      (codes "id", int pb.id)
      ∷ (codes "queue_reason", text pb.queue_reason)
      ∷ (codes "reject_count", int pb.reject_count)
      ∷ (codes "forwarded", bool pb.forwarded)
      ∷ []

  block_lookups :
      (pb : PendingBlock F) (c : Option ℤ)
      → pb.hit.memory_cost ≡ c
      → let m = hit_fields J pb.hit ++ block_tail pb in
        (lookup (codes "id") m ≡ some (int pb.id))
        × (lookup (codes "reason") m ≡ none)
        × (lookup (codes "queue_reason") m ≡ some (text pb.queue_reason))
        × (lookup (codes "reject_count") m ≡ some (int pb.reject_count))
        × (lookup (codes "forwarded") m ≡ some (bool pb.forwarded))
  unfolding hit_fields lookup text_eq
  block_lookups pb none e = (
    rw (e, hit_fields),
    rw (e, hit_fields),
    rw (e, hit_fields),
    rw (e, hit_fields),
    rw (e, hit_fields),
  )
  block_lookups pb (some c) e = (
    rw (e, hit_fields),
    rw (e, hit_fields),
    rw (e, hit_fields),
    rw (e, hit_fields),
    rw (e, hit_fields),
  )

  pub absent_text :
      (m : List (Text × Json)) (k d : Text)
      → lookup k m ≡ none
      → value_text J (object m) k d ≡ some d
  unfolding value_text
  absent_text m k d e = simp (L.object_is, L.get?-object, e)

  -- Every block of the database file whose counts fit an `int` is read back as it was written.
  pub block_from_json-block_to_json :
      (pb : PendingBlock F) (next : ℤ)
      → HitFits pb.hit
      → IsInt32 pb.reject_count
      → block_from_json J zero next (block_to_json J pb) ≡ some pb
  unfolding block_to_json block_from_json lookup
  block_from_json-block_to_json pb next fits small =
      let m = hit_fields J pb.hit ++ block_tail pb in
      let (a, b, c, d, e) = block_lookups pb pb.hit.memory_cost refl in
      simp (
        int64_back m (codes "id") next pb.id a,
        hit_fields_back pb.hit (block_tail pb) fits (unfold text_eq in refl),
        absent_text m (codes "reason") [] b,
        text_back m (codes "queue_reason") [] pb.queue_reason c,
        int_back m (codes "reject_count") (pos 0) pb.reject_count small d,
        bool_back m (codes "forwarded") false pb.forwarded e,
      )
