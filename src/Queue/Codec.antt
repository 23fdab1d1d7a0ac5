-- ===== src/Queue/Codec.antt =====
-- src/queue/store.cpp: `PendingBlock`, and how hits and blocks are written as JSON and read back.
-- A read that throws is `none`.
use x1miner.Base.{
  ◌≡◌, refl, Bool, true, false, ◌&&◌, ◌||◌, Option, none, some, List, [], ◌∷◌, ◌++◌, map,
  if◌then◌else◌, is_some,
}
use x1miner.Base.Int.{ℤ, pos, to_int32}
use x1miner.Base.Text.{Text, codes, is_empty}
use x1miner.Common.{BlockHit}
use x1miner.Common.Json.{JsonLib}

pub record PendingBlock (F : Type 0) : Type 0 where
  pub id : ℤ
  pub hit : BlockHit F
  pub queue_reason : Text
  pub reject_count : ℤ
  pub forwarded : Bool

infixl 5 ◌>>=◌
abbrev pub ◌>>=◌ {ℓ κ} : {A : Type ℓ} {B : Type κ} → Option A → (A → Option B) → Option B
none >>= f = none
some a >>= f = f a

-- Inversion of a successful bind.
pub >>=-eq-some {ℓ κ} :
    {A : Type ℓ} {B : Type κ} (m : Option A) (f : A → Option B) {b : B}
    → (m >>= f) ≡ some b
    → (a : A) × (m ≡ some a) × (f a ≡ some b)
>>=-eq-some none f h = cc
>>=-eq-some (some a) f h = (a, refl, h)

module _ {F : Type 0} (J : JsonLib F) where
  open J use {
    Json, Doc, parse, dump, object, array, text, int, num, bool, is_object, is_array, is_null, get?,
    items, as_text, as_int, as_num, as_bool,
  }

  -- `j.value(k, d)`
  value_by {ℓ} : {A : Type ℓ} → (Json → Option A) → Json → Text → A → Option A
  value_by read j k d =
      if is_object j then elim (get? j k) [ none ↦ some d | some v ↦ read v ] else none

  unfoldable pub value_text : Json → Text → Text → Option Text
  unfolding value_by
  value_text = value_by as_text

  unfoldable pub value_int64 : Json → Text → ℤ → Option ℤ
  unfolding value_by
  value_int64 = value_by as_int

  pub read_int32 : Json → Option ℤ
  read_int32 v = do n ← as_int v; some (to_int32 n)

  unfoldable pub value_int : Json → Text → ℤ → Option ℤ
  unfolding value_by read_int32
  value_int = value_by read_int32

  unfoldable pub value_num : Json → Text → F → Option F
  unfolding value_by
  value_num = value_by as_num

  unfoldable pub value_bool : Json → Text → Bool → Option Bool
  unfolding value_by
  value_bool = value_by as_bool

  cost_fields : Option ℤ → List (Text × Json)
  cost_fields none = []
  cost_fields (some m) = (codes "memory_cost", int m) ∷ []

  unfoldable pub hit_fields : BlockHit F → List (Text × Json)
  unfolding cost_fields
  hit_fields hit =
      (codes "key", text hit.key)
      ∷ (codes "hash_str", text hit.hash_str)
      ∷ (codes "block_type", text hit.block_type)
      ∷ (codes "strategy", text hit.strategy)
      ∷ (codes "attempts", int hit.attempts)
      ∷ (codes "hps", num hit.hps)
      ∷ (codes "found_at", text hit.found_at)
      ∷ cost_fields hit.memory_cost

  unfoldable pub hit_to_json : BlockHit F → Json
  unfolding hit_fields
  hit_to_json hit = object (hit_fields hit)

  -- The `contains` and `is_null` tests in front of `get<int>()`.
  unfoldable pub read_cost : Json → Option (Option ℤ)
  unfolding read_int32
  read_cost j = elim (get? j (codes "memory_cost")) [
    | none ↦ some none
    | some v ↦ if is_null v then some none else (read_int32 v >>= λ m. some (some m))
  ]

  -- `zero` is the default 0.0 of `hps`.
  unfoldable pub hit_from_json : F → Json → Option (BlockHit F)
  hit_from_json zero j = do
    key ← value_text j (codes "key") []
    hash_str ← value_text j (codes "hash_str") []
    block_type ← value_text j (codes "block_type") (codes "XNM")
    strategy ← value_text j (codes "strategy") (codes "random")
    attempts ← value_int j (codes "attempts") (pos 0)
    hps ← value_num j (codes "hps") zero
    found_at ← value_text j (codes "found_at") []
    memory_cost ← read_cost j
    some (record {
      key = key;
      hash_str = hash_str;
      block_type = block_type;
      attempts = attempts;
      strategy = strategy;
      hps = hps;
      found_at = found_at;
      memory_cost = memory_cost;
    })

  unfoldable pub hits_to_bag_json : List (BlockHit F) → Text → Doc
  hits_to_bag_json hits worker =
      dump
        (object ((codes "worker", text worker) ∷ (codes "hits", array (map hit_to_json hits)) ∷ []))

  -- The lambda `take`, over the items of an array.
  unfoldable pub take_hits : F → List Json → List (BlockHit F) → Option (List (BlockHit F))
  take_hits zero [] out = some out
  take_hits zero (item ∷ rest) out = elim (is_object item) [
    | false ↦ take_hits zero rest out
    | true ↦ elim (hit_from_json zero item) [
      | none ↦ none
      | some hit ↦
          take_hits zero rest
            (if is_empty hit.hash_str && is_empty hit.key then out else out ++ hit ∷ [])
    ]
  ]

  -- The array under a key, if there is one.
  unfoldable pub array_at : Json → Text → Option (List Json)
  array_at j k = elim (get? j k) [
    | none ↦ none
    | some v ↦ if is_array v then some (items v) else none
  ]

  -- The hits of a bag in one of its three shapes; `out.size()` is their number.
  unfoldable pub hits_of_root : F → Json → Option (List (BlockHit F))
  hits_of_root zero root = elim (array_at root (codes "hits")) [
    | some l ↦ take_hits zero l []
    | none ↦ elim (array_at root (codes "pending")) [
      | some l ↦ take_hits zero l []
      | none ↦
          if is_object root
            && (is_some (get? root (codes "hash_str")) || is_some (get? root (codes "key")))
          then take_hits zero (root ∷ []) []
          else some []
    ]
  ]

  -- The name of the sender; it is left as it was where neither key is there.
  unfoldable pub worker_of_root : Json → Text → Option Text
  worker_of_root root worker =
      if is_some (get? root (codes "worker"))
      then value_text root (codes "worker") []
      else if is_some (get? root (codes "source"))
      then value_text root (codes "source") []
      else some worker

  unfoldable pub hits_from_bag_json : F → Doc → Text → Option (List (BlockHit F) × Text)
  hits_from_bag_json zero body worker = elim (parse body) [
    | none ↦ some ([], worker)
    | some root ↦ do w ← worker_of_root root worker; hits ← hits_of_root zero root; some (hits, w)
  ]

  -- One element of `pending` in the database file.
  unfoldable pub block_to_json : PendingBlock F → Json
  unfolding hit_fields
  block_to_json pb = object (
      hit_fields pb.hit
      ++ (codes "id", int pb.id)
        ∷ (codes "queue_reason", text pb.queue_reason)
        ∷ (codes "reject_count", int pb.reject_count)
        ∷ (codes "forwarded", bool pb.forwarded)
        ∷ [])

  -- The body of the loop of `load`; `next` is the id for an item without one.
  unfoldable pub block_from_json : F → ℤ → Json → Option (PendingBlock F)
  block_from_json zero next item = do
    id ← value_int64 item (codes "id") next
    hit ← hit_from_json zero item
    reason ← value_text item (codes "reason") []
    queue_reason ← value_text item (codes "queue_reason") reason
    reject_count ← value_int item (codes "reject_count") (pos 0)
    forwarded ← value_bool item (codes "forwarded") false
    some (record {
      id = id;
      hit = hit;
      queue_reason = queue_reason;
      reject_count = reject_count;
      forwarded = forwarded;
    })
