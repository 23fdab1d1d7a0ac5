-- ===== src/Common/Json.antt =====
-- The JSON library (third_party/nlohmann/json.hpp) as an interface: a type of values, its
-- constructors and accessors, and the type `Doc` of printed documents.
use x1miner.Base.{◌≡◌, Bool, true, false, if◌then◌else◌, Option, none, some, List, [], ◌∷◌}
use x1miner.Base.Int.{ℤ}
use x1miner.Base.Text.{Text, text_eq}

unfoldable pub lookup {ℓ} : {V : Type ℓ} → Text → List (Text × V) → Option V
lookup k [] = none
lookup k ((j, v) ∷ m) = if text_eq j k then some v else lookup k m

pub record JsonLib (F : Type 0) : Type 1 where
  pub Json : Type 0
  pub Doc : Type 0
  -- `none` is a discarded value.
  pub parse : Doc → Option Json
  pub dump : Json → Doc
  -- Whether `dump` returns: it throws `type_error` 316 on a text that is no UTF-8.
  pub prints : Json → Bool
  pub object : List (Text × Json) → Json
  pub array : List Json → Json
  pub text : Text → Json
  pub int : ℤ → Json
  pub num : F → Json
  pub bool : Bool → Json
  pub is_object : Json → Bool
  pub is_array : Json → Bool
  pub is_null : Json → Bool
  -- `find`: nothing for a missing key and for a value that is no object.
  pub get? : Json → Text → Option Json
  -- The elements of an array.
  pub items : Json → List Json
  -- `get<T>()`; `none` is a `type_error`. An integer is read at 64 bits.
  pub as_text : Json → Option Text
  pub as_int : Json → Option ℤ
  pub as_num : Json → Option F
  pub as_bool : Json → Option Bool
  -- All its numbers are finite and all its texts UTF-8: what `dump` prints without loss.
  pub IsPrintable : Json → Type 0

-- What the library documents of them.
pub record JsonLaws {F : Type 0} (J : JsonLib F) : Type 0 where
  pub parse-dump : (j : J.Json) → J.IsPrintable j → J.parse (J.dump j) ≡ some j
  pub object_is : (m : List (Text × J.Json)) → J.is_object (J.object m) ≡ true
  pub array_is : (l : List J.Json) → J.is_array (J.array l) ≡ true
  pub int_not_null : (n : ℤ) → J.is_null (J.int n) ≡ false
  pub get?-object : (m : List (Text × J.Json)) (k : Text) → J.get? (J.object m) k ≡ lookup k m
  pub items-array : (l : List J.Json) → J.items (J.array l) ≡ l
  pub as_text-text : (t : Text) → J.as_text (J.text t) ≡ some t
  pub as_int-int : (n : ℤ) → J.as_int (J.int n) ≡ some n
  pub as_num-num : (x : F) → J.as_num (J.num x) ≡ some x
  pub as_bool-bool : (b : Bool) → J.as_bool (J.bool b) ≡ some b
