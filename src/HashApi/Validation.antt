-- ===== src/HashApi/Validation.antt =====
-- vendor/hashapi/HashApiValidation.cpp.
pub mod Laws
use x1miner.Base.{
  ℕ, ◌%◌, Bool, true, false, not, ◌&&◌, ◌||◌, List, [], ◌∷◌, ◌++◌, ltb, leb, ◌==◌, if◌then◌else◌,
  length, drop, all,
}
use x1miner.Base.Int.{ℤ, pos, ◌<ℤ?◌}
use x1miner.Base.Text.{Text, codes, is_empty, is_xdigit, lower, starts_with, text_eq, mem_text}
use x1miner.HashApi.Types.{HashApiRequest}

unfoldable pub is_supported_algorithm : Text → Bool
is_supported_algorithm algorithm = text_eq algorithm (codes "argon2id-xen")

unfoldable pub is_supported_backend : Text → Bool
is_supported_backend backend =
    mem_text backend (codes "cpu" ∷ codes "reference" ∷ codes "cuda" ∷ [])

unfoldable pub is_hex_string : Text → Bool
is_hex_string value = all is_xdigit value

unfoldable pub has_hex_prefix : Text → Bool
has_hex_prefix (a ∷ b ∷ _) = (a == b'0') && ((b == b'x') || (b == b'X'))
has_hex_prefix _ = false

unfoldable pub normalize_hex : Text → Text
normalize_hex value = lower (if has_hex_prefix value then drop 2 value else value)

-- `if (wrong) errors.push_back(message);`
unfoldable pub error_if : Bool → Text → List Text
error_if wrong message = if wrong then message ∷ [] else []

unfoldable pub salt_errors : Text → List Text
salt_errors salt =
    if is_empty salt
    then codes "salt_hex is required" ∷ []
    else error_if (not (length salt % 2 == 0))
        (codes "salt_hex must contain an even number of hex characters")
      ++ error_if (ltb (length salt) 16) (codes "salt_hex must be at least 16 hex characters")
      ++ error_if (not (is_hex_string salt)) (codes "salt_hex must contain only hex characters")

unfoldable pub prefix_errors : Text → List Text
prefix_errors prefix =
    if is_empty prefix
    then []
    else error_if (ltb 64 (length prefix)) (codes "key_prefix cannot exceed 64 hex characters")
      ++ error_if (not (is_hex_string prefix)) (codes "key_prefix must contain only hex characters")

unfoldable pub key_errors : Text → Text → List Text
key_errors prefix key =
    if is_empty key
    then []
    else error_if (not (length key == 64)) (codes "key must contain exactly 64 hex characters")
      ++ error_if (not (is_hex_string key)) (codes "key must contain only hex characters")
      ++ error_if (not (is_empty prefix) && not (starts_with prefix key))
          (codes "key must start with key_prefix when both are provided")

unfoldable pub work_errors : HashApiRequest → List Text
work_errors request =
    error_if (is_empty request.target_pattern) (codes "target_pattern is required")
    ++ error_if (ltb 128 (length request.target_pattern)) (codes "target_pattern is too long")
    ++ error_if (request.difficulty == 0) (codes "difficulty must be greater than zero")
    ++ error_if (request.batch_size == 0) (codes "batch_size must be greater than zero")
    ++ error_if
        ((text_eq request.backend (codes "cpu") || text_eq request.backend (codes "reference"))
          && ltb 10000 request.batch_size)
        (codes "cpu batch_size exceeds safe limit")
    ++ error_if (request.device_id <ℤ? pos 0) (codes "device_id must be non-negative")
    ++ error_if (request.gpu_first_blocks && not (text_eq request.backend (codes "cuda")))
        (codes "gpu_first_blocks requires backend=cuda")

unfoldable pub validate_request : HashApiRequest → List Text
validate_request request =
    let salt = normalize_hex request.salt_hex in
    let prefix = normalize_hex request.key_prefix in
    let key = normalize_hex request.key in
    error_if (not (is_supported_algorithm request.algorithm))
      (codes "unsupported algorithm: " ++ request.algorithm)
    ++ error_if (not (is_supported_backend request.backend))
        (codes "unsupported backend: " ++ request.backend)
    ++ salt_errors salt
    ++ prefix_errors prefix
    ++ key_errors prefix key
    ++ work_errors request

unfoldable pub is_valid_request : HashApiRequest → Bool
is_valid_request request = elim (validate_request request) [ [] ↦ true | _ ∷ _ ↦ false ]

unfoldable pub join_errors : List Text → Text
join_errors [] = []
join_errors (e ∷ []) = e
join_errors (e ∷ f ∷ errors) = e ++ codes "; " ++ join_errors (f ∷ errors)
