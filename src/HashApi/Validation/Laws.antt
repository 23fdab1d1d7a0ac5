-- ===== src/HashApi/Validation/Laws.antt =====
-- vendor/hashapi/HashApiValidation.cpp beside the rules of a good request.
use x1miner.Base.{
  ◌%◌, ◌≡◌, refl, ◌∙◌, arith, Bool, true, false, not, ◌&&◌, ◌||◌, List, [], ◌∷◌, ◌++◌, ltb, leb,
  ◌==◌, length,
}
use x1miner.Base.Int.{pos, ◌≤ℤ?◌}
use x1miner.Base.Text.{Text, codes, is_empty, starts_with, text_eq}
use x1miner.HashApi.Types.{HashApiRequest}
use x1miner.HashApi.Validation.{
  is_supported_algorithm, is_supported_backend, is_hex_string, normalize_hex, error_if, salt_errors,
  prefix_errors, key_errors, work_errors, validate_request, is_valid_request,
}

unfoldable none_left : List Text → Bool
none_left [] = true
none_left (_ ∷ _) = false

none_left-append : (a b : List Text) → none_left (a ++ b) ≡ (none_left a && none_left b)
unfolding none_left
none_left-append [] b = refl
none_left-append (x ∷ a) b = refl

none_left-error_if : (wrong : Bool) (m : Text) → none_left (error_if wrong m) ≡ not wrong
unfolding none_left error_if
none_left-error_if true m = refl
none_left-error_if false m = refl

ruleset none_rules = (none_left-append, none_left-error_if)

-- What a request must be, by part: a salt of at least 16 hexadecimal digits, an even number of
-- them; a prefix of at most 64; a key, if there is one, of 64 that begin with the prefix; and work
-- that the backend does.
unfoldable pub good_salt : Text → Bool
good_salt s = (length s % 2 == 0) && leb 16 (length s) && is_hex_string s

unfoldable pub good_prefix : Text → Bool
good_prefix p = leb (length p) 64 && is_hex_string p

unfoldable pub good_key : Text → Text → Bool
good_key p k = is_empty k || (length k == 64) && is_hex_string k && starts_with p k

unfoldable pub good_work : HashApiRequest → Bool
good_work r =
    not (is_empty r.target_pattern)
    && leb (length r.target_pattern) 128
    && ltb 0 r.difficulty
    && ltb 0 r.batch_size
    && (not (text_eq r.backend (codes "cpu") || text_eq r.backend (codes "reference"))
        || leb r.batch_size 10000)
    && (pos 0 ≤ℤ? r.device_id)
    && (not r.gpu_first_blocks || text_eq r.backend (codes "cuda"))

unfoldable pub good_request : HashApiRequest → Bool
good_request r =
    text_eq r.algorithm (codes "argon2id-xen")
    && is_supported_backend r.backend
    && good_salt (normalize_hex r.salt_hex)
    && good_prefix (normalize_hex r.key_prefix)
    && good_key (normalize_hex r.key_prefix) (normalize_hex r.key)
    && good_work r

none_left-salt_errors : (s : Text) → none_left (salt_errors s) ≡ good_salt s
unfolding salt_errors good_salt is_empty none_left is_hex_string
none_left-salt_errors [] = refl
none_left-salt_errors (c ∷ s) = simp none_rules (ground arith)

none_left-prefix_errors : (p : Text) → none_left (prefix_errors p) ≡ good_prefix p
unfolding prefix_errors good_prefix is_empty none_left is_hex_string
none_left-prefix_errors [] = refl
none_left-prefix_errors (c ∷ p) = simp none_rules (ground arith)

none_left-key_errors : (p k : Text) → none_left (key_errors p k) ≡ good_key p k
unfolding key_errors good_key is_empty starts_with none_left
none_left-key_errors p [] = refl
none_left-key_errors [] (c ∷ k) = simp none_rules (ground arith)
none_left-key_errors (a ∷ p) (c ∷ k) = simp none_rules (ground arith)

none_left-work_errors : (r : HashApiRequest) → none_left (work_errors r) ≡ good_work r
unfolding work_errors good_work
none_left-work_errors r = simp none_rules (ground arith)

is_valid_request-none_left :
    (r : HashApiRequest) → is_valid_request r ≡ none_left (validate_request r)
unfolding is_valid_request none_left
is_valid_request-none_left r = refl

-- A request is valid, so that no error is reported for it, when it keeps to every rule, and only then.
pub is_valid_request-good : (r : HashApiRequest) → is_valid_request r ≡ good_request r
unfolding validate_request good_request is_supported_algorithm
is_valid_request-good r =
    is_valid_request-none_left r
    ∙ simp
        (
          none_rules,
          none_left-salt_errors (normalize_hex r.salt_hex),
          none_left-prefix_errors (normalize_hex r.key_prefix),
          none_left-key_errors (normalize_hex r.key_prefix) (normalize_hex r.key),
          none_left-work_errors r,
        )
        (ground arith)
