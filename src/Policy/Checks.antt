-- ===== src/Policy/Checks.antt =====
-- The value checks of src/qnty_authority_root/policy.py. Its callers are Python code that holds texts
-- and integers, so that the tests of `type(value)` are the types here.
use qnty_authority_root.Prelude.{
  ℕ, suc, Bool, true, false, not, ◌||◌, ◌&&◌, List, [], ◌∷◌, Text, String, ℤ, pos, length, leb, ltb,
  ◌==◌, if◌then◌else◌, text_eq, text_mem,
}
use qnty_authority_root.Errors.{Result, ok, raise, raise_if, ◌>>◌, issuance_policy_error}
use qnty_authority_root.Regex.{Regex, empty, class, seq, star, fullmatch}
use qnty_authority_root.Decimal.{is_digit}
use qnty_authority_root.PythonText.{strip, casefold, is_reserved_scope, reserved_exact_scope_tokens}
use qnty_authority_root.Contract.Checks.{is_lower, dashed_words}

abbrev pub deny {ℓ} : {A : Type ℓ} → String → String → Result A
deny field message = raise issuance_policy_error field message

abbrev pub deny_if : Bool → String → String → Result (Unit {0})
deny_if test field message = raise_if test issuance_policy_error field message

abbrev is_alphanumeric : ℕ → Bool
is_alphanumeric c = is_lower c || ((leb 65 c && leb c 90) || is_digit c)

-- `[A-Za-z0-9][A-Za-z0-9_.-]*`.
unfoldable pub repository_part_re : Regex
repository_part_re =
    seq (class is_alphanumeric)
      (star (class (λ c. is_alphanumeric c || (c == b'_' || (c == b'.' || c == b'-')))))

-- `[a-z][a-z0-9]*(?:-[a-z0-9]+)*`.
unfoldable pub request_id_re : Regex
request_id_re = dashed_words empty

-- `value.split("/")`: the part that is being read, and those behind it.
unfoldable pub extend : ℕ → List Text → List Text
extend c [] = (c ∷ []) ∷ []
extend c (part ∷ parts) = (c ∷ part) ∷ parts

unfoldable pub split_slash : Text → List Text
unfolding extend
split_slash [] = [] ∷ []
split_slash (c ∷ s) = let rest = split_slash s in if c == b'/' then [] ∷ rest else extend c rest

unfoldable pub is_owner_and_name : List Text → Bool
is_owner_and_name (owner ∷ name ∷ []) =
    fullmatch repository_part_re owner && fullmatch repository_part_re name
is_owner_and_name _ = false

unfoldable pub validate_repository_identity : Text → String → Result (Unit {0})
validate_repository_identity value field = do
  deny_if (not (is_owner_and_name (split_slash value))) field "expected explicit owner/name"
  deny_if (not (text_eq (strip value) value)) field "surrounding whitespace is forbidden"

unfoldable pub exact_scope : Text → String → Result (Unit {0})
exact_scope value field = do
  deny_if (text_eq value []) field "exact scope must be non-empty text"
  deny_if (is_reserved_scope value) field "wildcard and alias scopes are forbidden"

unfoldable pub positive : ℤ → String → Result ℕ
positive (pos (suc n)) field = ok (suc n)
positive _ field = deny field "expected positive integer"

unfoldable pub exact_scopes : List Text → String → Result (Unit {0})
exact_scopes [] field = ok tt
exact_scopes (v ∷ vs) field = exact_scope v field >> exact_scopes vs field

-- One round of the loop over the three tuples.
unfoldable pub non_empty_scopes : List Text → String → Result (Unit {0})
non_empty_scopes [] field = deny field "must be a non-empty tuple"
non_empty_scopes (v ∷ vs) field = exact_scopes (v ∷ vs) field

-- `==` of two tuples of texts.
unfoldable pub same_texts : List Text → List Text → Bool
same_texts [] [] = true
same_texts [] (t ∷ ts) = false
same_texts (s ∷ ss) [] = false
same_texts (s ∷ ss) (t ∷ ts) = text_eq s t && same_texts ss ts

unfoldable pub validate_request_id : Text → Result (Unit {0})
validate_request_id request_id = do
  deny_if (not (fullmatch request_id_re request_id) || ltb 64 (length request_id)) "request_id"
      "must be a portable lowercase stable identifier"
  deny_if (text_mem (casefold request_id) reserved_exact_scope_tokens) "request_id"
      "cannot be a wildcard or alias"
