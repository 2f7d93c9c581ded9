-- ===== src/Contract/Checks.antt =====
-- The value checks of src/qnty_authority_root/contract.py. What a caller or a JSON document hands in
-- is a `Value`; a check returns the text or the number that it holds.
use qnty_authority_root.Prelude.{
  ℕ, zero, suc, ◌-◌, ◌^◌, Bool, true, ◌||◌, ◌&&◌, not, [], ◌∷◌, Text, String, ℤ, pos, negsuc,
  length, drop, ltb, leb, ◌==◌, if◌then◌else◌, text_eq,
}
use qnty_authority_root.Errors.{Result, ok, raise, raise_if, ◌>>=◌, ◌>>◌, authority_root_error}
use qnty_authority_root.Regex.{Regex, class, seq, alt, star, plus, times, fullmatch}
use qnty_authority_root.Decimal.{is_digit, int_of_digits}
use qnty_authority_root.Json.Values.{Value, int, str}
use qnty_authority_root.Sha256.Shape.{is_lower_hex}
use qnty_authority_root.PythonText.{strip, is_reserved_scope}

abbrev pub is_lower : ℕ → Bool
is_lower c = leb 97 c && leb c 122

abbrev pub is_lower_or_digit : ℕ → Bool
is_lower_or_digit c = is_lower c || is_digit c

abbrev pub char : ℕ → Regex
char c = class (λ d. d == c)

-- `[0-9a-f]{64}`, `[0-9a-f]{40}` and `0x[0-9a-f]{40}`.
unfoldable pub hex64_re : Regex
hex64_re = times 64 (class is_lower_hex)

unfoldable pub commit_re : Regex
commit_re = times 40 (class is_lower_hex)

unfoldable pub address_re : Regex
address_re = seq (char b'0') (seq (char b'x') (times 40 (class is_lower_hex)))

-- `[a-z][a-z0-9]*(?:-[a-z0-9]+)*`, and with `(?:\.[0-9]+)*` after it.
abbrev pub dashed_words : Regex → Regex
dashed_words rest = seq (class is_lower) (
    seq (star (class is_lower_or_digit))
      (seq (star (seq (char b'-') (plus (class is_lower_or_digit)))) rest))

unfoldable pub portable_re : Regex
portable_re = dashed_words (star (seq (char b'.') (plus (class is_digit))))

-- `(?:0|[1-9][0-9]*)`.
unfoldable pub atomic_re : Regex
atomic_re = alt (char b'0') (seq (class (λ c. leb 49 c && leb c 57)) (star (class is_digit)))

unfoldable pub max_uint256 : ℕ
max_uint256 = 2 ^ 256 - 1

abbrev pub refuse {ℓ} : {A : Type ℓ} → String → String → Result A
refuse field message = raise authority_root_error field message

abbrev pub refuse_if : Bool → String → String → Result (Unit {0})
refuse_if test field message = raise_if test authority_root_error field message

unfoldable pub portable : Value → String → Result Text
portable (str s) field_name =
    if not (fullmatch portable_re s) || ltb 64 (length s)
    then refuse field_name "non-portable identity"
    else ok s
portable _ field_name = refuse field_name "non-portable identity"

unfoldable pub digest : Value → String → Result Text
digest (str s) field_name =
    if fullmatch hex64_re s then ok s else refuse field_name "expected lowercase SHA-256 hex"
digest _ field_name = refuse field_name "expected lowercase SHA-256 hex"

unfoldable pub commit : Value → String → Result Text
commit (str s) field_name =
    if fullmatch commit_re s
    then ok s
    else refuse field_name "expected lowercase 40-character commit"
commit _ field_name = refuse field_name "expected lowercase 40-character commit"

unfoldable pub label : Value → String → Result Text
label (str s) field_name =
    if text_eq s [] || (ltb 128 (length s) || not (text_eq (strip s) s))
    then refuse field_name "must be a short non-empty label"
    else ok s
label _ field_name = refuse field_name "must be a short non-empty label"

-- `int(value, 16) == 0` of a text of hexadecimal digits behind `0x`.
unfoldable pub is_zero_hex : Text → Bool
is_zero_hex [] = true
is_zero_hex (c ∷ s) = c == b'0' && is_zero_hex s

unfoldable pub address : Value → String → Result Text
address (str s) field_name = do
  refuse_if (not (fullmatch address_re s)) field_name "expected lowercase EVM address"
  refuse_if (is_zero_hex (drop 2 s)) field_name "the zero address is not admissible"
  ok s
address _ field_name = refuse field_name "expected lowercase EVM address"

-- A `bool` is no `int` here: the code asks for `type(value) is int`.
unfoldable pub positive_int : Value → String → Result ℕ
positive_int (int (pos (suc n))) field_name = ok (suc n)
positive_int _ field_name = refuse field_name "expected positive integer"

unfoldable pub non_negative_int : Value → String → Result ℕ
non_negative_int (int (pos n)) field_name = ok n
non_negative_int _ field_name = refuse field_name "expected non-negative integer"

unfoldable pub atomic : ℤ → String → Bool → Result ℕ
atomic (pos (suc n)) field_name positive =
    if ltb max_uint256 (suc n) then refuse field_name "exceeds uint256" else ok (suc n)
atomic (pos zero) field_name positive =
    if positive then refuse field_name "expected positive integer" else ok 0
atomic (negsuc n) field_name positive =
    if positive
    then refuse field_name "expected positive integer"
    else refuse field_name "expected non-negative integer"

unfoldable pub canonical_atomic : Value → String → Bool → Result ℕ
canonical_atomic (str s) field_name positive =
    if fullmatch atomic_re s
    then (do amount ← int_of_digits s; atomic (pos amount) field_name positive)
    else refuse field_name "non-canonical atomic amount"
canonical_atomic _ field_name positive = refuse field_name "non-canonical atomic amount"

unfoldable pub assert_exact_scope : Text → String → Result (Unit {0})
assert_exact_scope s field_name =
    refuse_if (is_reserved_scope s) field_name "wildcard and alias scopes are forbidden"
