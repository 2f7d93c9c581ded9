-- ===== src/Json/Scan/Numbers.antt =====
-- Numbers, `(-?(?:0|[1-9]\d*))(\.\d+)?([eE][-+]?\d+)?`, and what the hooks of `strict_json_loads` do
-- with the rest: a float or a constant is refused.
use qnty_authority_root.Prelude.{
  ℕ, zero, suc, Bool, true, false, ◌||◌, ◌&&◌, [], ◌∷◌, Text, ℤ, pos, negsuc, ◌==◌, if◌then◌else◌,
}
use qnty_authority_root.Errors.{Result, ok, raise, ◌>>=◌, canonical_form_error}
use qnty_authority_root.Decimal.{is_digit, int_of_digits}
use qnty_authority_root.Json.Values.{Value, int}
use qnty_authority_root.Json.Scan.Strings.{malformed}

-- `_reject_float` and `_reject_constant`.
abbrev pub reject_float {ℓ} : {A : Type ℓ} → Result A
reject_float = raise canonical_form_error "" "JSON number would be parsed as binary float"

abbrev pub reject_constant {ℓ} : {A : Type ℓ} → Result A
reject_constant = raise canonical_form_error "" "JSON constant is not admissible"

-- The digits at the front, and what follows them.
unfoldable pub span_digits : Text → Text × Text
span_digits [] = ([], [])
span_digits (c ∷ s) = let (ds, r) = span_digits s in if is_digit c then (c ∷ ds, r) else ([], c ∷ s)

unfoldable pub starts_digit : Text → Bool
starts_digit [] = false
starts_digit (c ∷ s) = is_digit c

unfoldable pub starts_exponent : Text → Bool
starts_exponent [] = false
starts_exponent (c ∷ s) = is_digit c || ((c == b'+' || c == b'-') && starts_digit s)

-- A fraction or an exponent follows, which makes the number a float.
unfoldable pub starts_float : Text → Bool
starts_float [] = false
starts_float (c ∷ s) =
    (c == b'.' && starts_digit s) || ((c == b'e' || c == b'E') && starts_exponent s)

unfoldable pub signed : Bool → ℕ → ℤ
signed false n = pos n
signed true zero = pos 0
signed true (suc n) = negsuc n

-- The end of a number whose sign and digits are read.
unfoldable pub number_end : Bool → Text → Text → Result (Value × Text)
number_end negative ds r =
    if starts_float r
    then reject_float
    else do n ← int_of_digits ds; ok (int (signed negative n), r)

unfoldable pub unsigned_number : Bool → Text → Result (Value × Text)
unsigned_number negative [] = malformed
unsigned_number negative (c ∷ s) =
    if c == b'0'
    then number_end negative (c ∷ []) s
    else if is_digit c
    then (let (ds, r) = span_digits s in number_end negative (c ∷ ds) r)
    else malformed

unfoldable pub scan_number : Text → Result (Value × Text)
scan_number [] = malformed
scan_number (c ∷ s) = if c == b'-' then unsigned_number true s else unsigned_number false (c ∷ s)
