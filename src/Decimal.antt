-- ===== src/Decimal.antt =====
-- `str(n)` and `int(text)` for non-negative numbers, as json and contract.py use them.
pub mod RoundTrip
use qnty_authority_root.Prelude.{
  ℕ, zero, suc, ◌+◌, ◌-◌, ◌*◌, ◌/◌, ◌%◌, Bool, ◌&&◌, [], ◌∷◌, Text, ltb, leb, if◌then◌else◌, length,
}
use qnty_authority_root.Errors.{Result, ok, raise, value_error}

abbrev pub is_digit : ℕ → Bool
is_digit c = leb 48 c && leb c 57

-- The digits of `n` before `rest`; a round for each digit, so that `n + 1` rounds suffice.
unfoldable pub digits_from : ℕ → ℕ → Text → Text
digits_from zero n rest = rest
digits_from (suc f) n rest =
    let more = digits_from f (n / 10) ((48 + n % 10) ∷ rest) in
    if ltb n 10 then (48 + n) ∷ rest else more

-- `str(n)`.
unfoldable pub decimal : ℕ → Text
unfolding digits_from
decimal n = digits_from (suc n) n []

-- `str(n)` of a number that may be too long: Python refuses more than 4300 digits.
abbrev pub max_str_digits : ℕ
max_str_digits = 4300

unfoldable pub str_of_int : ℕ → Result Text
str_of_int n =
    if ltb max_str_digits (length (decimal n))
    then raise value_error "" "Exceeds the limit for integer string conversion"
    else ok (decimal n)

-- The number that digits spell behind `n`.
unfoldable pub digits_value : ℕ → Text → ℕ
digits_value n [] = n
digits_value n (c ∷ s) = digits_value (n * 10 + (c - 48)) s

-- `int(text)` of a text of ASCII digits, with the same limit.
unfoldable pub int_of_digits : Text → Result ℕ
unfolding digits_value
int_of_digits s =
    if ltb max_str_digits (length s)
    then raise value_error "" "Exceeds the limit for integer string conversion"
    else ok (digits_value 0 s)
