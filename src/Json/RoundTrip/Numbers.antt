-- ===== src/Json/RoundTrip/Numbers.antt =====
-- A printed number is scanned back.
use qnty_authority_root.Prelude.{
  ℕ, zero, suc, ◌≤◌, ◌≡◌, ◌≢◌, refl, sym, subst, ◌∙◌, Bool, true, false, none, [], ◌∷◌, ◌++◌, Text,
  ℤ, pos, negsuc, codes, length, All, ◌==◌, arith,
}
use qnty_authority_root.Errors.{ok}
use qnty_authority_root.Decimal.{is_digit, decimal, max_str_digits}
use qnty_authority_root.Decimal.RoundTrip.{
  LeadsBy, decimal-All, decimal-leads, decimal-zero, decimal-ne-nil, int_of_digits-decimal,
}
use qnty_authority_root.Json.Values.{int}
use qnty_authority_root.Json.Print.{print_int}
use qnty_authority_root.Json.Scan.{after_prefix, scan_scalar}
use qnty_authority_root.Json.Scan.Numbers.{
  span_digits, starts_digit, starts_exponent, starts_float, signed, number_end, unsigned_number,
  scan_number,
}
use qnty_authority_root.Json.RoundTrip.Printable.{IsShort, IsEnd}

span_digits-append :
    (ds r : Text) → All (λ c. is_digit c ≡ true) ds → IsEnd r → span_digits (ds ++ r) ≡ (ds, r)
unfolding span_digits
span_digits-append [] [] h e = refl
span_digits-append [] (c ∷ r) h e = ground arith
span_digits-append (d ∷ ds) r h e = ground (arith, span_digits-append ds r h.1 e)

starts_float-end : (r : Text) → IsEnd r → starts_float r ≡ false
unfolding starts_float starts_digit starts_exponent
starts_float-end [] e = refl
starts_float-end (c ∷ r) e = ground arith

number_end-digits :
    (negative : Bool) (n : ℕ) (r : Text)
    → length (decimal n) ≤ max_str_digits
    → IsEnd r
    → number_end negative (decimal n) r ≡ ok (int (signed negative n), r)
unfolding number_end
number_end-digits negative n r short e =
    ground (arith, starts_float-end r e, int_of_digits-decimal n short)

-- The scan of a text that begins with the digits of a positive number.
unsigned_number-lead :
    (negative : Bool) (ds r : Text)
    → LeadsBy (λ c. (49 ≤ c) × (c ≤ 57)) ds
    → All (λ c. is_digit c ≡ true) ds
    → IsEnd r
    → unsigned_number negative (ds ++ r) ≡ number_end negative ds r
unfolding unsigned_number
unsigned_number-lead negative [] r lead digits e = elim lead [ ]
unsigned_number-lead negative (d ∷ ds) r lead digits e =
    ground (arith, span_digits-append ds r digits.1 e)

unsigned_number-zero :
    (negative : Bool) (r : Text)
    → unsigned_number negative (48 ∷ r) ≡ number_end negative (48 ∷ []) r
unfolding unsigned_number
unsigned_number-zero negative r = refl

unsigned_number-decimal :
    (negative : Bool) (n : ℕ) (r : Text)
    → length (decimal n) ≤ max_str_digits
    → IsEnd r
    → unsigned_number negative (decimal n ++ r) ≡ ok (int (signed negative n), r)
unsigned_number-decimal negative zero r short e =
    subst (λ d. unsigned_number negative (d ++ r) ≡ number_end negative d r) (sym decimal-zero)
      (unsigned_number-zero negative r)
    ∙ number_end-digits negative zero r short e
unsigned_number-decimal negative (suc n) r short e =
    unsigned_number-lead negative (decimal (suc n)) r (decimal-leads (suc n) (omega arith))
      (decimal-All (suc n)) e
    ∙ number_end-digits negative (suc n) r short e

after_prefix-ne :
    (c : ℕ) (p : Text) (d : ℕ) (s : Text) → (c == d) ≡ false → after_prefix (c ∷ p) (d ∷ s) ≡ none
unfolding after_prefix
after_prefix-ne c p d s h = rw h

-- No name or constant begins like a number.
scan_scalar-digit :
    (c : ℕ) (s : Text) → is_digit c ≡ true → scan_scalar (c ∷ s) ≡ scan_number (c ∷ s)
unfolding scan_scalar
scan_scalar-digit c s h = ground (
  arith,
  after_prefix-ne b'n' (codes "ull") c s,
  after_prefix-ne b't' (codes "rue") c s,
  after_prefix-ne b'f' (codes "alse") c s,
  after_prefix-ne b'N' (codes "aN") c s,
  after_prefix-ne b'I' (codes "nfinity") c s,
  after_prefix-ne b'-' (codes "Infinity") c s,
)

scan_scalar-minus :
    (d : ℕ) (s : Text) → is_digit d ≡ true → scan_scalar (b'-' ∷ d ∷ s) ≡ scan_number (b'-' ∷ d ∷ s)
unfolding scan_scalar after_prefix
scan_scalar-minus d s h = ground arith

scan_number-digit :
    (c : ℕ) (s : Text) → is_digit c ≡ true → scan_number (c ∷ s) ≡ unsigned_number false (c ∷ s)
unfolding scan_number
scan_number-digit c s h = ground arith

scan_number-minus : (s : Text) → scan_number (b'-' ∷ s) ≡ unsigned_number true s
unfolding scan_number
scan_number-minus s = refl

-- A text that is digits, at least one.
scan_scalar-pos :
    (ds r : Text)
    → ds ≢ []
    → All (λ c. is_digit c ≡ true) ds
    → scan_scalar (ds ++ r) ≡ unsigned_number false (ds ++ r)
scan_scalar-pos [] r full h = absurd (full refl)
scan_scalar-pos (d ∷ ds) r full h =
    scan_scalar-digit d (ds ++ r) h.0 ∙ scan_number-digit d (ds ++ r) h.0

scan_scalar-neg :
    (ds r : Text)
    → ds ≢ []
    → All (λ c. is_digit c ≡ true) ds
    → scan_scalar (b'-' ∷ (ds ++ r)) ≡ unsigned_number true (ds ++ r)
scan_scalar-neg [] r full h = absurd (full refl)
scan_scalar-neg (d ∷ ds) r full h =
    scan_scalar-minus d (ds ++ r) h.0 ∙ scan_number-minus (d ∷ (ds ++ r))

-- Every printed integer is read back.
pub scan_scalar-print_int :
    (n : ℤ) (r : Text) → IsShort n → IsEnd r → scan_scalar (print_int n ++ r) ≡ ok (int n, r)
unfolding print_int signed
scan_scalar-print_int (pos n) r short e =
    scan_scalar-pos (decimal n) r (decimal-ne-nil n) (decimal-All n)
    ∙ unsigned_number-decimal false n r short e
scan_scalar-print_int (negsuc n) r short e =
    scan_scalar-neg (decimal (suc n)) r (decimal-ne-nil (suc n)) (decimal-All (suc n))
    ∙ unsigned_number-decimal true (suc n) r short e
