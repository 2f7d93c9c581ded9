-- ===== src/Decimal/RoundTrip.antt =====
-- `int(str(n))` is `n`, and what `str(n)` looks like.
use native.Mathlib.Nat.{pow-suc}
use qnty_authority_root.Prelude.{
  ℕ, zero, suc, ◌+◌, ◌/◌, ◌%◌, ◌^◌, ◌≤◌, ◌<◌, ◌≡◌, ◌≢◌, refl, true, [], ◌∷◌, Text, length, All,
  arith,
}
use qnty_authority_root.Errors.{ok}
use qnty_authority_root.Decimal.{
  is_digit, digits_from, decimal, digits_value, int_of_digits, max_str_digits,
}

digits_value-digits_from :
    (f n : ℕ) (rest : Text) → n < f → digits_value 0 (digits_from f n rest) ≡ digits_value n rest
unfolding digits_from digits_value
digits_value-digits_from zero n rest h = absurd (omega arith)
digits_value-digits_from (suc f) n rest h =
    ground (arith, digits_value-digits_from f (n / 10) ((48 + n % 10) ∷ rest))

pub digits_value-decimal : (n : ℕ) → digits_value 0 (decimal n) ≡ n
unfolding decimal digits_value
digits_value-decimal n = digits_value-digits_from (suc n) n [] (omega arith)

digits_from-All :
    (f n : ℕ) (rest : Text)
    → n < f
    → All (λ c. is_digit c ≡ true) rest
    → All (λ c. is_digit c ≡ true) (digits_from f n rest)
unfolding digits_from
digits_from-All zero n rest h k = k
digits_from-All (suc f) n rest h k =
    ground (arith, digits_from-All f (n / 10) ((48 + n % 10) ∷ rest))

pub decimal-All : (n : ℕ) → All (λ c. is_digit c ≡ true) (decimal n)
unfolding decimal
decimal-All n = digits_from-All (suc n) n [] (omega arith) tt

-- The first digit of a positive number is not 0.
abbrev pub LeadsBy : (ℕ → Type 0) → Text → Type 0
LeadsBy P [] = ⊥
LeadsBy P (c ∷ s) = P c

digits_from-leads :
    (f n : ℕ) (rest : Text)
    → n < f
    → 0 < n
    → LeadsBy (λ c. (49 ≤ c) × (c ≤ 57)) (digits_from f n rest)
unfolding digits_from
digits_from-leads zero n rest h k = absurd (omega arith)
digits_from-leads (suc f) n rest h k =
    ground (arith, digits_from-leads f (n / 10) ((48 + n % 10) ∷ rest))

pub decimal-leads : (n : ℕ) → 0 < n → LeadsBy (λ c. (49 ≤ c) × (c ≤ 57)) (decimal n)
unfolding decimal
decimal-leads n h = digits_from-leads (suc n) n [] (omega arith) h

pub decimal-zero : decimal 0 ≡ 48 ∷ []
unfolding decimal
decimal-zero = refl

LeadsBy-ne-nil : (P : ℕ → Type 0) (s : Text) → LeadsBy P s → s ≢ []
LeadsBy-ne-nil P [] h = absurd h
LeadsBy-ne-nil P (c ∷ s) h = cc

pub decimal-ne-nil : (n : ℕ) → decimal n ≢ []
decimal-ne-nil zero = rw decimal-zero (cc)
decimal-ne-nil (suc n) = LeadsBy-ne-nil _ (decimal (suc n)) (decimal-leads (suc n) (omega arith))

-- A number below 10 ^ (k + 1) has at most k + 1 digits.
length-digits_from :
    (k f n : ℕ) (rest : Text)
    → n < 10 ^ suc k
    → n < f
    → length (digits_from f n rest) ≤ suc k + length rest
unfolding digits_from
length-digits_from k zero n rest h q = absurd (omega arith)
length-digits_from zero (suc f) n rest h q = ground (arith)
length-digits_from (suc k) (suc f) n rest h q =
    ground (arith, pow-suc 10 (suc k), length-digits_from k f (n / 10) ((48 + n % 10) ∷ rest))

pub length-decimal : (k n : ℕ) → n < 10 ^ suc k → length (decimal n) ≤ suc k
unfolding decimal
length-decimal k n h = omega (arith, length-digits_from k (suc n) n [] h (omega arith))

-- The text of every number of at most 4300 digits is read back as the number.
pub int_of_digits-decimal :
    (n : ℕ) → length (decimal n) ≤ max_str_digits → int_of_digits (decimal n) ≡ ok n
unfolding int_of_digits
int_of_digits-decimal n h = ground (arith, digits_value-decimal n)
