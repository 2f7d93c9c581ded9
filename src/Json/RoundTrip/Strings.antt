-- ===== src/Json/RoundTrip/Strings.antt =====
-- A printed string literal is scanned back as its text.
use qnty_authority_root.Prelude.{
  ℕ, zero, suc, ◌+◌, ◌-◌, ◌*◌, ◌/◌, ◌%◌, ◌≤◌, ◌<◌, ◌≡◌, refl, ap, ◌∙◌, ◌⊎◌, inl, inr, true, false,
  ◌&&◌, some, [], ◌∷◌, ◌++◌, Text, length, length-append, All, ltb, leb, ◌==◌, if◌then◌else◌, arith,
  Bool-cases, ==_iff,
}
use mathlib.Core.List.{append_assoc}
use qnty_authority_root.Errors.{ok}
use qnty_authority_root.Json.Escape.{
  hex_digit, unicode_escape, high_surrogate, low_surrogate, escape, escape_all,
}
use qnty_authority_root.Json.Scan.Strings.{
  hex_value, four_digits, char, is_high_surrogate, is_low_surrogate, join_surrogates, unicode_step,
  escape_step, string_step, string_loop, scan_string,
}

-- A Unicode scalar value: a code point that is no surrogate.
abbrev pub IsScalar : ℕ → Type 0
IsScalar c = (c < 0x110000) × ((c < 0xd800) ⊎ (0xe000 ≤ c))

hex_value-hex_digit : (d : ℕ) → d < 16 → hex_value (hex_digit d) ≡ some d
unfolding hex_value hex_digit
hex_value-hex_digit d h = ground arith

four_digits-hex_digit :
    (a b c d : ℕ) (r : Text)
    → a < 16
    → b < 16
    → c < 16
    → d < 16
    → four_digits (hex_digit a ∷ hex_digit b ∷ hex_digit c ∷ hex_digit d ∷ r)
      ≡ some (((a * 16 + b) * 16 + c) * 16 + d, r)
unfolding four_digits
four_digits-hex_digit a b c d r ha hb hc hd = ground (
  arith,
  hex_value-hex_digit a ha,
  hex_value-hex_digit b hb,
  hex_value-hex_digit c hc,
  hex_value-hex_digit d hd,
)

four_digits_of :
    (n : ℕ) (r : Text)
    → n < 0x10000
    → four_digits (
        hex_digit (n / 4096 % 16)
        ∷ hex_digit (n / 256 % 16)
        ∷ hex_digit (n / 16 % 16)
        ∷ hex_digit (n % 16)
        ∷ r)
      ≡ some (n, r)
four_digits_of n r h =
    four_digits-hex_digit (n / 4096 % 16) (n / 256 % 16) (n / 16 % 16) (n % 16) r (omega arith)
      (omega arith) (omega arith) (omega arith)
    ∙ ap (λ m. some (m, r)) (omega arith)

-- `\uXXXX` of a number that is no high surrogate.
string_step-unicode :
    (n : ℕ) (r : Text)
    → n < 0x10000
    → is_high_surrogate n ≡ false
    → string_step (unicode_escape n ++ r) ≡ ok (char n r)
unfolding string_step escape_step unicode_step unicode_escape
string_step-unicode n r h low = ground (arith, four_digits_of n r h)

-- A pair of surrogates.
string_step-pair :
    (m n : ℕ) (r : Text)
    → m < 0x10000
    → n < 0x10000
    → is_high_surrogate m ≡ true
    → is_low_surrogate n ≡ true
    → string_step (unicode_escape m ++ (unicode_escape n ++ r))
      ≡ ok (char (0x10000 + ((m - 0xd800) * 0x400 + (n - 0xdc00))) r)
unfolding string_step escape_step unicode_step join_surrogates unicode_escape
string_step-pair m n r hm hn high low =
    ground (arith, four_digits_of m (unicode_escape n ++ r) hm, four_digits_of n r hn)

-- The escape of a character outside of the printable ones, quotes and backslashes apart.
string_step-large :
    (c : ℕ) (r : Text)
    → IsScalar c
    → ltb c 0x10000 ≡ false
    → string_step (unicode_escape (high_surrogate c) ++ unicode_escape (low_surrogate c) ++ r)
      ≡ ok (char c r)
unfolding is_high_surrogate is_low_surrogate
string_step-large c r h large =
    rw (append_assoc (unicode_escape (high_surrogate c)) (unicode_escape (low_surrogate c)) r) (
      string_step-pair (high_surrogate c) (low_surrogate c) r (ground arith) (ground arith)
        (ground arith) (ground arith)
      ∙ ap (λ d. ok (char d r)) (ground arith))

-- What is not escaped by a letter: one `\u`, or two.
string_step-long :
    (c : ℕ) (r : Text)
    → IsScalar c
    → string_step (
        (if ltb c 0x10000
          then unicode_escape c
          else unicode_escape (high_surrogate c) ++ unicode_escape (low_surrogate c))
        ++ r)
      ≡ ok (char c r)
unfolding is_high_surrogate
string_step-long c r h = elim (Bool-cases (ltb c 0x10000)) [
  | inl small ↦ rw small (string_step-unicode c r (ground arith) (ground arith))
  | inr large ↦ rw large (string_step-large c r h large)
]

string_step-escape : (c : ℕ) (r : Text) → IsScalar c → string_step (escape c ++ r) ≡ ok (char c r)
unfolding escape string_step escape_step
string_step-escape c r h = elim (Bool-cases (c == 34)) [
  | inl e ↦ rw ((==_iff c 34).0 e)
  | inr n₁ ↦ rw n₁ (elim (Bool-cases (c == 92)) [
    | inl e ↦ rw ((==_iff c 92).0 e)
    | inr n₂ ↦ rw n₂ (elim (Bool-cases (leb 32 c && leb c 126)) [
      | inl e ↦ rw e (ground arith)
      | inr n3 ↦ rw n3 (elim (Bool-cases (c == 10)) [
        | inl e ↦ rw ((==_iff c 10).0 e)
        | inr n4 ↦ rw n4 (elim (Bool-cases (c == 13)) [
          | inl e ↦ rw ((==_iff c 13).0 e)
          | inr n5 ↦ rw n5 (elim (Bool-cases (c == 9)) [
            | inl e ↦ rw ((==_iff c 9).0 e)
            | inr n6 ↦ rw n6 (elim (Bool-cases (c == 12)) [
              | inl e ↦ rw ((==_iff c 12).0 e)
              | inr n7 ↦ rw n7 (elim (Bool-cases (c == 8)) [
                | inl e ↦ rw ((==_iff c 8).0 e)
                | inr n8 ↦ rw n8 (string_step-long c r h)
              ])
            ])
          ])
        ])
      ])
    ])
  ])
]

string_loop-escape_all :
    (f : ℕ) (s r : Text)
    → All IsScalar s
    → length s < f
    → string_loop f (escape_all s ++ r) ≡ ok (s, r)
unfolding string_loop escape_all string_step
string_loop-escape_all zero s r h lt = absurd (omega arith)
string_loop-escape_all (suc f) [] r h lt = refl
string_loop-escape_all (suc f) (c ∷ s) r h lt =
    rw (append_assoc (escape c) (escape_all s) r, string_step-escape c (escape_all s ++ r) h.0)
      (rw (string_loop-escape_all f s r h.1 (omega arith)))

-- An escape is never empty, so that a literal is at least as long as its text.
one-le-length-escape : (c : ℕ) → 1 ≤ length (escape c)
unfolding escape unicode_escape
one-le-length-escape c = ground arith

pub length-le-escape_all : (s : Text) → length s < length (escape_all s)
unfolding escape_all
length-le-escape_all [] = omega arith
length-le-escape_all (c ∷ s) = omega (
  arith,
  length-append {0} (escape c) (escape_all s),
  one-le-length-escape c,
  length-le-escape_all s,
)

-- Every text of scalar values is read back from its literal.
pub scan_string-print_string :
    (s r : Text) → All IsScalar s → scan_string (escape_all s ++ r) ≡ ok (s, r)
unfolding scan_string
scan_string-print_string s r h =
    string_loop-escape_all (suc (length (escape_all s ++ r))) s r h
      (omega (arith, length-append {0} (escape_all s) r, length-le-escape_all s))
