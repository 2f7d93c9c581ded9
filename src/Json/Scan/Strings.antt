-- ===== src/Json/Scan/Strings.antt =====
-- String literals: `scanstring` of CPython's json module, in strict mode.
use qnty_authority_root.Prelude.{
  ℕ, zero, suc, ◌+◌, ◌-◌, ◌*◌, Bool, ◌&&◌, Option, none, some, [], ◌∷◌, Text, length, ltb, leb,
  ◌==◌, if◌then◌else◌,
}
use qnty_authority_root.Errors.{Result, ok, raise, ◌>>=◌, canonical_form_error, out_of_fuel}

-- A `JSONDecodeError`, which `strict_json_loads` turns into a `CanonicalFormError`.
abbrev pub malformed {ℓ} : {A : Type ℓ} → Result A
malformed = raise canonical_form_error "" "malformed JSON"

unfoldable pub hex_value : ℕ → Option ℕ
hex_value c =
    if leb b'0' c && leb c b'9'
    then some (c - 48)
    else if leb b'a' c && leb c b'f'
    then some (c - 87)
    else if leb b'A' c && leb c b'F'
    then some (c - 55)
    else none

-- The number of four hexadecimal digits, and what follows.
unfoldable pub four_digits : Text → Option (ℕ × Text)
four_digits (a ∷ b ∷ c ∷ d ∷ s) = elim (hex_value a) [
  | none ↦ none
  | some w ↦ elim (hex_value b) [
    | none ↦ none
    | some x ↦ elim (hex_value c) [
      | none ↦ none
      | some y ↦ elim (hex_value d) [
        | none ↦ none
        | some z ↦ some (((w * 16 + x) * 16 + y) * 16 + z, s)
      ]
    ]
  ]
]
four_digits _ = none

-- One step of the loop: the closing quote, or a character.
pub data Step : Type 0 where
  finished : Text → Step
  char : ℕ → Text → Step

unfoldable pub is_high_surrogate : ℕ → Bool
is_high_surrogate n = leb 0xd800 n && leb n 0xdbff

unfoldable pub is_low_surrogate : ℕ → Bool
is_low_surrogate n = leb 0xdc00 n && leb n 0xdfff

-- After `\u` and a high surrogate `n`: a low one joins it, anything else is left for later.
unfoldable pub join_surrogates : ℕ → Text → Result Step
join_surrogates n (a ∷ b ∷ s) =
    if a == 92 && b == b'u'
    then elim (four_digits s) [
      | none ↦ malformed
      | some (m, r) ↦
          (if is_low_surrogate m
            then ok (char (0x10000 + ((n - 0xd800) * 0x400 + (m - 0xdc00))) r)
            else ok (char n (a ∷ b ∷ s)))
    ]
    else ok (char n (a ∷ b ∷ s))
join_surrogates n s = ok (char n s)

unfoldable pub unicode_step : Text → Result Step
unicode_step s = elim (four_digits s) [
  | none ↦ malformed
  | some (n, r) ↦ (if is_high_surrogate n then join_surrogates n r else ok (char n r))
]

unfoldable pub escape_step : Text → Result Step
escape_step [] = malformed
escape_step (c ∷ s) =
    if c == 34
    then ok (char 34 s)
    else if c == 92
    then ok (char 92 s)
    else if c == b'/'
    then ok (char 47 s)
    else if c == b'b'
    then ok (char 8 s)
    else if c == b'f'
    then ok (char 12 s)
    else if c == b'n'
    then ok (char 10 s)
    else if c == b'r'
    then ok (char 13 s)
    else if c == b't'
    then ok (char 9 s)
    else if c == b'u'
    then unicode_step s
    else malformed

unfoldable pub string_step : Text → Result Step
string_step [] = malformed
string_step (c ∷ s) =
    if c == 34
    then ok (finished s)
    else if c == 92
    then escape_step s
    else if ltb c 32
    then malformed
    else ok (char c s)

-- A character is at least one character of text, so that the text's length and one is enough fuel.
unfoldable pub string_loop : ℕ → Text → Result (Text × Text)
string_loop zero s = raise out_of_fuel "" ""
string_loop (suc f) s = do
  step ← string_step s
  elim step [ finished r ↦ ok ([], r) | char c r ↦ (do (t, r') ← string_loop f r; ok (c ∷ t, r')) ]

-- The rest of a literal whose opening quote is read.
unfoldable pub scan_string : Text → Result (Text × Text)
scan_string s = string_loop (suc (length s)) s
