-- ===== src/Json/Escape.antt =====
-- String literals of JSON as `ensure_ascii=True` writes them.
use qnty_authority_root.Prelude.{
  ℕ, ◌+◌, ◌-◌, ◌/◌, ◌%◌, ◌&&◌, [], ◌∷◌, ◌++◌, Text, ltb, leb, ◌==◌, if◌then◌else◌,
}

-- A digit of `{:x}`.
unfoldable pub hex_digit : ℕ → ℕ
hex_digit d = if ltb d 10 then 48 + d else 87 + d

-- `\uXXXX` of a number below 0x10000.
unfoldable pub unicode_escape : ℕ → Text
unicode_escape n =
    92
    ∷ b'u'
    ∷ hex_digit (n / 4096 % 16)
    ∷ hex_digit (n / 256 % 16)
    ∷ hex_digit (n / 16 % 16)
    ∷ hex_digit (n % 16)
    ∷ []

-- The surrogates of a code point above 0xffff.
abbrev pub high_surrogate : ℕ → ℕ
high_surrogate c = 0xd800 + (c - 0x10000) / 0x400

abbrev pub low_surrogate : ℕ → ℕ
low_surrogate c = 0xdc00 + (c - 0x10000) % 0x400

-- What one character becomes: the short escapes, `\u` outside of space to `~`, or itself.
unfoldable pub escape : ℕ → Text
escape c =
    if c == 34
    then 92 ∷ 34 ∷ []
    else if c == 92
    then 92 ∷ 92 ∷ []
    else if leb 32 c && leb c 126
    then c ∷ []
    else if c == 10
    then 92 ∷ b'n' ∷ []
    else if c == 13
    then 92 ∷ b'r' ∷ []
    else if c == 9
    then 92 ∷ b't' ∷ []
    else if c == 12
    then 92 ∷ b'f' ∷ []
    else if c == 8
    then 92 ∷ b'b' ∷ []
    else if ltb c 0x10000
    then unicode_escape c
    else unicode_escape (high_surrogate c) ++ unicode_escape (low_surrogate c)

unfoldable pub escape_all : Text → Text
escape_all [] = 34 ∷ []
escape_all (c ∷ s) = escape c ++ escape_all s

unfoldable pub print_string : Text → Text
print_string s = 34 ∷ escape_all s
