-- ===== src/Regex.antt =====
-- The regular expressions of the `re` patterns in contract.py, policy.py and ink_v0f_grant.py, and
-- `fullmatch` by derivatives. `Regex/Language.antt` says what a pattern matches.
pub mod Language
pub mod Runs
use qnty_authority_root.Prelude.{
  ℕ, zero, suc, Bool, true, false, ◌&&◌, ◌||◌, [], ◌∷◌, Text, if◌then◌else◌,
}

pub data Regex : Type 0 where
  never : Regex
  empty : Regex
  -- One character out of a class, `[…]`.
  class : (ℕ → Bool) → Regex
  seq : Regex → Regex → Regex
  alt : Regex → Regex → Regex
  star : Regex → Regex

-- `r+` and `r{n}`.
abbrev pub plus : Regex → Regex
plus r = seq r (star r)

abbrev pub times : ℕ → Regex → Regex
times zero r = empty
times (suc n) r = seq r (times n r)

unfoldable pub nullable : Regex → Bool
nullable never = false
nullable empty = true
nullable (class p) = false
nullable (seq r s) = nullable r && nullable s
nullable (alt r s) = nullable r || nullable s
nullable (star r) = true

-- Concatenation and choice that drop what matches nothing, so that derivatives stay small.
unfoldable pub join : Regex → Regex → Regex
join never s = never
join empty s = s
join (class p) s = seq (class p) s
join (seq r r') s = seq (seq r r') s
join (alt r r') s = seq (alt r r') s
join (star r) s = seq (star r) s

unfoldable pub either : Regex → Regex → Regex
either never s = s
either empty s = alt empty s
either (class p) s = alt (class p) s
either (seq r r') s = alt (seq r r') s
either (alt r r') s = alt (alt r r') s
either (star r) s = alt (star r) s

-- What is left to match after the character `c`.
unfoldable pub derivative : ℕ → Regex → Regex
unfolding join either nullable
derivative c never = never
derivative c empty = never
derivative c (class p) = if p c then empty else never
derivative c (seq r s) =
    let first = join (derivative c r) s in
    let second = derivative c s in if nullable r then either first second else first
derivative c (alt r s) = either (derivative c r) (derivative c s)
derivative c (star r) = join (derivative c r) (star r)

-- `re.fullmatch(pattern, text) is not None`.
unfoldable pub fullmatch : Regex → Text → Bool
unfolding derivative nullable
fullmatch r [] = nullable r
fullmatch r (c ∷ s) = fullmatch (derivative c r) s
