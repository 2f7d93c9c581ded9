-- ===== src/PythonText.antt =====
-- `str.strip` and `str.casefold`, which the scope checks of contract.py and policy.py use.
use qnty_authority_root.Prelude.{
  ℕ, ◌+◌, Bool, ◌&&◌, ◌||◌, List, [], ◌∷◌, ◌++◌, Text, codes, leb, ◌==◌, if◌then◌else◌, text_mem,
}

-- `str.isspace` of one character.
unfoldable pub is_white_space : ℕ → Bool
is_white_space c =
    (leb 0x9 c && leb c 0xd)
    || ((leb 0x1c c && leb c 0x20)
        || (c == 0x85
            || (c == 0xa0
                || (c == 0x1680
                    || ((leb 0x2000 c && leb c 0x200a)
                        || (c == 0x2028
                            || (c == 0x2029 || (c == 0x202f || (c == 0x205f || c == 0x3000)))))))))

unfoldable pub lstrip : Text → Text
unfolding is_white_space
lstrip [] = []
lstrip (c ∷ s) = let rest = lstrip s in if is_white_space c then rest else c ∷ s

-- A character in front of a text that has no white space at its end.
unfoldable pub keep : ℕ → Text → Text
unfolding is_white_space
keep c [] = if is_white_space c then [] else c ∷ []
keep c (d ∷ t) = c ∷ d ∷ t

unfoldable pub rstrip : Text → Text
unfolding keep
rstrip [] = []
rstrip (c ∷ s) = keep c (rstrip s)

unfoldable pub strip : Text → Text
unfolding lstrip rstrip
strip s = rstrip (lstrip s)

-- `str.casefold` of one character, exact for every character whose folding is ASCII. A character
-- that folds to something else stands for itself: it is not ASCII either way, and the code only asks
-- whether the folded text is one of a few ASCII words.
unfoldable pub fold_character : ℕ → Text
fold_character c =
    if leb 65 c && leb c 90
    then (c + 32) ∷ []
    else if c == 0xdf
    then codes "ss"
    else if c == 0x17f
    then codes "s"
    else if c == 0x1e9e
    then codes "ss"
    else if c == 0x212a
    then codes "k"
    else if c == 0xfb00
    then codes "ff"
    else if c == 0xfb01
    then codes "fi"
    else if c == 0xfb02
    then codes "fl"
    else if c == 0xfb03
    then codes "ffi"
    else if c == 0xfb04
    then codes "ffl"
    else if c == 0xfb05
    then codes "st"
    else if c == 0xfb06
    then codes "st"
    else c ∷ []

unfoldable pub casefold : Text → Text
unfolding fold_character
casefold [] = []
casefold (c ∷ s) = fold_character c ++ casefold s

-- `_RESERVED_EXACT_SCOPE_TOKENS` of contract.py and `_RESERVED` of policy.py.
unfoldable pub reserved_exact_scope_tokens : List Text
reserved_exact_scope_tokens = codes "*" ∷ codes "any" ∷ codes "latest" ∷ []

-- `value.strip().casefold() in _RESERVED`.
unfoldable pub is_reserved_scope : Text → Bool
is_reserved_scope s = text_mem (casefold (strip s)) reserved_exact_scope_tokens
