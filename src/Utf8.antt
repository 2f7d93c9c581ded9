-- ===== src/Utf8.antt =====
-- `bytes.decode("utf-8")` in strict mode, and `str.encode("utf-8")` (canon.py).
use qnty_authority_root.Prelude.{
  ℕ, zero, suc, ◌+◌, ◌-◌, ◌*◌, ◌/◌, ◌%◌, ◌<◌, ◌≡◌, refl, ◌&&◌, not, Option, none, some, [], ◌∷◌,
  Text, Bytes, ltb, leb, if◌then◌else◌, All, arith,
}

-- Between characters; or with `k + 1` bytes to come after `v`, for a character of at least `least`.
pub data Mode : Type 0 where
  lead : Mode
  tail : (k v least : ℕ) → Mode
  broken : Mode

-- What a byte does: the next mode, and the character that it completes.
complete : ℕ → ℕ → Mode × Option ℕ
complete v least =
    if leb least v && (leb v 0x10ffff && not (leb 0xd800 v && leb v 0xdfff))
    then (lead, some v)
    else (broken, none)

unfoldable pub step : Mode → ℕ → Mode × Option ℕ
unfolding complete
step lead b =
    if ltb b 0x80
    then (lead, some b)
    else if leb 0xc2 b && leb b 0xdf
    then (tail 0 (b - 0xc0) 0x80, none)
    else if leb 0xe0 b && leb b 0xef
    then (tail 1 (b - 0xe0) 0x800, none)
    else if leb 0xf0 b && leb b 0xf4
    then (tail 2 (b - 0xf0) 0x10000, none)
    else (broken, none)
step (tail zero v least) b =
    if leb 0x80 b && leb b 0xbf then complete (v * 64 + (b - 0x80)) least else (broken, none)
step (tail (suc k) v least) b =
    if leb 0x80 b && leb b 0xbf then (tail k (v * 64 + (b - 0x80)) least, none) else (broken, none)
step broken b = (broken, none)

emit : Option ℕ → Option Text → Option Text
emit none rest = rest
emit (some c) none = none
emit (some c) (some s) = some (c ∷ s)

unfoldable pub decode_from : Mode → Bytes → Option Text
unfolding step emit
decode_from lead [] = some []
decode_from (tail k v least) [] = none
decode_from broken [] = none
decode_from m (b ∷ s) = emit (step m b).1 (decode_from (step m b).0 s)

unfoldable pub decode : Bytes → Option Text
unfolding decode_from
decode s = decode_from lead s

unfoldable pub encode : Text → Bytes
encode [] = []
encode (c ∷ s) =
    let rest = encode s in
    if ltb c 0x80
    then c ∷ rest
    else if ltb c 0x800
    then (0xc0 + c / 64) ∷ (0x80 + c % 64) ∷ rest
    else if ltb c 0x10000
    then (0xe0 + c / 4096) ∷ (0x80 + c / 64 % 64) ∷ (0x80 + c % 64) ∷ rest
    else (0xf0 + c / 262144)
      ∷ (0x80 + c / 4096 % 64)
      ∷ (0x80 + c / 64 % 64)
      ∷ (0x80 + c % 64)
      ∷ rest

-- Text of ASCII characters is its own encoding, and is decoded as itself.
abbrev pub IsAscii : Text → Type 0
IsAscii = All (λ c. c < 128)

pub encode-ascii : (s : Text) → IsAscii s → encode s ≡ s
unfolding encode
encode-ascii [] h = refl
encode-ascii (c ∷ s) h = ground (arith, encode-ascii s h.1)

pub decode-ascii : (s : Text) → IsAscii s → decode s ≡ some s
unfolding decode
decode-ascii [] h = refl
decode-ascii (c ∷ s) h = ground (arith, decode-ascii s h.1)
