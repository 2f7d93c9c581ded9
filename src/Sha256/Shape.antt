-- ===== src/Sha256/Shape.antt =====
-- The shape of a digest and of hexadecimal text.
use qnty_authority_root.Prelude.{
  ℕ, ◌*◌, ◌/◌, ◌%◌, ◌<◌, ◌≡◌, refl, Bool, true, ◌&&◌, ◌||◌, [], ◌∷◌, Bytes, length, leb, All, arith,
}
use qnty_authority_root.Json.Escape.{hex_digit}
use qnty_authority_root.Sha256.{State, sha256, state_bytes, final_state, hex}

-- `[0-9a-f]`.
abbrev pub is_lower_hex : ℕ → Bool
is_lower_hex c = (leb 48 c && leb c 57) || (leb 97 c && leb c 102)

pub hex_digit-lower : (d : ℕ) → d < 16 → is_lower_hex (hex_digit d) ≡ true
unfolding hex_digit
hex_digit-lower d h = ground arith

pub hex-All : (s : Bytes) → All (λ c. is_lower_hex c ≡ true) (hex s)
unfolding hex
hex-All [] = tt
hex-All (b ∷ s) = (
  hex_digit-lower (b / 16 % 16) (omega arith),
  (hex_digit-lower (b % 16) (omega arith), hex-All s),
)

pub length-hex : (s : Bytes) → length (hex s) ≡ 2 * length s
unfolding hex
length-hex [] = refl
length-hex (b ∷ s) = omega (arith, length-hex s)

length-state_bytes : (s : State) → length (state_bytes s) ≡ 32
unfolding state_bytes
length-state_bytes s = refl

-- A digest is 32 bytes long.
pub length-sha256 : (m : Bytes) → length (sha256 m) ≡ 32
unfolding sha256
length-sha256 m = length-state_bytes (final_state m)
