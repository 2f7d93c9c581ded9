-- ===== src/Sha256.antt =====
-- `hashlib.sha256`, which src/qnty_authority_root/canon.py calls: FIPS 180-4 on 32-bit words.
pub mod Shape
use Prim.Native.Nat.{bit_and, bit_xor}
use qnty_authority_root.Prelude.{
  ℕ, zero, suc, ◌+◌, ◌-◌, ◌*◌, ◌/◌, ◌%◌, ◌^◌, List, [], ◌∷◌, ◌++◌, Bytes, Text, length, drop,
  replicate,
}
use qnty_authority_root.Json.Escape.{hex_digit}

abbrev pub word_mod : ℕ
word_mod = 4294967296

-- x >>> n, the rotation of a word to the right; `right_shift` is the shift.
rotate_right : ℕ → ℕ → ℕ
rotate_right n x = x / 2 ^ n + x % 2 ^ n * 2 ^ (32 - n)

right_shift : ℕ → ℕ → ℕ
right_shift n x = x / 2 ^ n

xor_three : ℕ → ℕ → ℕ → ℕ
xor_three x y z = bit_xor x (bit_xor y z)

small_sigma_0 : ℕ → ℕ
unfolding rotate_right right_shift xor_three
small_sigma_0 x = xor_three (rotate_right 7 x) (rotate_right 18 x) (right_shift 3 x)

small_sigma_1 : ℕ → ℕ
unfolding rotate_right right_shift xor_three
small_sigma_1 x = xor_three (rotate_right 17 x) (rotate_right 19 x) (right_shift 10 x)

big_sigma_0 : ℕ → ℕ
unfolding rotate_right xor_three
big_sigma_0 x = xor_three (rotate_right 2 x) (rotate_right 13 x) (rotate_right 22 x)

big_sigma_1 : ℕ → ℕ
unfolding rotate_right xor_three
big_sigma_1 x = xor_three (rotate_right 6 x) (rotate_right 11 x) (rotate_right 25 x)

choose : ℕ → ℕ → ℕ → ℕ
choose x y z = bit_xor (bit_and x y) (bit_and (word_mod - 1 - x) z)

majority : ℕ → ℕ → ℕ → ℕ
unfolding xor_three
majority x y z = xor_three (bit_and x y) (bit_and x z) (bit_and y z)

-- The eight working variables.
pub record State : Type 0 where
  pub a : ℕ
  pub b : ℕ
  pub c : ℕ
  pub d : ℕ
  pub e : ℕ
  pub f : ℕ
  pub g : ℕ
  pub h : ℕ

abbrev initial : State
initial = record {
  a = 0x6a09e667;
  b = 0xbb67ae85;
  c = 0x3c6ef372;
  d = 0xa54ff53a;
  e = 0x510e527f;
  f = 0x9b05688c;
  g = 0x1f83d9ab;
  h = 0x5be0cd19;
}

-- The constants of the 64 rounds.
abbrev round_constants : List ℕ
round_constants =
    0x428a2f98 ∷ 0x71374491 ∷ 0xb5c0fbcf ∷ 0xe9b5dba5 ∷ 0x3956c25b ∷ 0x59f111f1 ∷ 0x923f82a4
    ∷ 0xab1c5ed5 ∷ 0xd807aa98 ∷ 0x12835b01 ∷ 0x243185be ∷ 0x550c7dc3 ∷ 0x72be5d74 ∷ 0x80deb1fe
    ∷ 0x9bdc06a7 ∷ 0xc19bf174 ∷ 0xe49b69c1 ∷ 0xefbe4786 ∷ 0x0fc19dc6 ∷ 0x240ca1cc ∷ 0x2de92c6f
    ∷ 0x4a7484aa ∷ 0x5cb0a9dc ∷ 0x76f988da ∷ 0x983e5152 ∷ 0xa831c66d ∷ 0xb00327c8 ∷ 0xbf597fc7
    ∷ 0xc6e00bf3 ∷ 0xd5a79147 ∷ 0x06ca6351 ∷ 0x14292967 ∷ 0x27b70a85 ∷ 0x2e1b2138 ∷ 0x4d2c6dfc
    ∷ 0x53380d13 ∷ 0x650a7354 ∷ 0x766a0abb ∷ 0x81c2c92e ∷ 0x92722c85 ∷ 0xa2bfe8a1 ∷ 0xa81a664b
    ∷ 0xc24b8b70 ∷ 0xc76c51a3 ∷ 0xd192e819 ∷ 0xd6990624 ∷ 0xf40e3585 ∷ 0x106aa070 ∷ 0x19a4c116
    ∷ 0x1e376c08 ∷ 0x2748774c ∷ 0x34b0bcb5 ∷ 0x391c0cb3 ∷ 0x4ed8aa4a ∷ 0x5b9cca4f ∷ 0x682e6ff3
    ∷ 0x748f82ee ∷ 0x78a5636f ∷ 0x84c87814 ∷ 0x8cc70208 ∷ 0x90befffa ∷ 0xa4506ceb ∷ 0xbef9a3f7
    ∷ 0xc67178f2 ∷ []

nth : List ℕ → ℕ → ℕ
nth [] i = 0
nth (x ∷ xs) zero = x
nth (x ∷ xs) (suc i) = nth xs i

-- The sixteen words of the schedule that the next rounds use, moved on by one.
next_words : List ℕ → List ℕ
unfolding nth small_sigma_0 small_sigma_1
next_words w =
    drop 1 w
    ++ ((small_sigma_1 (nth w 14) + nth w 9 + small_sigma_0 (nth w 1) + nth w 0) % word_mod) ∷ []

round : ℕ → ℕ → State → State
unfolding big_sigma_0 big_sigma_1 choose majority
round k w s =
    let t₁ = s.h + big_sigma_1 s.e + choose s.e s.f s.g + k + w in
    let t₂ = big_sigma_0 s.a + majority s.a s.b s.c in
    record {
      a = (t₁ + t₂) % word_mod;
      b = s.a;
      c = s.b;
      d = s.c;
      e = (s.d + t₁) % word_mod;
      f = s.e;
      g = s.f;
      h = s.g;
    }

rounds : List ℕ → List ℕ → State → State
unfolding round next_words nth
rounds [] w s = s
rounds (k ∷ ks) w s = rounds ks (next_words w) (round k (nth w 0) s)

compress : State → List ℕ → State
unfolding rounds
compress s w =
    let r = rounds round_constants w s in
    record {
      a = (s.a + r.a) % word_mod;
      b = (s.b + r.b) % word_mod;
      c = (s.c + r.c) % word_mod;
      d = (s.d + r.d) % word_mod;
      e = (s.e + r.e) % word_mod;
      f = (s.f + r.f) % word_mod;
      g = (s.g + r.g) % word_mod;
      h = (s.h + r.h) % word_mod;
    }

-- The big-endian words at the front of a text of bytes.
words : ℕ → Bytes → List ℕ
words zero s = []
words (suc n) (a ∷ b ∷ c ∷ d ∷ s) = (((a * 256 + b) * 256 + c) * 256 + d) ∷ words n s
words (suc n) s = []

compress_blocks : ℕ → Bytes → State → State
unfolding compress words
compress_blocks zero s st = st
compress_blocks (suc n) s st = compress_blocks n (drop 64 s) (compress st (words 16 s))

-- The four bytes of a word.
word_bytes : ℕ → Bytes
word_bytes w = (w / 16777216 % 256) ∷ (w / 65536 % 256) ∷ (w / 256 % 256) ∷ (w % 256) ∷ []

-- A one bit, zeros up to eight bytes before the end of a block, and the length in bits.
padded : Bytes → Bytes
unfolding word_bytes
padded m =
    let n = length m in
    m
    ++ (0x80
        ∷ (replicate ((119 - n % 64) % 64) 0
            ++ (word_bytes (n * 8 / word_mod) ++ word_bytes (n * 8 % word_mod))))

unfoldable pub state_bytes : State → Bytes
unfolding word_bytes
state_bytes s =
    word_bytes s.a
    ++ (word_bytes s.b
        ++ (word_bytes s.c
            ++ (word_bytes s.d
                ++ (word_bytes s.e ++ (word_bytes s.f ++ (word_bytes s.g ++ word_bytes s.h))))))

unfoldable pub final_state : Bytes → State
unfolding compress_blocks padded
final_state m = let p = padded m in compress_blocks (length p / 64) p initial

-- `hashlib.sha256(data).digest()`.
unfoldable pub sha256 : Bytes → Bytes
sha256 m = state_bytes (final_state m)

-- `bytes.hex()`.
unfoldable pub hex : Bytes → Text
unfolding hex_digit
hex [] = []
hex (b ∷ s) = hex_digit (b / 16 % 16) ∷ (hex_digit (b % 16) ∷ hex s)
