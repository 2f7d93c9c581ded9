-- ===== src/Prelude/Int.antt =====
-- Python integers as they come out of JSON: signed and unbounded.
use Prim.Native.Nat.{ℕ}

-- `negsuc n` is -(n + 1).
pub data ℤ : Type 0 where
  pos : ℕ → ℤ
  negsuc : ℕ → ℤ
