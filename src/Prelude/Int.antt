-- ===== src/Prelude/Int.antt =====
-- Signed 64-bit values as integers over the native numbers, and the bounds of int64.
use Prim.Native.Nat.{ℕ}

-- `negsuc n` is -(n + 1).
pub data ℤ : Type 0 where
  pos : ℕ → ℤ
  negsuc : ℕ → ℤ

-- math.MaxInt64
abbrev pub max_int64 : ℕ
max_int64 = 9223372036854775807
