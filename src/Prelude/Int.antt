-- ===== src/Prelude/Int.antt =====
-- The integers, over the native numbers.
use Prim.Native.Nat.{ℕ}

-- A number, or one less than the negation of a number.
pub data ℤ : Type 0 where
  pos : ℕ → ℤ
  negsuc : ℕ → ℤ
