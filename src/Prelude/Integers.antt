-- ===== src/Prelude/Integers.antt =====
-- Go's `int` where it may be negative.
use Prim.Native.Nat.{ℕ}

pub data ℤ : Type 0 where
  pos : ℕ → ℤ
  -- -(n + 1)
  negsuc : ℕ → ℤ
