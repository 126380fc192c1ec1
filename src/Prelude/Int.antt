-- ===== src/Prelude/Int.antt =====
-- Integers over native numbers: `i64` and `isize` before wrap-around.
use Prim.Native.Nat.{ℕ}

pub data ℤ : Type 0 where
  pos : ℕ → ℤ
  negsuc : ℕ → ℤ
