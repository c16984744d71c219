-- ===== src/Prelude/Integer.antt =====
-- The integers of the source: a natural number, or -(n + 1).
use Prim.Native.Nat.{ℕ}

pub data ℤ : Type 0 where
  pos : ℕ → ℤ
  negsuc : ℕ → ℤ
