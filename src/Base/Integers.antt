-- ===== src/Base/Integers.antt =====
-- Integers over the native numbers, for what the source keeps in an `int`.
use Prim.Native.Nat.{ℕ}

-- `negsuc n` is -(n + 1).
pub data ℤ : Type 0 where
  pos : ℕ → ℤ
  negsuc : ℕ → ℤ
