-- ===== src/Prelude/Int.antt =====
-- The integers over the native numbers, as far as a signed result needs them.
use Prim.Native.Nat.{ℕ}

-- `negsuc n` is `- (n + 1)`.
pub data ℤ : Type 0 where
  pos negsuc : ℕ → ℤ
