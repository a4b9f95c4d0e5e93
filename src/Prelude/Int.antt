-- ===== src/Prelude/Int.antt =====
-- Rust's `i64`, where the program only stores and converts it.
use Prim.Native.Nat.{ℕ}

-- `negsuc n` is -(n + 1).
pub data ℤ : Type 0 where
  pos : ℕ → ℤ
  negsuc : ℕ → ℤ
