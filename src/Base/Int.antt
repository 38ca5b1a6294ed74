-- ===== src/Base/Int.antt =====
-- Go's `int`, where a value may be negative; no source that is modelled computes with one.
use Prim.Native.Nat.{ℕ}

pub data ℤ : Type 0 where
  pos negsuc : ℕ → ℤ
