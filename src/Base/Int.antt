-- ===== src/Base/Int.antt =====
-- Signed integers, `negsuc n` being -(n + 1), and the part of one that `max(0) as u64` reads.
use Prim.Native.Nat.{ℕ}

pub data ℤ : Type 0 where
  pos : ℕ → ℤ
  negsuc : ℕ → ℤ

abbrev pub pos_part : ℤ → ℕ
pos_part (pos n) = n
pos_part (negsuc n) = 0
