-- ===== src/Base/Int.antt =====
-- Go's `int` where the program lets it be negative. `negsuc n` is -(n + 1).
use Prim.Native.Nat.{ℕ, ◌*◌, ◌+◌}

pub data ℤ : Type 0 where
  pos : ℕ → ℤ
  negsuc : ℕ → ℤ

abbrev pub minus_one : ℤ
minus_one = negsuc 0

-- 2 * n
abbrev pub double : ℤ → ℤ
double (pos n) = pos (2 * n)
double (negsuc n) = negsuc (2 * n + 1)
