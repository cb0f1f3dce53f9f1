-- ===== src/Int.antt =====
-- Go's `int` where it may be negative, over the native numbers.
use nexlog_server.Base.{ℕ, suc, ◌+◌, ◌/◌}

-- `negsuc n` is -(n + 1).
pub data ℤ : Type 0 where
  pos : ℕ → ℤ
  negsuc : ℕ → ℤ

abbrev pub negate : ℕ → ℤ
negate ℕ.zero = pos 0
negate (suc n) = negsuc n

-- Division by a positive number, towards zero as in Go.
abbrev pub quotient : ℤ → ℕ → ℤ
quotient (pos n) d = pos (n / d)
quotient (negsuc n) d = negate ((n + 1) / d)
