-- ===== src/Base/Int.antt =====
-- Integers that the program receives: `negsuc n` is -(n + 1).
use Prim.Native.Nat.{ℕ, ◌+◌, ◌-◌}
use mathlib.Core.Bool.{Bool, true, false}

pub data ℤ : Type 0 where
  pos : ℕ → ℤ
  negsuc : ℕ → ℤ

-- `x >= 0`
abbrev pub is_pos : ℤ → Bool
is_pos (pos n) = true
is_pos (negsuc n) = false

-- `Math.max(0, n - x)`
abbrev pub monus : ℕ → ℤ → ℕ
monus n (pos k) = n - k
monus n (negsuc k) = n + k + 1
