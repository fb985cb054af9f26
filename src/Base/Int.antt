-- ===== src/Base/Int.antt =====
-- Return codes: C's `int` and `s64` results, where zero is success and errors are negative.
use Prim.Native.Nat.{ℕ, zero, suc}
use mathlib.Core.Bool.{Bool, true, false}

-- `negsuc n` is -(n + 1).
pub data ℤ : Type 0 where
  pos : ℕ → ℤ
  negsuc : ℕ → ℤ

-- `res != 0`
abbrev pub is_error : ℤ → Bool
is_error (pos zero) = false
is_error (pos (suc n)) = true
is_error (negsuc n) = true

-- `res > 0`
abbrev pub is_positive : ℤ → Bool
is_positive (pos zero) = false
is_positive (pos (suc n)) = true
is_positive (negsuc n) = false

abbrev pub minus_one : ℤ
minus_one = negsuc 0
