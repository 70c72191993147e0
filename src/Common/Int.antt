-- ===== src/Common/Int.antt =====
-- C's `int`, as a result code: the library's names for a signed integer over the native numbers.
use Prim.Native.Nat.{ℕ, zero, suc}
use mathlib.Core.Bool.{Bool, true, false}

-- `negsuc n` is -(n + 1).
pub data ℤ : Type 0 where
  pos : ℕ → ℤ
  negsuc : ℕ → ℤ

-- The test `ret < 0`.
abbrev pub is_negative : ℤ → Bool
is_negative (pos _) = false
is_negative (negsuc _) = true

abbrev pub is_positive : ℤ → Bool
is_positive (pos zero) = false
is_positive (pos (suc _)) = true
is_positive (negsuc _) = false

-- The unary `-`.
abbrev pub negate : ℤ → ℤ
negate (pos zero) = pos zero
negate (pos (suc n)) = negsuc n
negate (negsuc n) = pos (suc n)

abbrev pub success : ℤ
success = pos 0

abbrev pub minus_one : ℤ
minus_one = negsuc 0

-- `-ENOMEM`, `-EFAULT` and `-EINVAL`, by their numbers 12, 14 and 22.
abbrev pub neg_enomem : ℤ
neg_enomem = negsuc 11

abbrev pub neg_efault : ℤ
neg_efault = negsuc 13

abbrev pub neg_einval : ℤ
neg_einval = negsuc 21

-- The test `ret == -1`.
abbrev pub is_minus_one : ℤ → Bool
is_minus_one (negsuc zero) = true
is_minus_one _ = false
