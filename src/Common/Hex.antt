-- ===== src/Common/Hex.antt =====
-- The text that `sprintf` writes for `%X`: upper-case hexadecimal digits, without leading zeros.
use Prim.Native.Nat.{ℕ, zero, suc, ◌+◌, ◌/◌, ◌%◌, ◌≤◌, ◌<◌}
use mathlib.Core.Logic.{inl, inr}
use mathlib.Core.List.{List, [], ◌∷◌, ◌++◌}
use native.Mathlib.Omega.{arith}
use linux_programing_n_syste.Common.Tests.{ltb, if◌then◌else◌, Bool-cases}
use linux_programing_n_syste.Common.Lists.{length, length-append}
use linux_programing_n_syste.Common.CString.{NoNul, NoNul-append}

abbrev pub hex_digit : ℕ → ℕ
hex_digit d = if ltb d 10 then b'0' + d else 55 + d

hex_digits : ℕ → ℕ → List ℕ
hex_digits zero n = []
hex_digits (suc f) n =
    let shorter = hex_digits f (n / 16) in
    if ltb n 16 then hex_digit n ∷ [] else shorter ++ (hex_digit (n % 16) ∷ [])

-- Enough fuel for 32 bits is 8: one round for each digit.
unfoldable pub format_hex : ℕ → List ℕ
unfolding hex_digits
format_hex n = hex_digits 8 n

length-hex_digits : (f n : ℕ) → length (hex_digits f n) ≤ f
unfolding hex_digits
length-hex_digits zero n = omega arith
length-hex_digits (suc f) n = elim (Bool-cases (ltb n 16)) [
  | inl one ↦ rw one (omega arith)
  | inr more ↦ rw more (
      omega (
        arith,
        length-append {0} (hex_digits f (n / 16)) (hex_digit (n % 16) ∷ []),
        length-hex_digits f (n / 16),
      ))
]

pub length-format_hex : (n : ℕ) → length (format_hex n) ≤ 8
unfolding format_hex
length-format_hex n = length-hex_digits 8 n

NoNul-hex_digits : (f n : ℕ) → NoNul (hex_digits f n)
unfolding hex_digits
NoNul-hex_digits zero n = tt
NoNul-hex_digits (suc f) n = elim (Bool-cases (ltb n 16)) [
  | inl one ↦ rw one (positive n, tt)
  | inr more ↦ rw more (
      NoNul-append (hex_digits f (n / 16)) (hex_digit (n % 16) ∷ []) (NoNul-hex_digits f (n / 16))
        (positive (n % 16), tt))
]
  where
    positive : (d : ℕ) → 0 < hex_digit d
    positive d = ground arith

pub NoNul-format_hex : (n : ℕ) → NoNul (format_hex n)
unfolding format_hex
NoNul-format_hex n = NoNul-hex_digits 8 n
