-- ===== src/Common/Decimal.antt =====
-- The text that `sprintf` writes for `%u`: the decimal digits of a number, without leading zeros.
use Prim.Native.Nat.{ℕ, zero, suc, ◌+◌, ◌-◌, ◌*◌, ◌/◌, ◌%◌, ◌^◌, ◌≤◌, ◌<◌}
use mathlib.Core.Path.{◌≡◌, refl}
use mathlib.Core.Logic.{inl, inr}
use mathlib.Core.List.{List, [], ◌∷◌, ◌++◌}
use native.Mathlib.Nat.{pow-suc, one-le-pow}
use native.Mathlib.Omega.{arith}
use linux_programing_n_syste.Common.Tests.{ltb, if◌then◌else◌, Bool-cases}
use linux_programing_n_syste.Common.Lists.{length, length-append, take, take-append, take-all}

-- Enough fuel for a `unsigned int` is 10: one round for each digit.
unfoldable pub digits : ℕ → ℕ → List ℕ
digits zero n = []
digits (suc f) n =
    let shorter = digits f (n / 10) in
    if ltb n 10 then (b'0' + n) ∷ [] else shorter ++ ((b'0' + n % 10) ∷ [])

unfoldable pub format_u32 : ℕ → List ℕ
unfolding digits
format_u32 n = digits 10 n

-- The number that a text of decimal digits stands for.
abbrev pub value_from : ℕ → List ℕ → ℕ
value_from acc [] = acc
value_from acc (c ∷ cs) = value_from (acc * 10 + (c - b'0')) cs

abbrev pub value : List ℕ → ℕ
value cs = value_from 0 cs

value_from-append :
    (acc : ℕ) (xs : List ℕ) (c : ℕ)
    → value_from acc (xs ++ (c ∷ [])) ≡ value_from acc xs * 10 + (c - b'0')
value_from-append acc [] c = refl
value_from-append acc (x ∷ xs) c = value_from-append (acc * 10 + (x - b'0')) xs c

value-digits : (f n : ℕ) → n < 10 ^ f → value (digits f n) ≡ n
unfolding digits
value-digits zero n h = omega arith
value-digits (suc f) n h = elim (Bool-cases (ltb n 10)) [
  | inl one ↦ rw one (omega arith)
  | inr more ↦ rw more (
      omega (
        arith,
        value_from-append 0 (digits f (n / 10)) (b'0' + n % 10),
        value-digits f (n / 10) (omega (arith, pow-suc 10 f)),
      ))
]

length-digits : (f d n : ℕ) → 0 < d → n < 10 ^ d → length (digits f n) ≤ d
unfolding digits
length-digits zero d n p h = omega arith
length-digits (suc f) zero n p h = absurd (omega arith)
length-digits (suc f) (suc zero) n p h = ground arith
length-digits (suc f) (suc (suc d)) n p h = elim (Bool-cases (ltb n 10)) [
  | inl one ↦ rw one (omega arith)
  | inr more ↦ rw more (
      omega (
        arith,
        length-append {0} (digits f (n / 10)) ((b'0' + n % 10) ∷ []),
        length-digits f (suc d) (n / 10) (omega arith) (omega (arith, pow-suc 10 (suc d))),
      ))
]

-- The text reads back as the number.
pub value-format_u32 : (n : ℕ) → n < 2 ^ 32 → value (format_u32 n) ≡ n
unfolding format_u32
value-format_u32 n h = value-digits 10 n (omega arith)

-- A number below 10 ^ d has at most d digits.
pub length-format_u32 : (d n : ℕ) → 0 < d → n < 10 ^ d → length (format_u32 n) ≤ d
unfolding format_u32
length-format_u32 d n p h = length-digits 10 d n p h

length-digits_exact :
    (f d n : ℕ) → d < f → 10 ^ d ≤ n → n < 10 ^ suc d → length (digits f n) ≡ suc d
unfolding digits
length-digits_exact zero d n p h k = absurd (omega arith)
length-digits_exact (suc f) zero n p h k = ground arith
length-digits_exact (suc f) (suc d) n p h k = elim (Bool-cases (ltb n 10)) [
  | inl one ↦ absurd (ground (arith, pow-suc 10 d, one-le-pow d 10))
  | inr more ↦ rw more (
      omega (
        arith,
        length-append {0} (digits f (n / 10)) ((b'0' + n % 10) ∷ []),
        length-digits_exact f d (n / 10) (omega arith) (omega (arith, pow-suc 10 d))
            (omega (arith, pow-suc 10 (suc d))),
      ))
]

digits-suc : (f n : ℕ) → 10 ≤ n → digits (suc f) n ≡ digits f (n / 10) ++ ((b'0' + n % 10) ∷ [])
unfolding digits
digits-suc f n h = elim (Bool-cases (ltb n 10)) [
  | inl one ↦ absurd (ground arith)
  | inr more ↦ rw more
]

-- The first nine digits of a ten-digit number stand for its tenth part.
pub value-take_nine : (n : ℕ) → 10 ^ 9 ≤ n → n < 10 ^ 10 → value (take 9 (format_u32 n)) ≡ n / 10
unfolding format_u32
value-take_nine n h k =
    let exact : length (digits 9 (n / 10)) ≡ 9 =
      length-digits_exact 9 8 (n / 10) (omega arith) (omega arith) (omega arith) in
    rw (digits-suc 9 n (omega arith)) (
      rw (take-append 9 (digits 9 (n / 10)) ((b'0' + n % 10) ∷ []) (omega arith))
        (rw (take-all 9 (digits 9 (n / 10)) (omega arith)) (value-digits 9 (n / 10) (omega arith))))
