-- ===== src/Common/Bits.antt =====
-- Single bits of a word: bit `k` of `n`, and what `&`, `|` and a power of two do to it.
use Prim.Native.Nat.{
  ℕ, zero, suc, ◌^◌, ◌+◌, ◌-◌, ◌*◌, ◌/◌, ◌%◌, ◌≤◌, min, max, bit_and, bit_or, digits, bitwise,
  bit_and-bitwise, bit_or-bitwise,
}
use mathlib.Core.Path.{◌≡◌, refl, ap, subst, sym, ◌∙◌}
use native.Mathlib.Nat.{le_refl, pow-suc}
use native.Mathlib.Omega.{arith}

unfoldable pub bit : ℕ → ℕ → ℕ
bit zero n = n % 2
bit (suc k) n = bit k (n / 2)

one_out : (n k : ℕ) → suc (n + k) ≡ suc n + k
one_out n k = omega arith

module _ (z : ℕ → ℕ) (f : ℕ → ℕ → ℕ) where
  zero_digits : (n b : ℕ) → digits z f n 0 b ≡ z b
  zero_digits zero b = refl
  zero_digits (suc n) b = refl

  -- Any fuel beyond the number itself changes nothing.
  spare_fuel : (n k a b : ℕ) → a ≤ n → digits z f (n + k) a b ≡ digits z f n a b
  spare_fuel n k zero b enough = zero_digits (n + k) b ∙ sym (zero_digits n b)
  spare_fuel zero k (suc a) b enough = absurd (omega arith)
  spare_fuel (suc n) k (suc a) b enough =
      subst (λ m. digits z f m (suc a) b ≡ digits z f (suc n) (suc a) b) (one_out n k)
        (ap (λ t. t * 2 + f (suc a % 2) (b % 2)) (spare_fuel n k (suc a / 2) (b / 2) (omega arith)))

  half_fuel : (a b : ℕ) → digits z f a (suc a / 2) b ≡ digits z f (suc a / 2) (suc a / 2) b
  half_fuel a b =
      subst (λ n. digits z f n (suc a / 2) b ≡ digits z f (suc a / 2) (suc a / 2) b) (omega arith)
        (spare_fuel (suc a / 2) (a - suc a / 2) (suc a / 2) b (le_refl _))

  lowest_digit :
      (a b : ℕ)
      → bitwise z f (suc a) b ≡ f (suc a % 2) (b % 2) + 2 * bitwise z f (suc a / 2) (b / 2)
  lowest_digit a b = omega (arith, half_fuel a (b / 2))

or_step : (a b : ℕ) → bit_or a b ≡ max (a % 2) (b % 2) + 2 * bit_or (a / 2) (b / 2)
or_step zero b = omega (arith, bit_or-bitwise 0 b, bit_or-bitwise 0 (b / 2))
or_step (suc a) b =
    bit_or-bitwise (suc a) b
    ∙ lowest_digit (λ y. y) max a b
    ∙ ap (λ t. max (suc a % 2) (b % 2) + 2 * t) (sym (bit_or-bitwise (suc a / 2) (b / 2)))

and_step : (a b : ℕ) → bit_and a b ≡ min (a % 2) (b % 2) + 2 * bit_and (a / 2) (b / 2)
and_step zero b = omega (arith, bit_and-bitwise 0 b, bit_and-bitwise 0 (b / 2))
and_step (suc a) b =
    bit_and-bitwise (suc a) b
    ∙ lowest_digit (λ _. 0) min a b
    ∙ ap (λ t. min (suc a % 2) (b % 2) + 2 * t) (sym (bit_and-bitwise (suc a / 2) (b / 2)))

halve : (q r : ℕ) → r ≤ 1 → (r + 2 * q) / 2 ≡ q
halve q r h = omega arith

pub bit-or : (k a b : ℕ) → bit k (bit_or a b) ≡ max (bit k a) (bit k b)
unfolding bit
bit-or zero a b = omega (arith, or_step a b)
bit-or (suc k) a b = rw (or_step a b) (
    rw (halve (bit_or (a / 2) (b / 2)) (max (a % 2) (b % 2)) (omega arith))
      (bit-or k (a / 2) (b / 2)))

pub bit-and : (k a b : ℕ) → bit k (bit_and a b) ≡ min (bit k a) (bit k b)
unfolding bit
bit-and zero a b = omega (arith, and_step a b)
bit-and (suc k) a b = rw (and_step a b) (
    rw (halve (bit_and (a / 2) (b / 2)) (min (a % 2) (b % 2)) (omega arith))
      (bit-and k (a / 2) (b / 2)))

pub bit-le-one : (k n : ℕ) → bit k n ≤ 1
unfolding bit
bit-le-one zero n = omega arith
bit-le-one (suc k) n = bit-le-one k (n / 2)

pub bit-zero : (k : ℕ) → bit k 0 ≡ 0
unfolding bit
bit-zero zero = refl
bit-zero (suc k) = bit-zero k

no_common_digit : (n a : ℕ) → digits (λ _. 0) min n a 0 ≡ 0
no_common_digit zero zero = refl
no_common_digit zero (suc a) = refl
no_common_digit (suc n) zero = refl
no_common_digit (suc n) (suc a) = omega (arith, no_common_digit n (suc a / 2))

and_nothing : (a : ℕ) → bit_and a 0 ≡ 0
and_nothing a = bit_and-bitwise a 0 ∙ no_common_digit a a

-- `a & (1 << k)`.
pub bit_and-two_pow : (k a : ℕ) → bit_and a (2 ^ k) ≡ bit k a * 2 ^ k
unfolding bit
bit_and-two_pow zero a = omega (arith, and_step a 1, and_nothing (a / 2))
bit_and-two_pow (suc k) a =
    let halved : 2 ^ suc k / 2 ≡ 2 ^ k = omega (arith, pow-suc 2 k) in
    rw (and_step a (2 ^ suc k))
      (rw halved (rw (bit_and-two_pow k (a / 2)) (double (bit k (a / 2)) k (a % 2))))
  where
    double : (b j r : ℕ) → min r (2 ^ suc j % 2) + 2 * (b * 2 ^ j) ≡ b * 2 ^ suc j
    double b j r = omega (arith, pow-suc 2 j, ap (λ (t : ℕ). b * t) (pow-suc 2 j))
