-- ===== src/Gpio/Masks.antt =====
-- The bits of the masks that the drivers use: one bit, and all of 32 bits but one.
use linux_programing_n_syste.Common.{
  ℕ, ap, zero, suc, ◌-◌, ◌/◌, ◌^◌, ◌<◌, ◌≡◌, ◌≢◌, refl, arith, Bool, true, false, ◌==◌,
  if◌then◌else◌, ==_iff,
}
use linux_programing_n_syste.Common.Bits.{bit, bit-zero}
use native.Mathlib.Nat.{pow-suc}

-- Two functions have the same values below `n`.
agree : (ℕ → ℕ) → (ℕ → ℕ) → ℕ → Bool
agree f g zero = true
agree f g (suc n) = if f n == g n then agree f g n else false

agree_lem : (f g : ℕ → ℕ) (k n : ℕ) → k < n → agree f g n ≡ true → f k ≡ g k
unfolding agree
agree_lem f g k zero below same = absurd (omega arith)
agree_lem f g k (suc n) below same = ground (arith, ==_iff (f n) (g n), agree_lem f g k n)

pub bit-two_pow_self : (k : ℕ) → bit k (2 ^ k) ≡ 1
unfolding bit
bit-two_pow_self zero = refl
bit-two_pow_self (suc k) = rw (halved k) (bit-two_pow_self k)
  where
    halved : (j : ℕ) → 2 ^ suc j / 2 ≡ 2 ^ j
    halved j = omega (arith, pow-suc 2 j)

pub bit-two_pow_ne : (k j : ℕ) → k ≢ j → bit k (2 ^ j) ≡ 0
unfolding bit
bit-two_pow_ne zero zero h = absurd (h refl)
bit-two_pow_ne zero (suc j) h = omega (arith, pow-suc 2 j)
bit-two_pow_ne (suc k) zero h = bit-zero k
bit-two_pow_ne (suc k) (suc j) h = rw (halved j) (bit-two_pow_ne k j (λ e. h (ap suc e)))
  where
    halved : (i : ℕ) → 2 ^ suc i / 2 ≡ 2 ^ i
    halved i = omega (arith, pow-suc 2 i)

-- `~(1 << j)`, of 32 bits.
abbrev pub all_but : ℕ → ℕ
all_but j = 2 ^ 32 - 1 - 2 ^ j

all_but_table : agree (λ k. bit k (all_but 30)) (λ k. if k == 30 then 0 else 1) 32 ≡ true
unfolding agree bit
all_but_table = refl

pub bit-all_but_30 : (k : ℕ) → k < 32 → bit k (all_but 30) ≡ (if k == 30 then 0 else 1)
bit-all_but_30 k h =
    agree_lem (λ k. bit k (all_but 30)) (λ k. if k == 30 then 0 else 1) k 32 h all_but_table

all_but_31_table : agree (λ k. bit k (all_but 31)) (λ k. if k == 31 then 0 else 1) 32 ≡ true
unfolding agree bit
all_but_31_table = refl

pub bit-all_but_31 : (k : ℕ) → k < 32 → bit k (all_but 31) ≡ (if k == 31 then 0 else 1)
bit-all_but_31 k h =
    agree_lem (λ k. bit k (all_but 31)) (λ k. if k == 31 then 0 else 1) k 32 h all_but_31_table
