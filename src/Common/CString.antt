-- ===== src/Common/CString.antt =====
-- C strings in buffers: the bytes before the first NUL.
use linux_programing_n_syste.Common.Tests.{is_null, if◌then◌else◌}
use linux_programing_n_syste.Common.Lists.{
  take, replicate, drop, drop-replicate, length, take-append_past,
}
use linux_programing_n_syste.Common.Decimal.{format_u32, digits}
use linux_programing_n_syste.Common.Tests.{ltb, Bool-cases}
use Prim.Native.Nat.{ℕ, ◌+◌, zero, suc, ◌-◌, ◌/◌, ◌<◌}
use mathlib.Core.Path.{◌≡◌, refl, ap}
use mathlib.Core.Logic.{inl, inr}
use mathlib.Core.Bool.{Bool, true, false, ◌||◌}
use mathlib.Core.List.{List, [], ◌∷◌, ◌++◌, append-nil}
use native.Mathlib.Omega.{arith}

abbrev pub c_string : List ℕ → List ℕ
c_string [] = []
c_string (c ∷ cs) = if is_null c then [] else c ∷ c_string cs

abbrev pub has_nul : List ℕ → Bool
has_nul [] = false
has_nul (c ∷ cs) = is_null c || has_nul cs

-- No byte of the text is NUL.
abbrev pub NoNul : List ℕ → Type 0
NoNul [] = Unit
NoNul (c ∷ cs) = (0 < c) × NoNul cs

pub NoNul-append : (xs ys : List ℕ) → NoNul xs → NoNul ys → NoNul (xs ++ ys)
NoNul-append [] ys h k = k
NoNul-append (x ∷ xs) ys h k = (h.0, NoNul-append xs ys h.1 k)

pub NoNul-take : (n : ℕ) (xs : List ℕ) → NoNul xs → NoNul (take n xs)
NoNul-take zero xs h = tt
NoNul-take (suc n) [] h = tt
NoNul-take (suc n) (x ∷ xs) h = (h.0, NoNul-take n xs h.1)

-- A text without NUL is read whole, and reading goes on behind it.
pub c_string-append : (xs ys : List ℕ) → NoNul xs → c_string (xs ++ ys) ≡ xs ++ c_string ys
c_string-append [] ys h = refl
c_string-append (zero ∷ xs) ys h = absurd (omega arith)
c_string-append (suc x ∷ xs) ys h = ap (λ t. suc x ∷ t) (c_string-append xs ys h.1)

pub c_string-replicate : (n : ℕ) → c_string (replicate n 0) ≡ []
c_string-replicate zero = refl
c_string-replicate (suc n) = refl

pub has_nul-append : (xs ys : List ℕ) → has_nul ys ≡ true → has_nul (xs ++ ys) ≡ true
has_nul-append [] ys h = h
has_nul-append (zero ∷ xs) ys h = refl
has_nul-append (suc x ∷ xs) ys h = has_nul-append xs ys h

pub NoNul-digits : (f n : ℕ) → NoNul (digits f n)
unfolding digits
NoNul-digits zero n = tt
NoNul-digits (suc f) n = elim (Bool-cases (ltb n 10)) [
  | inl one ↦ rw one (omega arith, tt)
  | inr more ↦
      rw more (NoNul-append (digits f (n / 10)) _ (NoNul-digits f (n / 10)) (omega arith, tt))
]

pub NoNul-format_u32 : (n : ℕ) → NoNul (format_u32 n)
unfolding format_u32
NoNul-format_u32 n = NoNul-digits 10 n

-- The first `n` bytes of a text that ends in NUL, copied in front of an empty string.
pub c_string-take :
    (n : ℕ) (xs ys zs : List ℕ)
    → NoNul xs
    → c_string zs ≡ []
    → c_string (take n (xs ++ (0 ∷ ys)) ++ zs) ≡ take n xs
c_string-take zero xs ys zs h e = e
c_string-take (suc n) [] ys zs h e = refl
c_string-take (suc n) (zero ∷ xs) ys zs h e = absurd (omega arith)
c_string-take (suc n) (suc x ∷ xs) ys zs h e = ap (λ t. suc x ∷ t) (c_string-take n xs ys zs h.1 e)

pub c_string-drop-replicate : (k n : ℕ) → c_string (drop k (replicate n 0)) ≡ []
c_string-drop-replicate k n = rw (drop-replicate {A = ℕ} k n 0) (c_string-replicate (n - k))

take_of_eq : {n m : ℕ} (xs : List ℕ) → n ≡ m → take n xs ≡ take m xs
take_of_eq xs e = ap (λ k. take k xs) e

-- The buffer of a program that sends a text and its NUL.
pub take-text :
    (text rest : List ℕ) → take (length text + 1) (text ++ (0 ∷ rest)) ≡ text ++ (0 ∷ [])
take-text text rest = rw (take-append_past (length text + 1) text (0 ∷ rest) (omega arith)) (
    ap (λ t. text ++ t)
      (take_of_eq {n = length text + 1 - length text} {m = 1} (0 ∷ rest) (omega arith)))

pub has_nul-text :
    (text rest : List ℕ) → has_nul (take (length text + 1) (text ++ (0 ∷ rest))) ≡ true
has_nul-text text rest = rw (take-text text rest) (has_nul-append text (0 ∷ []) refl)

pub c_string-text :
    (text rest : List ℕ)
    → NoNul text
    → c_string (take (length text + 1) (text ++ (0 ∷ rest))) ≡ text
c_string-text text rest h =
    rw (take-text text rest) (rw (c_string-append text (0 ∷ []) h) (append-nil text))
