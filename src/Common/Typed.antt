-- ===== src/Common/Typed.antt =====
-- What `fgets` takes of the characters that are typed, and lines that fit a buffer of 30 bytes.
use linux_programing_n_syste.Common.Tests.{◌==◌, if◌then◌else◌}
use linux_programing_n_syste.Common.Lists.{length}
use linux_programing_n_syste.Common.CString.{NoNul}
use Prim.Native.Nat.{ℕ, zero, suc, ◌+◌, ◌≤◌, ◌<◌}
use mathlib.Core.Path.{◌≡◌, refl, ap}
use mathlib.Core.Logic.{◌≢◌}
use mathlib.Core.Bool.{false}
use mathlib.Core.List.{List, [], ◌∷◌, ◌++◌}
use native.Mathlib.Omega.{arith}

-- `fgets` takes the characters up to a newline, or up to a number of characters.
unfoldable pub line : ℕ → List ℕ → List ℕ
line zero cs = []
line (suc n) [] = []
line (suc n) (c ∷ cs) = if c == 10 then 10 ∷ [] else c ∷ line n cs

pub ==_ne : (a b : ℕ) → a ≢ b → (a == b) ≡ false
==_ne a b h = ground arith

-- No character is a newline or NUL.
abbrev pub Plain : List ℕ → Type 0
Plain [] = Unit
Plain (c ∷ cs) = (0 < c) × (c ≢ 10) × Plain cs

-- A line as it is typed.
abbrev pub with_newline : List ℕ → List ℕ
with_newline text = text ++ (10 ∷ [])

-- A line that fits the buffer with its newline and NUL.
pub record Fits (text : List ℕ) : Type 0 where
  pub plain : Plain text
  pub short : length text ≤ 28

pub Plain-NoNul : (text : List ℕ) → Plain text → NoNul (with_newline text)
Plain-NoNul [] h = (omega arith, tt)
Plain-NoNul (c ∷ cs) (p, q, h) = (p, Plain-NoNul cs h)

pub line_lem :
    (n : ℕ) (text rest : List ℕ)
    → Plain text
    → length text + 1 ≤ n
    → line n (with_newline text ++ rest) ≡ with_newline text
unfolding line
line_lem zero text rest h short = absurd (omega arith)
line_lem (suc n) [] rest h short = refl
line_lem (suc n) (c ∷ cs) rest (p, q, h) short =
    rw (==_ne c 10 q) (ap (λ t. c ∷ t) (line_lem n cs rest h (omega arith)))
