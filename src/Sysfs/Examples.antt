-- ===== src/Sysfs/Examples.antt =====
-- Concrete runs of gpio-sysfs.c.
use linux_programing_n_syste.Common.{
  ℕ, ◌-◌, inl, refl, arith, false, List, [], ◌∷◌, if◌then◌else◌, Option, none, some, ◌==◌,
}
use linux_programing_n_syste.Common.Int.{ℤ, pos}
use linux_programing_n_syste.Kernel.{Returns}
use linux_programing_n_syste.Sysfs.{Answers, loaded}
use linux_programing_n_syste.Sysfs.Requests.{
  Request, serve_all, Sound, ScansWithin, serve_all-Sound,
}

-- One digit and a newline.
abbrev scan_int : List ℕ → Option ℤ
scan_int (d ∷ e ∷ []) = if e == 10 then some (pos (d - b'0')) else none
scan_int _ = none

-- The first two characters of a text that has them.
abbrev scan_word : List ℕ → Option (List ℕ)
scan_word (c ∷ d ∷ rest) = some (c ∷ d ∷ [])
scan_word _ = none

scan_word-ScansWithin : ScansWithin scan_word
scan_word-ScansWithin [] word e = ground arith
scan_word-ScansWithin (c ∷ []) word e = ground arith
scan_word-ScansWithin (c ∷ d ∷ rest) word e = ground arith

abbrev answered : Answers
answered = record { kobj = 500; group_failed = false; direction_failed = false }

abbrev five : List ℕ
five = b'5' ∷ 10 ∷ []

abbrev one : List ℕ
one = b'1' ∷ 10 ∷ []

abbrev input : List ℕ
input = b'i' ∷ b'n' ∷ 10 ∷ []

loaded-Sound : Sound loaded
loaded-Sound = record { binary = inl refl; pin = omega arith; whole = refl }

abbrev requests : List (Answers × Request)
requests =
    (answered, Request.write_export five)
    ∷ (answered, Request.write_direction input)
    ∷ (answered, Request.write_value one)
    ∷ []

serve_all-Sound_example : Returns (serve_all scan_int scan_word requests loaded) Sound
serve_all-Sound_example =
    serve_all-Sound scan_int scan_word requests loaded scan_word-ScansWithin
      (omega arith, (omega arith, (omega arith, tt))) loaded-Sound
