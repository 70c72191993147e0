-- ===== src/Sysfs/Shows.antt =====
-- What the files of gpio-sysfs.c show after a write, and what the pin does.
use linux_programing_n_syste.Common.{
  ℕ, ◌+◌, ◌≤◌, ◌≡◌, ◌⊎◌, inl, inr, refl, zero, suc, ◌∙◌, arith, false, List, [], ◌∷◌, ◌++◌, length,
  drop, ◌==◌, if◌then◌else◌, Option, none, some,
}
use linux_programing_n_syste.Common.Int.{ℤ, pos}
use linux_programing_n_syste.Common.Decimal.{format_u32}
use linux_programing_n_syste.Common.CString.{c_string, NoNul, c_string-append}
use linux_programing_n_syste.Kernel.{Returns}
use linux_programing_n_syste.Sysfs.{
  State, Answers, Call, call, text_size, direction_store, scan_direct, value_store, set_level,
  value_show, direction_show,
}
use mathlib.Core.List.{append_assoc, append-nil}

-- The level that a pin was last set to.
unfoldable pub level : ℕ → List Call → Option ℕ
level pin [] = none
level pin (Call.gpio_set_value p v ∷ log) = if p == pin then some v else level pin log
level pin (Call.gpio_direction_output p v ∷ log) = if p == pin then some v else level pin log
level pin (_ ∷ log) = level pin log

level_now : (pin v : ℕ) (log : List Call) → level pin (Call.gpio_set_value pin v ∷ log) ≡ some v
unfolding level
level_now pin v log = ground arith

-- A text that converts to 0 or 1 sets the exported pin to that level, and the file then shows it.
pub value_store-value_show :
    (scan_int : List ℕ → Option ℤ) (buf : List ℕ) (count v : ℕ) (s : State)
    → v ≤ 1
    → scan_int buf ≡ some (pos v)
    → (level s.gpio_led (value_store scan_int buf count s).1.log ≡ some v)
      × (value_show (value_store scan_int buf count s).1 ≡ format_u32 v ++ (10 ∷ []))
unfolding value_store set_level
value_store-value_show scan_int buf count zero s small e = rw e (level_now s.gpio_led 0 s.log, refl)
value_store-value_show scan_int buf count (suc zero) s small e =
    rw e (level_now s.gpio_led 1 s.log, refl)
value_store-value_show scan_int buf count (suc (suc n)) s small e = absurd (omega arith)

-- A text that is no number sets the exported pin to 0, and the file goes on showing what it showed.
pub no_number_disagrees :
    (scan_int : List ℕ → Option ℤ) (buf : List ℕ) (count : ℕ) (s : State)
    → scan_int buf ≡ none
    → (level s.gpio_led (value_store scan_int buf count s).1.log ≡ some 0)
      × (value_show (value_store scan_int buf count s).1 ≡ value_show s)
unfolding value_store set_level
no_number_disagrees scan_int buf count s e = rw e (level_now s.gpio_led 0 s.log, refl)

scanned_shown : (word old : List ℕ) → NoNul word → c_string ((word ++ (0 ∷ [])) ++ old) ≡ word
scanned_shown word old h =
    rw (append_assoc word (0 ∷ []) old) (c_string-append word (0 ∷ old) h ∙ append-nil word)

scan_direct-shown :
    (word : List ℕ) (count : ℕ) (s : State)
    → NoNul word
    → length word + 1 ≤ text_size
    → Returns
        (scan_direct (some word) count s)
        (λ q. (q.0 ≡ pos count) × (direction_show q.1 ≡ word))
unfolding scan_direct
scan_direct-shown word count s clean short =
    ground (arith, scanned_shown word (drop (length (word ++ (0 ∷ []))) s.direct) clean)

-- A direction, as a text of three or four bytes that the kernel accepts, is shown as the word of it.
pub direction_store-direction_show :
    (scan_word : List ℕ → Option (List ℕ)) (a : Answers) (buf word : List ℕ) (s : State)
    → (length buf ≡ 3) ⊎ (length buf ≡ 4)
    → a.direction_failed ≡ false
    → scan_word buf ≡ some word
    → length word ≤ length buf
    → NoNul word
    → Returns
        (direction_store scan_word a buf (length buf) s)
        (λ q. (q.0 ≡ pos (length buf)) × (direction_show q.1 ≡ word))
unfolding direction_store
direction_store-direction_show scan_word a buf word s (inl three) accepted e short clean =
    rw three (rw accepted (rw e (scan_direct-shown word 3 (call _ s) clean (omega arith))))
direction_store-direction_show scan_word a buf word s (inr four) accepted e short clean =
    rw four (rw accepted (rw e (scan_direct-shown word 4 (call _ s) clean (omega arith))))
