-- ===== src/GpioFiles.antt =====
-- Linux-Programing-Porting/04-button-led-integer/gpio.c and gpio.h, which drive pins through the files
-- of the kernel in /sys/class/gpio, and app-button-led.c, which switches an LED by a button. What the
-- kernel answers is an argument, and so is `strtoul`, with the bytes that stand behind its text.
pub mod Laws
pub mod Session
mod Examples
use linux_programing_n_syste.Common.{
  ℕ, ◌+◌, ◌-◌, Bool, true, false, not, ◌==◌, ltb, if◌then◌else◌, List, [], ◌∷◌, ◌++◌, length, take,
}
use linux_programing_n_syste.Common.Int.{ℤ, pos, negsuc, success, minus_one, is_minus_one}
use linux_programing_n_syste.Kernel.{Outcome, done, buffer_overrun, and_then}
use linux_programing_n_syste.Sysfs.{show_int}

abbrev pub buffer_max : ℕ
buffer_max = 4

abbrev pub direction_max : ℕ
direction_max = 35

abbrev pub value_max : ℕ
value_max = 30

-- The open descriptors, and what was written to which path, the newest first.
pub record Files : Type 0 where
  pub open_files : ℕ
  pub written : List (List ℕ × List ℕ)

-- What `open` answers, what `write` or `read` answers, and the byte that is read.
pub record Answers : Type 0 where
  pub fd : ℤ
  pub count : ℤ
  pub byte : ℕ

abbrev pub is_one : ℤ → Bool
is_one (pos n) = n == 1
is_one (negsuc _) = false

abbrev pub opened : Files → Files
opened s = record s { open_files = s.open_files + 1 }

abbrev pub closed : Files → Files
closed s = record s { open_files = s.open_files - 1 }

abbrev pub wrote : List ℕ → List ℕ → Files → Files
wrote path text s = record s { written = (path, text) ∷ s.written }

-- "/sys/class/gpio/".
abbrev pub gpio_class : List ℕ
gpio_class =
    b'/' ∷ b's' ∷ b'y' ∷ b's' ∷ b'/' ∷ b'c' ∷ b'l' ∷ b'a' ∷ b's' ∷ b's' ∷ b'/' ∷ b'g' ∷ b'p' ∷ b'i'
    ∷ b'o' ∷ b'/' ∷ []

abbrev pub export_path : List ℕ
export_path = gpio_class ++ (b'e' ∷ b'x' ∷ b'p' ∷ b'o' ∷ b'r' ∷ b't' ∷ [])

abbrev pub direction_file : List ℕ
direction_file = b'/' ∷ b'd' ∷ b'i' ∷ b'r' ∷ b'e' ∷ b'c' ∷ b't' ∷ b'i' ∷ b'o' ∷ b'n' ∷ []

abbrev pub value_file : List ℕ
value_file = b'/' ∷ b'v' ∷ b'a' ∷ b'l' ∷ b'u' ∷ b'e' ∷ []

-- The text that `snprintf` makes of a pin and the name of one of its files, before it is cut.
abbrev pub pin_path : List ℕ → ℤ → List ℕ
pin_path file pin = gpio_class ++ ((b'g' ∷ b'p' ∷ b'i' ∷ b'o' ∷ []) ++ (show_int pin ++ file))

-- What fits into a buffer of a size, with its NUL.
abbrev pub cut : ℕ → List ℕ → List ℕ
cut size text = take (size - 1) text

-- `snprintf` returns the length of the whole text, and so many bytes of the buffer are written.
unfoldable pub gpio_export : Answers → ℤ → Files → Outcome (ℤ × Files)
gpio_export a pin s =
    let text = show_int pin in
    if is_minus_one a.fd
    then done (minus_one, s)
    else if ltb buffer_max (length text)
    then buffer_overrun
    else done (
      success,
      closed (wrote export_path (take (length text) (cut buffer_max text ++ (0 ∷ []))) (opened s)),
    )

-- `in` or `out`, by the parameter; IN is 0.
abbrev pub direction_text : ℤ → List ℕ
direction_text (pos n) = if n == 0 then b'i' ∷ b'n' ∷ [] else b'o' ∷ b'u' ∷ b't' ∷ []
direction_text (negsuc _) = b'o' ∷ b'u' ∷ b't' ∷ []

unfoldable pub gpio_direction : Answers → ℤ → ℤ → Files → ℤ × Files
gpio_direction a pin dir s =
    if is_minus_one a.fd
    then (minus_one, s)
    else if is_minus_one a.count
    then (minus_one, opened s)
    else (
      success,
      closed
          (wrote (cut direction_max (pin_path direction_file pin)) (direction_text dir) (opened s)),
    )

-- `0` or `1`, by the parameter; LOW is 0.
abbrev pub value_text : ℤ → List ℕ
value_text (pos n) = if n == 0 then b'0' ∷ [] else b'1' ∷ []
value_text (negsuc _) = b'1' ∷ []

unfoldable pub gpio_write : Answers → ℤ → ℤ → Files → ℤ × Files
gpio_write a pin value s =
    if is_minus_one a.fd
    then (minus_one, s)
    else if not (is_one a.count)
    then (minus_one, opened s)
    else (
      success,
      closed (wrote (cut value_max (pin_path value_file pin)) (value_text value) (opened s)),
    )

-- The array of one byte has no NUL: `strtoul` goes on with the bytes behind it.
unfoldable pub gpio_read : (List ℕ → ℤ) → List ℕ → Answers → ℤ → Files → ℤ × Files
gpio_read strtoul behind a pin s =
    if is_minus_one a.fd
    then (minus_one, s)
    else if not (is_one a.count)
    then (minus_one, opened s)
    else (strtoul (a.byte ∷ behind), closed (opened s))

-- The answers of one round of the application, for the button, the LED and the write.
pub record Round : Type 0 where
  pub button : Answers
  pub led : Answers
  pub switch : Answers

-- One round of the loop of `main`.
unfoldable pub app_round : (List ℕ → ℤ) → List ℕ → Round → Files → Files
unfolding gpio_read gpio_write
app_round strtoul behind k s =
    let (button, s1) = gpio_read strtoul behind k.button (pos 31) s in
    let (led, s2) = gpio_read strtoul behind k.led (pos 30) s1 in
    if is_one button
    then (if is_one led
        then gpio_write k.switch (pos 30) (pos 0) s2
        else gpio_write k.switch (pos 30) (pos 1) s2).1
    else s1

-- The answers to the calls of `main` before its loop.
pub record Start : Type 0 where
  pub export_button : Answers
  pub direct_button : Answers
  pub export_led : Answers
  pub direct_led : Answers
  pub write_led : Answers

unfoldable pub app_start : Start → Files → Outcome Files
unfolding gpio_export gpio_direction gpio_write
app_start k s = and_then (gpio_export k.export_button (pos 31) s) λ r.
    let (_, s1) = gpio_direction k.direct_button (pos 31) (pos 0) r.1 in
    and_then (gpio_export k.export_led (pos 30) s1) λ r1.
      let (_, s2) = gpio_direction k.direct_led (pos 30) (pos 1) r1.1 in
      done (gpio_write k.write_led (pos 30) (pos 0) s2).1

-- Rounds of the loop of `main`, and `main` itself with as many rounds.
unfoldable pub app_loop : (List ℕ → ℤ) → List ℕ → List Round → Files → Files
unfolding app_round
app_loop strtoul behind [] s = s
app_loop strtoul behind (k ∷ rest) s = app_loop strtoul behind rest (app_round strtoul behind k s)

unfoldable pub app_main : (List ℕ → ℤ) → List ℕ → Start → List Round → Files → Outcome Files
unfolding app_start app_loop
app_main strtoul behind k rounds s =
    and_then (app_start k s) λ t. done (app_loop strtoul behind rounds t)
