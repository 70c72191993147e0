-- ===== src/GpioFiles/Laws.antt =====
-- What gpio.c writes, and what it leaves open.
use linux_programing_n_syste.Common.{
  ℕ, ◌+◌, ◌-◌, ◌<◌, ◌≡◌, refl, arith, Bool, true, false, ltb, if◌then◌else◌, List, [], ◌∷◌, ◌++◌,
  length, take, length-append, take-all, take-exact,
}
use linux_programing_n_syste.Common.Int.{ℤ, pos, negsuc, success, minus_one, is_minus_one}
use linux_programing_n_syste.Common.Decimal.{format_u32, length-format_u32}
use linux_programing_n_syste.Kernel.{done}
use linux_programing_n_syste.GpioFiles.{
  Files, Answers, Round, gpio_export, gpio_direction, gpio_write, gpio_read, app_round, pin_path,
  export_path, direction_file, value_file, direction_text, value_text, wrote, opened, closed,
  is_one, cut, direction_max, value_max, buffer_max,
}

open_close : (n : ℕ) → n + 1 - 1 ≡ n
open_close n = omega arith

path-whole :
    (file : List ℕ) (p size : ℕ)
    → p < 1000
    → length file + 23 < size
    → cut size (pin_path file (pos p)) ≡ pin_path file (pos p)
path-whole file p size small room = take-all (size - 1) (pin_path file (pos p)) (
    omega (arith, length-append {0} (format_u32 p) file, length-format_u32 3 p (omega arith) small))

number-whole :
    (p : ℕ)
    → p < 1000
    → take (length (format_u32 p)) (take 3 (format_u32 p) ++ (0 ∷ [])) ≡ format_u32 p
number-whole p small =
    rw (take-all 3 (format_u32 p) (length-format_u32 3 p (omega arith) small))
      (take-exact (length (format_u32 p)) (format_u32 p) (0 ∷ []) refl)

pub exported :
    (a : Answers) (p : ℕ) (s : Files)
    → p < 1000
    → is_minus_one a.fd ≡ false
    → gpio_export a (pos p) s ≡ done (success, wrote export_path (format_u32 p) s)
unfolding gpio_export
exported a p s small fd =
    let short : ltb buffer_max (length (format_u32 p)) ≡ false =
      ground (arith, length-format_u32 3 p (omega arith) small) in
    rw fd (rw short (rw (number-whole p small) (rw (open_close s.open_files) refl)))

-- For a pin of at most three digits, when all calls succeed: the number, the direction and the
-- value stand whole in the kernel's files of this pin, and no descriptor stays open.
pub operations_reach_pin :
    (e d w : Answers) (p : ℕ) (dir value : ℤ) (s : Files)
    → p < 1000
    → is_minus_one e.fd ≡ false
    → is_minus_one d.fd ≡ false
    → is_minus_one d.count ≡ false
    → is_minus_one w.fd ≡ false
    → is_one w.count ≡ true
    → (gpio_export e (pos p) s ≡ done (success, wrote export_path (format_u32 p) s))
      × (gpio_direction d (pos p) dir s
          ≡ (success, wrote (pin_path direction_file (pos p)) (direction_text dir) s))
      × (gpio_write w (pos p) value s
          ≡ (success, wrote (pin_path value_file (pos p)) (value_text value) s))
unfolding gpio_direction gpio_write
operations_reach_pin e d w p dir value s small e_fd d_fd d_count w_fd w_count = (
  exported e p s small e_fd,
  rw d_fd (
      rw d_count (
        rw (path-whole direction_file p direction_max small (omega arith))
          (rw (open_close s.open_files) refl))),
  rw w_fd (
      rw w_count (
        rw (path-whole value_file p value_max small (omega arith))
          (rw (open_close s.open_files) refl))),
)

minus_one-not-one : (z : ℤ) → is_minus_one z ≡ true → is_one z ≡ false
minus_one-not-one (pos n) h = ground arith
minus_one-not-one (negsuc n) h = refl

abbrev second : ℤ × Files → Files
second r = r.1

-- The two tests of a round, once all calls succeed.
toggled :
    (s : Files) (pushed lit : Bool)
    → (if pushed
        then second (
            if lit
            then (
              success,
              closed (
                  wrote
                    (pin_path value_file (pos 30))
                    (b'0' ∷ [])
                    (opened (closed (opened (closed (opened s)))))),
            )
            else (
              success,
              closed (
                  wrote
                    (pin_path value_file (pos 30))
                    (b'1' ∷ [])
                    (opened (closed (opened (closed (opened s)))))),
            ))
        else closed (opened s))
      ≡ (if pushed
          then wrote (pin_path value_file (pos 30)) (if lit then b'0' ∷ [] else b'1' ∷ []) s
          else s)
toggled s true true =
    rw (open_close s.open_files) (rw (open_close s.open_files) (rw (open_close s.open_files) refl))
toggled s true false =
    rw (open_close s.open_files) (rw (open_close s.open_files) (rw (open_close s.open_files) refl))
toggled s false lit = rw (open_close s.open_files) refl

-- Where the button reads as 1, the LED is switched to what it does not read as; where it does not,
-- nothing is written.
pub app_round-toggles :
    (strtoul : List ℕ → ℤ) (behind : List ℕ) (k : Round) (s : Files)
    → (is_minus_one k.button.fd ≡ false) × (is_one k.button.count ≡ true)
    → (is_minus_one k.led.fd ≡ false) × (is_one k.led.count ≡ true)
    → (is_minus_one k.switch.fd ≡ false) × (is_one k.switch.count ≡ true)
    → app_round strtoul behind k s ≡ (
        if is_one (strtoul (k.button.byte ∷ behind))
        then wrote
            (pin_path value_file (pos 30))
            (if is_one (strtoul (k.led.byte ∷ behind)) then b'0' ∷ [] else b'1' ∷ [])
            s
        else s)
unfolding app_round gpio_read gpio_write format_u32
app_round-toggles strtoul behind k s (b_fd, b_count) (l_fd, l_count) (w_fd, w_count) = rw b_fd (
    rw b_count (
      rw l_fd (
        rw l_count (
          rw w_fd (
            rw w_count (
              toggled s (is_one (strtoul (k.button.byte ∷ behind)))
                (is_one (strtoul (k.led.byte ∷ behind)))))))))

-- Where a file was opened and the write to it or the read from it fails, -1 is returned and the
-- descriptor stays open.
pub failed_calls_leak :
    (strtoul : List ℕ → ℤ) (behind : List ℕ) (a : Answers) (pin dir value : ℤ) (s : Files)
    → is_minus_one a.fd ≡ false
    → is_minus_one a.count ≡ true
    → (gpio_direction a pin dir s ≡ (minus_one, opened s))
      × (gpio_write a pin value s ≡ (minus_one, opened s))
      × (gpio_read strtoul behind a pin s ≡ (minus_one, opened s))
unfolding gpio_direction gpio_write gpio_read
failed_calls_leak strtoul behind a pin dir value s fd failed =
    rw fd (rw failed (rw (minus_one-not-one a.count failed) (refl, refl, refl)))
