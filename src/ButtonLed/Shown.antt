-- ===== src/ButtonLed/Shown.antt =====
-- What the application of 03-button-led prints of the registers.
use linux_programing_n_syste.Common.{
  ℕ, ◌+◌, ◌≤◌, ◌<◌, ◌≡◌, refl, sym, ap, ◌∙◌, ◌⊎◌, inl, inr, arith, true, false, is_null, List, [],
  ◌∷◌, ◌++◌, length, take, drop, replicate, overlay, length-append, length-overlay, take-all, ltb,
}
use linux_programing_n_syste.Common.Int.{ℤ, is_negative}
use linux_programing_n_syste.Common.CString.{
  NoNul, NoNul-append, c_string, has_nul, c_string-append, has_nul-append,
}
use linux_programing_n_syste.Common.Hex.{format_hex, NoNul-format_hex}
use linux_programing_n_syste.Kernel.{buffer_overrun, Returns}
use linux_programing_n_syste.Gpio.{Bank, oe_offset, datain_offset, debounceenable_offset}
use linux_programing_n_syste.ButtonLed.{iomodule_open}
use linux_programing_n_syste.ButtonLed.Rw.{Answers, printed, iomodule_read}
use linux_programing_n_syste.ButtonLed.RwLaws.{hex_length, length-printed}
use linux_programing_n_syste.ButtonLed.Session.{
  App, end_of_file, received, read_data_chardev, buff_size, report,
}
use linux_programing_n_syste.ButtonLed.Lamp.{Continues}
use native.Mathlib.Decide.{dec_lt}
use mathlib.Core.List.{append_assoc, append-nil}

abbrev zeros : List ℕ
zeros = replicate buff_size 0

-- The user's buffer of zeros after a copy of a kernel buffer of zeros that a text was written to.
abbrev copied : List ℕ → List ℕ
copied text = overlay (take 30 (overlay text zeros)) zeros

copied_lem : (text : List ℕ) → length text ≤ 30 → copied text ≡ overlay text zeros
copied_lem text short =
    let whole = overlay text zeros in
    let size : length whole ≡ 30 = length-overlay text zeros short in
    rw (take-all 30 whole (omega (arith, size)))
      (ap (λ n. whole ++ drop n zeros) size ∙ append-nil whole)

c_string-copied :
    (text : List ℕ) → NoNul text → length text ≤ 29 → c_string (copied (text ++ (0 ∷ []))) ≡ text
c_string-copied text clean short =
    ap c_string (
      copied_lem (text ++ (0 ∷ [])) (omega (arith, length-append {0} text (0 ∷ [])))
      ∙ append_assoc text (0 ∷ []) (drop (length (text ++ (0 ∷ []))) zeros))
    ∙ c_string-append text _ clean
    ∙ append-nil text

has_nul-copied : (text : List ℕ) → length text ≤ 29 → has_nul (copied (text ++ (0 ∷ []))) ≡ true
has_nul-copied text short =
    ap has_nul (
      copied_lem (text ++ (0 ∷ [])) (omega (arith, length-append {0} text (0 ∷ [])))
      ∙ append_assoc text (0 ∷ []) (drop (length (text ++ (0 ∷ []))) zeros))
    ∙ has_nul-append text _ refl

module _ (b : Bank) where
  abbrev pub plus : List ℕ
  plus = b' ' ∷ b'+' ∷ b' ' ∷ []

  -- The registers in hexadecimal digits, with pluses between them and a space behind.
  abbrev pub registers_text : b.Regs → List ℕ
  registers_text r =
      format_hex (b.load oe_offset r)
      ++ (plus
          ++ (format_hex (b.load debounceenable_offset r)
              ++ (plus ++ (format_hex (b.load datain_offset r) ++ (b' ' ∷ [])))))

  printed_lem : (r : b.Regs) → printed b r ≡ registers_text r ++ (0 ∷ [])
  unfolding printed
  printed_lem r = sym (simp append_assoc)

  registers_text-NoNul : (r : b.Regs) → NoNul (registers_text r)
  registers_text-NoNul r =
      NoNul-append (format_hex (b.load oe_offset r)) _ (NoNul-format_hex (b.load oe_offset r)) (
        omega arith,
        (
          omega arith,
          (
            omega arith,
            NoNul-append (format_hex (b.load debounceenable_offset r)) _
                (NoNul-format_hex (b.load debounceenable_offset r))
                (
                  omega arith,
                  (
                    omega arith,
                    (
                      omega arith,
                      NoNul-append (format_hex (b.load datain_offset r)) _
                          (NoNul-format_hex (b.load datain_offset r)) (omega arith, tt),
                    ),
                  ),
                ),
          ),
        ),
      )

  length-registers_text : (r : b.Regs) → length (registers_text r) ≡ hex_length b r + 7
  length-registers_text r = omega (
    arith,
    length-printed b r,
    ap length (printed_lem r),
    length-append {0} (registers_text r) (0 ∷ []),
  )

  fits_lem : (r : b.Regs) → hex_length b r ≤ 22 → ltb 30 (length (printed b r)) ≡ false
  fits_lem r h = ground (arith, length-printed b r)

  too_long : (r : b.Regs) → 22 < hex_length b r → ltb 30 (length (printed b r)) ≡ true
  too_long r h = ground (arith, length-printed b r)

  copied-printed :
      (r : b.Regs)
      → hex_length b r ≤ 22
      → (has_nul (copied (printed b r)) ≡ true)
        × (c_string (copied (printed b r)) ≡ registers_text r)
  copied-printed r h =
      let short : length (registers_text r) ≤ 29 = omega (arith, length-registers_text r) in
      rw (printed_lem r) (
        has_nul-copied (registers_text r) short,
        c_string-copied (registers_text r) (registers_text-NoNul r) short,
      )

  -- The buffer of 30 bytes is room for 22 hexadecimal digits: where the three registers have no more,
  -- the application prints them, and `End of file` before them; where they have more, the driver writes
  -- past the end of its buffer.
  pub read_shows_registers :
      (fd : ℤ) (k : Answers) (a : App b)
      → is_negative fd ≡ false
      → is_null k.kernel_buff ≡ false
      → is_null k.uncopied ≡ true
      → ((hex_length b a.driver.regs ≤ 22)
          × Returns (read_data_chardev b fd k a) (λ t.
            Continues b t
              (λ c. c.printed ≡ received (registers_text a.driver.regs) ∷ end_of_file ∷ a.printed)))
        ⊎ ((22 < hex_length b a.driver.regs) × (read_data_chardev b fd k a ≡ buffer_overrun))
  unfolding read_data_chardev iomodule_read iomodule_open report
  read_shows_registers fd k a opened buff whole = elim (dec_lt 22 (hex_length b a.driver.regs)) [
    | yes large ↦ inr (large, ground (arith, too_long a.driver.regs large))
    | no small ↦ inl (
      omega (arith, small),
      ground (
        arith,
        fits_lem a.driver.regs (omega (arith, small)),
        copied-printed a.driver.regs (omega (arith, small)),
      ),
    )
  ]
