-- ===== src/ButtonLed/RwLaws.antt =====
-- What reading and writing the device file of 03-button-led does: the room that a read needs, and
-- how a write and an interrupt get on together.
use linux_programing_n_syste.Common.{
  refl, true, false, ℕ, ◌+◌, ◌≤◌, ◌<◌, ◌≡◌, ◌⊎◌, arith, Bool, true, false, is_null, List, [], ◌∷◌,
  ◌++◌, length, length-append,
}
use linux_programing_n_syste.Common.Int.{success, neg_efault}
use linux_programing_n_syste.Common.Hex.{format_hex}
use linux_programing_n_syste.Common.CString.{NoNul, c_string-text, has_nul-text}
use linux_programing_n_syste.Kernel.{Event, buffer_overrun, Returns, Returns-map}
use linux_programing_n_syste.Gpio.{
  Bank, Documented, oe_offset, datain_offset, debounceenable_offset,
}
use linux_programing_n_syste.ButtonLed.{Module, btn_pushed_irq_handler}
use linux_programing_n_syste.ButtonLed.Led.{led, led_on-pin, led_off-pin, irq_handler-InSync}
use linux_programing_n_syste.ButtonLed.Rw.{
  switch_led, write_log, Answers, Parsed, converted, printed, iomodule_read, iomodule_write,
}

module _ (b : Bank) where
  -- How many hexadecimal digits the three registers take.
  abbrev pub hex_length : b.Regs → ℕ
  hex_length r =
      length (format_hex (b.load oe_offset r))
      + length (format_hex (b.load debounceenable_offset r))
      + length (format_hex (b.load datain_offset r))

  pub length-printed : (r : b.Regs) → length (printed b r) ≡ hex_length r + 8
  unfolding printed
  length-printed r =
      let oe = format_hex (b.load oe_offset r) in
      let deb = format_hex (b.load debounceenable_offset r) in
      let pins = format_hex (b.load datain_offset r) in
      omega (
        arith,
        length-append {0} oe
            (b' ' ∷ b'+' ∷ b' ' ∷ (deb ++ (b' ' ∷ b'+' ∷ b' ' ∷ (pins ++ (b' ' ∷ 0 ∷ []))))),
        length-append {0} deb (b' ' ∷ b'+' ∷ b' ' ∷ (pins ++ (b' ' ∷ 0 ∷ []))),
        length-append {0} pins (b' ' ∷ 0 ∷ []),
      )

  -- A read that gets a kernel buffer of some bytes returns if that holds the digits of the three
  -- registers and eight more bytes, and otherwise writes past its end.
  pub iomodule_read-room :
      (a : Answers) (count : ℕ) (user : List ℕ) (m : Module b)
      → is_null a.kernel_buff ≡ false
      → is_null count ≡ false
      → ((hex_length m.regs + 8 ≤ count)
          × Returns
              (iomodule_read b a count user m)
              (λ r. (r.ret ≡ success) ⊎ (r.ret ≡ neg_efault)))
        ⊎ ((count < hex_length m.regs + 8) × (iomodule_read b a count user m ≡ buffer_overrun))
  unfolding iomodule_read
  iomodule_read-room a count user m buff some_bytes = ground (arith, length-printed m.regs)

abbrev pub level : Bool → ℕ
level true = 1
level false = 0

module _ (b : Bank) (doc : Documented b) where
  switch_led-converted :
      (on : Bool) (a : Answers) (user : List ℕ) (m : Module b)
      → let r = switch_led b (converted on) a user m in
        (r.ret ≡ success) × (led b doc r.state ≡ level on) × (r.state.state ≡ m.state)
  unfolding switch_led
  switch_led-converted true a user m = (refl, (led_on-pin b doc 30 m).0, refl)
  switch_led-converted false a user m = (refl, led_off-pin b doc 30 m, refl)

  -- A text that converts to a number switches the LED on, if the number is not 0, or else off; the
  -- variable `state`, which the interrupts go by, keeps its value.
  pub iomodule_write-led :
      (kstrtoint : List ℕ → Parsed) (a : Answers) (text rest : List ℕ) (on : Bool) (m : Module b)
      → is_null a.kernel_buff ≡ false
      → is_null a.uncopied ≡ true
      → NoNul text
      → kstrtoint text ≡ converted on
      → Returns
          (iomodule_write b kstrtoint a (length text + 1) (text ++ (0 ∷ rest)) m)
          (λ r. (r.ret ≡ success) × (led b doc r.state ≡ level on) × (r.state.state ≡ m.state))
  unfolding iomodule_write
  iomodule_write-led kstrtoint a text rest on m buff copied clean parsed = ground (
    arith,
    has_nul-text text rest,
    c_string-text text rest clean,
    switch_led-converted on a (text ++ (0 ∷ rest))
        (write_log b (Event.kzalloc (length text + 1) a.kernel_buff) m),
  )

  push_shows :
      (m : Module b) (state shown : ℕ)
      → state + shown ≡ 1
      → led b doc m ≡ shown
      → m.state ≡ state
      → led b doc (btn_pushed_irq_handler b m) ≡ led b doc m
  push_shows m state shown other h e =
      let (sync, flipped) = irq_handler-InSync b doc m (omega arith) in omega (arith, sync.shows)

  -- Where the written level is not the one that `state` holds, the next push of the button does not
  -- switch the LED: it shows after the push what the write made it show.
  pub push_after_write :
      (kstrtoint : List ℕ → Parsed) (a : Answers) (text rest : List ℕ) (on : Bool) (m : Module b)
      → is_null a.kernel_buff ≡ false
      → is_null a.uncopied ≡ true
      → NoNul text
      → kstrtoint text ≡ converted on
      → m.state + level on ≡ 1
      → Returns
          (iomodule_write b kstrtoint a (length text + 1) (text ++ (0 ∷ rest)) m)
          (λ r. led b doc (btn_pushed_irq_handler b r.state) ≡ led b doc r.state)
  push_after_write kstrtoint a text rest on m buff copied clean parsed other =
      Returns-map (iomodule_write b kstrtoint a (length text + 1) (text ++ (0 ∷ rest)) m)
        (iomodule_write-led kstrtoint a text rest on m buff copied clean parsed)
        (λ r h. push_shows r.state m.state (level on) other h.1 h.2)
