-- ===== src/ButtonLed/Led.antt =====
-- The LED of 03-button-led: bit 30 of the output pins, against the driver's variable `state`.
use linux_programing_n_syste.Common.{ℕ, zero, suc, ◌+◌, ◌-◌, ◌%◌, ◌≤◌, ◌≡◌, ◌≢◌, ap, arith}
use linux_programing_n_syste.Common.Bits.{bit, bit-or, bit-le-one}
use linux_programing_n_syste.Gpio.{
  Bank, Documented, pin, dataout_offset, setdataout_offset, cleardataout_offset, or_register,
}
use linux_programing_n_syste.Gpio.Masks.{bit-two_pow_self, bit-two_pow_ne}
use linux_programing_n_syste.ButtonLed.{
  Module, led_pos, led_on, led_off, btn_pushed_irq_handler, pushes,
}
use Prim.Native.Nat.{max, bit_or}

module _ (b : Bank) (doc : Documented b) where
  pub or_set-pin :
      (k mask : ℕ) (r : b.Regs)
      → pin b k (or_register b setdataout_offset mask r) ≡ max (pin b k r) (bit k mask)
  or_set-pin k mask r = omega (
    arith,
    doc.store_set k (bit_or (b.load setdataout_offset r) mask) r,
    bit-or k (b.load setdataout_offset r) mask,
    ap (bit k) (doc.load_set r),
  )

  pub or_clear-pin :
      (k mask : ℕ) (r : b.Regs) → pin b k (or_register b cleardataout_offset mask r) ≡ 0
  or_clear-pin k mask r = omega (
    arith,
    doc.store_clear k (bit_or (b.load cleardataout_offset r) mask) r,
    bit-or k (b.load cleardataout_offset r) mask,
    ap (bit k) (doc.load_clear r),
  )

  abbrev pub led : Module b → ℕ
  led m = pin b 30 m.regs

  -- Switching the LED on sets its pin and leaves every other pin as it was.
  pub led_on-pin :
      (k : ℕ) (m : Module b)
      → (led (led_on b m) ≡ 1) × (k ≢ 30 → pin b k (led_on b m).regs ≡ pin b k m.regs)
  unfolding led_on
  led_on-pin k m = (
    omega (
      arith,
      or_set-pin 30 led_pos m.regs,
      bit-two_pow_self 30,
      bit-le-one 30 (b.load dataout_offset m.regs),
    ),
    λ other. omega (arith, or_set-pin k led_pos m.regs, bit-two_pow_ne k 30 other),
  )

  -- Switching the LED off clears every pin of the bank, not only that of the LED: the register reads
  -- as the pins that are set, and all of them are written back to it.
  pub led_off-pin : (k : ℕ) (m : Module b) → pin b k (led_off b m).regs ≡ 0
  unfolding led_off
  led_off-pin k m = or_clear-pin k led_pos m.regs

  -- The variable `state` says what the LED shows.
  pub record InSync (m : Module b) : Type 0 where
    pub flag : m.state ≤ 1
    pub shows : led m ≡ m.state

  -- An interrupt flips `state` and leaves the LED showing it, whatever the LED showed before.
  pub irq_handler-InSync :
      (m : Module b)
      → m.state ≤ 1
      → InSync (btn_pushed_irq_handler b m) × ((btn_pushed_irq_handler b m).state ≡ 1 - m.state)
  unfolding btn_pushed_irq_handler
  irq_handler-InSync m h = ground (arith, led_on-pin 30 m, led_off-pin 30 m)

  -- After any number of interrupts the LED shows whether that number is odd, if it was off before.
  pub pushes-led :
      (n : ℕ) (m : Module b)
      → m.state ≤ 1
      → led m ≡ m.state
      → led (pushes b n m) ≡ (m.state + n) % 2
  unfolding pushes
  pushes-led zero m h e = omega arith
  pushes-led (suc n) m h e =
      let (sync, flipped) = irq_handler-InSync m h in
      omega (arith, pushes-led n (btn_pushed_irq_handler b m) sync.flag sync.shows)
