-- ===== src/ButtonLed/Interrupted.antt =====
-- The button is pushed while `iomodule_write` of 03-button-led/button-led.c switches the LED: the
-- interrupt comes between the load and the store of `*(base_addr + offset / 4) |= LED_POS`.
use linux_programing_n_syste.Common.{
  ℕ, ◌-◌, ◌≤◌, ◌≡◌, ◌≢◌, ap, ◌∙◌, arith, Bool, true, false, if◌then◌else◌, ◌==◌,
}
use linux_programing_n_syste.Common.Bits.{bit, bit-or, bit-le-one}
use linux_programing_n_syste.Gpio.{
  Bank, Documented, pin, dataout_offset, setdataout_offset, cleardataout_offset,
}
use linux_programing_n_syste.Gpio.Masks.{bit-two_pow_self, bit-two_pow_ne}
use linux_programing_n_syste.ButtonLed.{Module, led_pos, led_on, led_off, btn_pushed_irq_handler}
use linux_programing_n_syste.ButtonLed.Led.{led, irq_handler-InSync, led_on-pin, led_off-pin}
use linux_programing_n_syste.ButtonLed.RwLaws.{level}
use Prim.Native.Nat.{max, bit_or}

module _ (b : Bank) where
  abbrev pub switch_offset : Bool → ℕ
  switch_offset on = if on then setdataout_offset else cleardataout_offset

  -- The store of what was loaded before.
  abbrev pub store_held : Bool → ℕ → Module b → Module b
  store_held on held m = record m { regs = b.store (switch_offset on) (bit_or held led_pos) m.regs }

  unfoldable pub interrupted_switch : Bool → Module b → Module b
  unfolding btn_pushed_irq_handler
  interrupted_switch on m =
      store_held on (b.load (switch_offset on) m.regs) (btn_pushed_irq_handler b m)

  abbrev pub switch : Bool → Module b → Module b
  switch on m = if on then led_on b m else led_off b m

module _ (b : Bank) (doc : Documented b) where
  -- An interrupt leaves every other pin, or clears it.
  handler-pin :
      (k : ℕ) (m : Module b) → k ≢ 30 → pin b k (btn_pushed_irq_handler b m).regs ≤ pin b k m.regs
  unfolding btn_pushed_irq_handler
  handler-pin k m other = ground (arith, (led_on-pin b doc k m).1 other, led_off-pin b doc k m)

  set_held :
      (k : ℕ) (r s : b.Regs)
      → pin b k (b.store setdataout_offset (bit_or (b.load setdataout_offset r) led_pos) s)
        ≡ max (pin b k s) (max (pin b k r) (bit k led_pos))
  set_held k r s = omega (
    arith,
    doc.store_set k (bit_or (b.load setdataout_offset r) led_pos) s,
    bit-or k (b.load setdataout_offset r) led_pos,
    ap (bit k) (doc.load_set r),
  )

  clear_held :
      (k : ℕ) (r s : b.Regs)
      → pin b k (b.store cleardataout_offset (bit_or (b.load cleardataout_offset r) led_pos) s)
        ≡ pin b k s - max (pin b k r) (bit k led_pos)
  clear_held k r s = omega (
    arith,
    doc.store_clear k (bit_or (b.load cleardataout_offset r) led_pos) s,
    bit-or k (b.load cleardataout_offset r) led_pos,
    ap (bit k) (doc.load_clear r),
  )

  -- The pins behind a push: those that were set, or none where it switched the LED off.
  handler-pins :
      (k : ℕ) (m : Module b)
      → k ≢ 30
      → pin b k (btn_pushed_irq_handler b m).regs ≡ (if m.state == 0 then pin b k m.regs else 0)
  unfolding btn_pushed_irq_handler
  handler-pins k m other = ground (arith, (led_on-pin b doc k m).1 other, led_off-pin b doc k m)

  -- Where `state` is 0 or 1 and the button is pushed in the middle of a write, the LED and the
  -- variable `state` are afterwards as if it had been pushed before the write: the LED as written,
  -- and `state` the other way. A write of 0 clears the other pins in both orders. A write of 1 in
  -- whose middle the button is pushed leaves them as they were; with the push before, they are
  -- cleared where `state` was 1, and left as they were where it was 0.
  pub interrupted_switch-pins :
      (on : Bool) (k : ℕ) (m : Module b)
      → m.state ≤ 1
      → k ≢ 30
      → let t = interrupted_switch b on m in
        let serial = switch b on (btn_pushed_irq_handler b m) in
        (led b doc t ≡ level on)
        × (led b doc serial ≡ level on)
        × (t.state ≡ 1 - m.state)
        × (serial.state ≡ 1 - m.state)
        × (pin b k t.regs ≡ (if on then pin b k m.regs else 0))
        × (pin b k serial.regs ≡ (if on then if m.state == 0 then pin b k m.regs else 0 else 0))
  unfolding interrupted_switch led_on led_off
  interrupted_switch-pins true k m h other =
      let after = btn_pushed_irq_handler b m in
      let (sync, flipped) = irq_handler-InSync b doc m h in
      (
        omega (
          arith,
          set_held 30 m.regs after.regs,
          bit-two_pow_self 30,
          bit-le-one 30 (b.load dataout_offset m.regs),
          bit-le-one 30 (b.load dataout_offset after.regs),
        ),
        (led_on-pin b doc k after).0,
        flipped,
        flipped,
        omega
            (arith, set_held k m.regs after.regs, bit-two_pow_ne k 30 other, handler-pin k m other),
        (led_on-pin b doc k after).1 other ∙ handler-pins k m other,
      )
  interrupted_switch-pins false k m h other =
      let after = btn_pushed_irq_handler b m in
      let (sync, flipped) = irq_handler-InSync b doc m h in
      (
        omega (
          arith,
          clear_held 30 m.regs after.regs,
          bit-two_pow_self 30,
          bit-le-one 30 (b.load dataout_offset after.regs),
        ),
        led_off-pin b doc 30 after,
        flipped,
        flipped,
        omega (
          arith,
          clear_held k m.regs after.regs,
          bit-two_pow_ne k 30 other,
          handler-pin k m other,
        ),
        led_off-pin b doc k after,
      )
