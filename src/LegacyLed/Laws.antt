-- ===== src/LegacyLed/Laws.antt =====
-- What the load and the unload of led-module.c do to the pins of the bank.
use linux_programing_n_syste.Common.{
  ℕ, ◌<◌, ◌≡◌, ap, refl, arith, false, ◌==◌, if◌then◌else◌, is_null, [],
}
use linux_programing_n_syste.Common.Int.{success}
use linux_programing_n_syste.Common.Bits.{bit, bit-and, bit-le-one}
use linux_programing_n_syste.Kernel.Ledger.{held, nothing, elem_head, remove_head}
use linux_programing_n_syste.Gpio.{
  Bank, Documented, pin, oe_offset, dataout_offset, setdataout_offset, and_register, or_register,
}
use linux_programing_n_syste.Gpio.Masks.{all_but, bit-all_but_31, bit-two_pow_self, bit-two_pow_ne}
use linux_programing_n_syste.ButtonLed.Led.{or_set-pin, or_clear-pin}
use linux_programing_n_syste.LegacyLed.{Module, led_init, led_exit, gpio_0_31}
use native.Mathlib.Decide.{ℕ_discrete}
use Prim.Native.Nat.{bit_and, bit_or}

bit-gpio_0_31 : (k : ℕ) → bit k gpio_0_31 ≡ (if k == 31 then 1 else 0)
bit-gpio_0_31 k = elim (ℕ_discrete k 31) [
  | yes e ↦ rw e (bit-two_pow_self 31)
  | no other ↦ ground (arith, bit-two_pow_ne k 31 other)
]

module _ (b : Bank) (doc : Documented b) where
  abbrev after_oe : b.Regs → b.Regs
  after_oe r = and_register b oe_offset (all_but 31) r

  direction :
      (k : ℕ) (r : b.Regs)
      → k < 32
      → bit k (b.load oe_offset (or_register b setdataout_offset gpio_0_31 (after_oe r)))
        ≡ (if k == 31 then 0 else bit k (b.load oe_offset r))
  direction k r h = ground (
    arith,
    ap (bit k)
        (doc.oe_of_set (bit_or (b.load setdataout_offset (after_oe r)) gpio_0_31) (after_oe r)),
    doc.store_oe k (bit_and (b.load oe_offset r) (all_but 31)) r h,
    bit-and k (b.load oe_offset r) (all_but 31),
    bit-all_but_31 k h,
    bit-le-one k (b.load oe_offset r),
  )

  level :
      (k : ℕ) (r : b.Regs)
      → pin b k (or_register b setdataout_offset gpio_0_31 (after_oe r))
        ≡ (if k == 31 then 1 else pin b k r)
  level k r = ground (
    arith,
    or_set-pin b doc k gpio_0_31 (after_oe r),
    ap (bit k) (doc.pins_of_oe (bit_and (b.load oe_offset r) (all_but 31)) r),
    bit-gpio_0_31 k,
    bit-le-one k (b.load dataout_offset r),
  )

  -- Where `ioremap` gives a mapping, the load makes pin 31 an output and switches it on, and leaves
  -- direction and level of every other pin; the unload then switches every pin of the bank off, not
  -- only pin 31, and gives the mapping back.
  pub load_unload-pins :
      (addr k : ℕ) (m : Module b)
      → is_null addr ≡ false
      → k < 32
      → held m.log ≡ nothing
      → let t = (led_init b addr m).1 in
        ((led_init b addr m).0 ≡ success)
        × (bit k (b.load oe_offset t.regs)
            ≡ (if k == 31 then 0 else bit k (b.load oe_offset m.regs)))
        × (pin b k t.regs ≡ (if k == 31 then 1 else pin b k m.regs))
        × (pin b k (led_exit b t).regs ≡ 0)
        × (held (led_exit b t).log ≡ nothing)
  unfolding led_init led_exit held
  load_unload-pins addr k m there h clean = rw there (
      rw there (
        rw clean (
          refl,
          direction k m.regs h,
          level k m.regs,
          or_clear-pin b doc k gpio_0_31 _,
          rw (elem_head addr []) (rw (remove_head addr []) refl),
        )))
