-- ===== src/LegacyLed.antt =====
-- Linux-Programing-Porting/01-blinkled-legacy/led-module.c and led-module.h: a module that switches
-- pin 31 of a GPIO bank (Gpio) on when it is loaded and off when it is unloaded.
pub mod Laws
mod Examples
use linux_programing_n_syste.Common.{ℕ, ◌^◌, if◌then◌else◌, is_null, List, [], ◌∷◌}
use linux_programing_n_syste.Common.Int.{ℤ, success, neg_enomem}
use linux_programing_n_syste.Kernel.{Event, Log}
use linux_programing_n_syste.Gpio.{
  Bank, oe_offset, setdataout_offset, cleardataout_offset, or_register, and_register,
}
use linux_programing_n_syste.Gpio.Masks.{all_but}

abbrev pub gpio_0_addr_base : ℕ
gpio_0_addr_base = 0x44E07000

-- One byte less than the bank has.
abbrev pub gpio_0_addr_size : ℕ
gpio_0_addr_size = 0xFFF

abbrev pub gpio_0_31 : ℕ
gpio_0_31 = 2 ^ 31

module _ (b : Bank) where
  -- The pointer `base_addr`, the registers behind it, and the kernel calls made so far.
  pub record Module : Type 0 where
    pub base_addr : ℕ
    pub regs : b.Regs
    pub log : Log

  -- What `ioremap` answers is the argument; 0 is NULL.
  unfoldable pub led_init : ℕ → Module → ℤ × Module
  led_init addr m =
      let m1 = record m {
        base_addr = addr;
        log = Event.ioremap gpio_0_addr_base gpio_0_addr_size addr ∷ m.log;
      } in
      let regs1 = and_register b oe_offset (all_but 31) m.regs in
      if is_null addr
      then (neg_enomem, m1)
      else (success, record m1 { regs = or_register b setdataout_offset gpio_0_31 regs1 })

  unfoldable pub led_exit : Module → Module
  led_exit m = record m {
    regs = or_register b cleardataout_offset gpio_0_31 m.regs;
    log = Event.iounmap m.base_addr ∷ m.log;
  }
