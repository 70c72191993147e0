-- ===== src/ButtonLed.antt =====
-- Linux-Programing-Porting/03-button-led/button-led.c and button-led.h: a button interrupt and a
-- character device that switch one LED through the GPIO registers. The driver's state, the two ways
-- to switch the LED, the interrupt handler and `iomodule_open` and `iomodule_close`; `iomodule_read`
-- and `iomodule_write`, and the module's start and end, stand in the modules below.
pub mod Led
pub mod Rw
pub mod RwLaws
pub mod Init
pub mod InitLaws
pub mod Session
pub mod Lamp
pub mod Shown
pub mod Interrupted
mod Examples
use linux_programing_n_syste.Common.{
  ℕ, zero, suc, ◌+◌, ◌-◌, ◌%◌, ◌^◌, Bool, true, false, if◌then◌else◌, is_null,
}
use linux_programing_n_syste.Kernel.{Log, DevicePtr}
use linux_programing_n_syste.Gpio.{Bank, setdataout_offset, cleardataout_offset, or_register}

abbrev pub led_pos : ℕ
led_pos = 2 ^ 30

abbrev pub btn_pin : ℕ
btn_pin = 31

abbrev pub u32 : ℕ → ℕ
u32 n = n % 2 ^ 32

-- `struct _iomodule_drv`; pointers are addresses and `count` is the bit pattern of an `int`.
pub record IomoduleDrv : Type 0 where
  pub dev_num : ℕ
  pub dev_class : ℕ
  pub dev_create : DevicePtr
  pub base_addr : ℕ
  pub cdev_addr : ℕ
  pub count : ℕ

module _ (b : Bank) where
  -- The driver's globals, with the registers behind `base_addr` and the kernel calls made so far.
  -- `state` is the bit pattern of an `int32_t`.
  pub record Module : Type 0 where
    pub drv : IomoduleDrv
    pub state : ℕ
    pub irq : ℕ
    pub regs : b.Regs
    pub log : Log

  unfoldable pub led_on : Module → Module
  led_on m = record m { regs = or_register b setdataout_offset led_pos m.regs }

  unfoldable pub led_off : Module → Module
  led_off m = record m { regs = or_register b cleardataout_offset led_pos m.regs }

  unfoldable pub btn_pushed_irq_handler : Module → Module
  unfolding led_on led_off
  btn_pushed_irq_handler m =
      if is_null m.state then record (led_on m) { state = 1 } else record (led_off m) { state = 0 }

  -- A number of interrupts, one after the other.
  unfoldable pub pushes : ℕ → Module → Module
  pushes zero m = m
  pushes (suc n) m = pushes n (btn_pushed_irq_handler m)

  unfoldable pub iomodule_open : Module → Module
  iomodule_open m = record m { drv = record m.drv { count = u32 (m.drv.count + 1) } }

  unfoldable pub iomodule_close : Module → Module
  iomodule_close m = record m { drv = record m.drv { count = u32 (m.drv.count + 2 ^ 32 - 1) } }
