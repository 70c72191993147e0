-- ===== src/ButtonLed/Init.antt =====
-- `read_write_IOmodule_init` and `read_write_IOmodule_cleanup` of 03-button-led/button-led.c. Each
-- label of the init function's cleanup chain is a function that falls through to the next one.
use linux_programing_n_syste.Common.{ℕ, ◌-◌, ◌%◌, ◌^◌, if◌then◌else◌, is_null, [], ◌∷◌}
use linux_programing_n_syste.Common.Int.{ℤ, pos, negsuc, success, neg_enomem, is_negative}
use linux_programing_n_syste.Kernel.{DevicePtr, is_err, Event, Outcome, done, null_access}
use linux_programing_n_syste.Gpio.{Bank, oe_offset, or_register, and_register}
use linux_programing_n_syste.Gpio.Masks.{all_but}
use linux_programing_n_syste.ButtonLed.{Module, btn_pin, led_off}

abbrev pub gpio_0_addr_base : ℕ
gpio_0_addr_base = 0x44E07000

abbrev pub gpio_0_addr_size : ℕ
gpio_0_addr_size = 0x44E07FFF - 0x44E07000

abbrev pub debouncing_value : ℕ
debouncing_value = 150

-- The kernel's answers to the calls of the init function, in their order; 0 is NULL. `irq_number` is
-- that of `gpio_to_irq`.
pub record Answers : Type 0 where
  pub alloc_ret : ℤ
  pub dev_num : ℕ
  pub class_ptr : ℕ
  pub device_ptr : DevicePtr
  pub cdev_ptr : ℕ
  pub cdev_add_ret : ℤ
  pub base_addr : ℕ
  pub irq_number : ℕ
  pub request_ret : ℤ

-- `uint8_t retval = ret`.
abbrev pub to_uint8 : ℤ → ℕ
to_uint8 (pos n) = n % 256
to_uint8 (negsuc n) = 255 - n % 256

module _ (b : Bank) where
  abbrev pub call : Event → Module b → Module b
  call e m = record m { log = e ∷ m.log }

  abbrev pub Result : Type 0
  Result = ℤ × Module b

  -- The globals of a module that has just been loaded, over the registers as they are.
  abbrev pub loaded : b.Regs → Module b
  loaded r = record {
    drv = record {
      dev_num = 0;
      dev_class = 0;
      dev_create = DevicePtr.device 0;
      base_addr = 0;
      cdev_addr = 0;
      count = 0;
    };
    state = 0;
    irq = 0;
    regs = r;
    log = [];
  }

  failed_registed_devnum : ℤ → Module b → Result
  failed_registed_devnum ret m = (ret, m)

  failed_registed_devclass : ℤ → Module b → Result
  unfolding failed_registed_devnum
  failed_registed_devclass ret m =
      failed_registed_devnum ret (call (Event.unregister_chrdev_region m.drv.dev_num) m)

  failed_registed_device : ℤ → Module b → Result
  unfolding failed_registed_devclass
  failed_registed_device ret m =
      failed_registed_devclass ret (call (Event.class_destroy m.drv.dev_class) m)

  failed_registed_cdev : ℤ → Module b → Result
  unfolding failed_registed_device
  failed_registed_cdev ret m =
      failed_registed_device ret (call (Event.device_destroy m.drv.dev_class m.drv.dev_num) m)

  failed_remap_addr : ℤ → Module b → Result
  unfolding failed_registed_cdev
  failed_remap_addr ret m = failed_registed_cdev ret (call (Event.cdev_del m.drv.cdev_addr) m)

  failed_gpio_to_irq : Answers → ℤ → Module b → Result
  unfolding failed_remap_addr
  failed_gpio_to_irq a ret m = failed_remap_addr ret (call (Event.free_irq a.irq_number) m)

  -- The LED's pin becomes an output, and is cleared; the button's becomes an input.
  unfoldable pub init_pins : Module b → Module b
  unfolding led_off
  init_pins m =
      let m1 = led_off b (record m { regs = and_register b oe_offset (all_but 30) m.regs }) in
      record m1 { regs = or_register b oe_offset (2 ^ btn_pin) m1.regs }

  -- Once the registers are mapped. The last test is of an unsigned number.
  init_irq : Answers → ℤ → Module b → Result
  unfolding failed_gpio_to_irq
  init_irq a ret m =
      let m1 = call (Event.gpio_set_debounce btn_pin debouncing_value) (init_pins m) in
      let m2 =
        call (Event.request_irq a.irq_number a.request_ret) (record m1 { irq = a.irq_number }) in
      if is_negative (pos (to_uint8 a.request_ret))
      then failed_gpio_to_irq a ret m2
      else (success, m2)

  -- Once the device file is created.
  init_cdev : Answers → Module b → Outcome Result
  unfolding init_irq failed_remap_addr failed_registed_cdev
  init_cdev a m =
      let m1 = record m {
        drv = record m.drv { cdev_addr = a.cdev_ptr };
        log = Event.cdev_init a.cdev_ptr ∷ Event.cdev_alloc a.cdev_ptr ∷ m.log;
      } in
      let m2 = call (Event.cdev_add a.cdev_ptr a.cdev_add_ret) m1 in
      let m3 =
        call (Event.ioremap gpio_0_addr_base gpio_0_addr_size a.base_addr)
          (record m2 { drv = record m2.drv { base_addr = a.base_addr } }) in
      if is_null a.cdev_ptr
      then null_access
      else if is_negative a.cdev_add_ret
      then done (failed_registed_cdev a.cdev_add_ret m2)
      else if is_null a.base_addr
      then done (failed_remap_addr neg_enomem m3)
      else done (init_irq a a.cdev_add_ret m3)

  unfoldable pub read_write_iomodule_init : Answers → Module b → Outcome Result
  unfolding init_cdev failed_registed_device failed_registed_devclass failed_registed_devnum
  read_write_iomodule_init a m =
      let num = if is_negative a.alloc_ret then 0 else a.dev_num in
      let m1 =
        call (Event.alloc_chrdev_region a.alloc_ret)
          (record m { drv = record m.drv { dev_num = num } }) in
      let m2 =
        call (Event.class_create a.class_ptr)
          (record m1 { drv = record m1.drv { dev_class = a.class_ptr } }) in
      let m3 =
        call (Event.device_create a.device_ptr)
          (record m2 { drv = record m2.drv { dev_create = a.device_ptr } }) in
      if is_negative a.alloc_ret
      then done (failed_registed_devnum a.alloc_ret m1)
      else if is_null a.class_ptr
      then done (failed_registed_devclass a.alloc_ret m2)
      else if is_err a.device_ptr
      then done (failed_registed_device a.alloc_ret m3)
      else init_cdev a m3

  -- The LED is switched off, through registers that must be mapped, and all is given back.
  unfoldable pub read_write_iomodule_cleanup : Module b → Outcome (Module b)
  unfolding led_off
  read_write_iomodule_cleanup m =
      if is_null m.drv.base_addr
      then null_access
      else done (record (led_off b m) {
        log =
            Event.unregister_chrdev_region m.drv.dev_num
            ∷ Event.class_destroy m.drv.dev_class
            ∷ Event.device_destroy m.drv.dev_class m.drv.dev_num
            ∷ Event.cdev_del m.drv.cdev_addr
            ∷ Event.iounmap m.drv.base_addr
            ∷ Event.free_irq m.irq
            ∷ m.log;
      })
