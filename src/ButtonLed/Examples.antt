-- ===== src/ButtonLed/Examples.antt =====
-- The theorems on 03-button-led at a bank of registers in memory.
use linux_programing_n_syste.Common.{
  ℕ, ◌-◌, ◌≡◌, ◌≤◌, ◌<◌, ◌⊎◌, refl, arith, true, false, List, [], ◌∷◌, if◌then◌else◌, ◌==◌,
}
use linux_programing_n_syste.Common.Int.{negsuc, success, pos, minus_one}
use linux_programing_n_syste.Common.Bits.{bit}
use linux_programing_n_syste.Kernel.{device, Returns, buffer_overrun}
use linux_programing_n_syste.Kernel.Ledger.{held, nothing}
use linux_programing_n_syste.Gpio.{pin}
use linux_programing_n_syste.Gpio.Sample.{Registers, bank, bank-Documented}
use linux_programing_n_syste.ButtonLed.{Module, btn_pushed_irq_handler}
use linux_programing_n_syste.ButtonLed.Led.{led, InSync, irq_handler-InSync}
use linux_programing_n_syste.ButtonLed.Rw.{Answers, Parsed, converted, rejected}
use linux_programing_n_syste.ButtonLed.Init.{loaded, init_pins, read_write_iomodule_cleanup}
use linux_programing_n_syste.ButtonLed.Init
use linux_programing_n_syste.ButtonLed.Session.{
  App, Happening, chosen, pushed, Choice, main_loop, received, end_of_file, read_data_chardev,
}
use linux_programing_n_syste.ButtonLed.RwLaws.{hex_length, level}
use linux_programing_n_syste.ButtonLed.Interrupted.{
  interrupted_switch, switch, interrupted_switch-pins,
}
use linux_programing_n_syste.ButtonLed.Shown.{registers_text, read_shows_registers}
use linux_programing_n_syste.ButtonLed.Lamp.{lamps, Continues, Matches, main_loop-Matches}
use linux_programing_n_syste.ButtonLed.InitLaws.{load, load_cleanup_releases}

-- Pins 3 and 5 are set, and the LED is off.
abbrev registers : Registers
registers = record { oe = 0xFFFFFFFF; dataout = 0x28 }

abbrev driver : Module bank
driver = loaded bank registers

irq_handler-InSync_example :
    InSync bank bank-Documented (btn_pushed_irq_handler bank driver)
    × ((btn_pushed_irq_handler bank driver).state ≡ 1 - 0)
irq_handler-InSync_example = irq_handler-InSync bank bank-Documented driver (omega arith)

-- Pin 3 is set, the button is pushed to switch the LED off, and 1 is written meanwhile.
abbrev lit_driver : Module bank
lit_driver = btn_pushed_irq_handler bank driver

interrupted_switch-pins_example :
    let t = interrupted_switch bank true lit_driver in
    let serial = switch bank true (btn_pushed_irq_handler bank lit_driver) in
    (led bank bank-Documented t ≡ level true)
    × (led bank bank-Documented serial ≡ level true)
    × (t.state ≡ 0)
    × (serial.state ≡ 0)
    × (pin bank 3 t.regs ≡ pin bank 3 lit_driver.regs)
    × (pin bank 3 serial.regs ≡ 0)
unfolding btn_pushed_irq_handler
interrupted_switch-pins_example =
    interrupted_switch-pins bank bank-Documented true 3 lit_driver
      (irq_handler-InSync bank bank-Documented driver (omega arith)).0.flag (λ e. omega (arith, e))

led_starts_off : led bank bank-Documented driver ≡ 0
unfolding bit
led_starts_off = refl

-- All calls succeed but that of `request_irq`.
abbrev no_irq : Init.Answers
no_irq = record {
  alloc_ret = success;
  dev_num = 0x0F000000;
  class_ptr = 0x1000;
  device_ptr = device 0x2000;
  cdev_ptr = 0x3000;
  cdev_add_ret = success;
  base_addr = 0x4000;
  irq_number = 70;
  request_ret = negsuc 15;
}

load_cleanup_releases_example : Returns (load bank registers no_irq) (λ r.
    (r.0 ≡ success)
    × Returns
        (read_write_iomodule_cleanup bank r.1)
        (λ m. held m.log ≡ record nothing { misuses = 1 }))
load_cleanup_releases_example = load_cleanup_releases bank registers no_irq (record {
  region = refl;
  class = omega arith;
  device = refl;
  cdev = omega arith;
  added = refl;
  base = omega arith;
})

abbrev given : Answers
given = record { kernel_buff = 0x7000; uncopied = 0 }

-- A stand-in for the kernel's conversion of one digit.
abbrev convert : List ℕ → Parsed
convert (c ∷ []) = converted (if c == b'0' then false else true)
convert _ = rejected 21

abbrev application : App bank
application = record { fd = minus_one; driver = driver; printed = [] }

-- The device is opened, 1 is typed, the button is pushed twice, and a letter is typed.
abbrev evening : List Happening
evening =
    chosen (pos 3) given Choice.open_node
    ∷ chosen (pos 4) given (Choice.write_node (b'1' ∷ []))
    ∷ pushed
    ∷ pushed
    ∷ chosen (pos 4) given (Choice.write_node (b'x' ∷ b'y' ∷ []))
    ∷ []

main_loop-Matches_example : Returns (main_loop bank convert evening application) (λ t.
    Continues bank t (
      Matches bank bank-Documented 0
        (lamps convert evening (record { lit = 0; toggle = 0; held = false }))))
main_loop-Matches_example =
    main_loop-Matches bank bank-Documented convert evening 0
      (record { lit = 0; toggle = 0; held = false }) application (omega arith)
      (record {
        lit = led_starts_off;
        toggle = refl;
        flag = omega arith;
        fd = refl;
        counted = refl;
      })
      (
        refl,
        (
          (refl, refl, refl, (omega arith, tt), omega arith),
          (tt, (tt, ((refl, refl, refl, (omega arith, (omega arith, tt)), omega arith), tt))),
        ),
      )

-- Registers of 1, 1 and 2 digits.
abbrev dark : App bank
dark = record application { driver = loaded bank (record { oe = 0xF; dataout = 0x28 }) }

read_shows_registers_example :
    ((hex_length bank dark.driver.regs ≤ 22)
      × Returns (read_data_chardev bank (pos 3) given dark) (λ t. Continues bank t (λ c.
        c.printed ≡ received (registers_text bank dark.driver.regs) ∷ end_of_file ∷ dark.printed)))
    ⊎ ((22 < hex_length bank dark.driver.regs)
        × (read_data_chardev bank (pos 3) given dark ≡ buffer_overrun))
read_shows_registers_example = read_shows_registers bank (pos 3) given dark refl refl refl
