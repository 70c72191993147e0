-- ===== src/ButtonGpio.antt =====
-- Linux-Programing-Porting/04-button-led-integer/button-led.c: a button interrupt that switches an LED
-- through the kernel's pin numbers. The kernel's pins are a parameter, with a call that reads the
-- level of a pin and calls that set it.
pub mod Switching
mod Examples
use linux_programing_n_syste.Common.{
  ℕ, zero, suc, ◌==◌, Bool, true, false, if◌then◌else◌, List, [], ◌∷◌,
}
use linux_programing_n_syste.Common.Int.{ℤ, success}

abbrev pub gpio_led : ℕ
gpio_led = 30

abbrev pub gpio_btn : ℕ
gpio_btn = 31

-- `gpio_get_value`, `gpio_set_value`, `gpio_direction_output` and `gpio_direction_input`.
pub record Pins : Type 1 where
  pub Levels : Type 0
  pub get_value : ℕ → Levels → ℕ
  pub set_value : ℕ → ℕ → Levels → Levels
  pub direction_output : ℕ → ℕ → Levels → Levels
  pub direction_input : ℕ → Levels → Levels

-- The calls that hold and release a pin or the interrupt; `request_irq` with whether it succeeded.
pub data Call : Type 0 where
  gpio_request gpio_free : ℕ → Call
  request_irq : ℕ → Bool → Call
  free_irq : ℕ → Call

module _ (p : Pins) where
  pub record Driver : Type 0 where
    pub irq : ℕ
    pub levels : p.Levels
    pub log : List Call

  abbrev call : Call → Driver → Driver
  call c d = record d { log = c ∷ d.log }

  unfoldable pub btn_pushed_irq_handler : Driver → Driver
  btn_pushed_irq_handler d =
      if p.get_value gpio_led d.levels == 0
      then record d { levels = p.set_value gpio_led 1 d.levels }
      else record d { levels = p.set_value gpio_led 0 d.levels }

  -- A number of interrupts, one after the other.
  unfoldable pub pushes : ℕ → Driver → Driver
  pushes zero d = d
  pushes (suc n) d = pushes n (btn_pushed_irq_handler d)

  -- The result of `request_irq` is stored and not looked at.
  unfoldable pub btn_init : ℕ → Bool → Driver → ℤ × Driver
  btn_init irq requested d =
      let d1 = call (Call.gpio_request gpio_led) d in
      let d2 = record d1 {
        levels = p.set_value gpio_led 0 (p.direction_output gpio_led 0 d1.levels);
      } in
      let d3 = call (Call.gpio_request gpio_btn) d2 in
      let d4 = record d3 { levels = p.direction_input gpio_btn d3.levels; irq = irq } in
      (success, call (Call.request_irq irq requested) d4)

  unfoldable pub btn_exit : Driver → Driver
  btn_exit d = call (Call.gpio_free gpio_btn) (
      call (Call.gpio_free gpio_led)
        (call (Call.free_irq d.irq) (record d { levels = p.set_value gpio_led 0 d.levels })))
