-- ===== src/ButtonGpio/Switching.antt =====
-- What the interrupts of 04-button-led-integer/button-led.c make of the LED.
use linux_programing_n_syste.Common.{
  ℕ, zero, suc, ◌+◌, ◌-◌, ◌%◌, ◌≤◌, ◌≡◌, ◌≢◌, inl, inr, refl, ◌∙◌, arith, Bool, Bool-cases, ◌==◌,
  ==_iff,
}
use linux_programing_n_syste.Common.Int.{success}
use linux_programing_n_syste.ButtonGpio.{
  Pins, Driver, gpio_led, gpio_btn, btn_pushed_irq_handler, pushes, btn_init, btn_exit,
}

-- The documented behaviour: a pin that was set to 0 or 1 reads as that, and to make another pin an
-- input does not change it.
pub record Documented (p : Pins) : Type 0 where
  pub get-set : (n v : ℕ) (l : p.Levels) → v ≤ 1 → p.get_value n (p.set_value n v l) ≡ v
  pub get-input :
      (n m : ℕ) (l : p.Levels) → n ≢ m → p.get_value n (p.direction_input m l) ≡ p.get_value n l

module _ (p : Pins) (documented : Documented p) where
  push-level :
      (d : Driver p)
      → p.get_value gpio_led d.levels ≤ 1
      → p.get_value gpio_led (btn_pushed_irq_handler p d).levels ≡ 1 - p.get_value gpio_led d.levels
  unfolding btn_pushed_irq_handler
  push-level d h = elim (Bool-cases (p.get_value gpio_led d.levels == 0)) [
    | inl dark ↦ rw dark (
        omega (
          arith,
          documented.get-set gpio_led 1 d.levels (omega arith),
          (==_iff (p.get_value gpio_led d.levels) 0).0 dark,
        ))
    | inr lit ↦ rw lit (ground (arith, documented.get-set gpio_led 0 d.levels (omega arith)))
  ]

  pushes-level :
      (n : ℕ) (d : Driver p)
      → p.get_value gpio_led d.levels ≤ 1
      → p.get_value gpio_led (pushes p n d).levels ≡ (n + p.get_value gpio_led d.levels) % 2
  unfolding pushes
  pushes-level zero d h = omega arith
  pushes-level (suc n) d h = omega (
    arith,
    push-level d h,
    pushes-level n (btn_pushed_irq_handler p d) (omega (arith, push-level d h)),
  )

  dark :
      (d : Driver p)
      → p.get_value gpio_led (
          p.direction_input gpio_btn
            (p.set_value gpio_led 0 (p.direction_output gpio_led 0 d.levels)))
        ≡ 0
  dark d =
      documented.get-input gpio_led gpio_btn
        (p.set_value gpio_led 0 (p.direction_output gpio_led 0 d.levels)) (λ e. omega arith)
      ∙ documented.get-set gpio_led 0 (p.direction_output gpio_led 0 d.levels) (omega arith)

  -- The load always reports success and leaves the LED dark; after any number of interrupts the LED
  -- shows whether that number is odd; and the end of the module leaves it dark.
  pub load_pushes-level :
      (irq n : ℕ) (requested : Bool) (d : Driver p)
      → ((btn_init p irq requested d).0 ≡ success)
        × (p.get_value gpio_led (pushes p n (btn_init p irq requested d).1).levels ≡ n % 2)
        × (p.get_value gpio_led (btn_exit p (pushes p n (btn_init p irq requested d).1)).levels ≡ 0)
  unfolding btn_init btn_exit
  load_pushes-level irq n requested d = (
    refl,
    omega (arith, pushes-level n (btn_init p irq requested d).1 (omega (arith, dark d)), dark d),
    documented.get-set gpio_led 0 (pushes p n (btn_init p irq requested d).1).levels (omega arith),
  )
