-- ===== src/ButtonGpio/Examples.antt =====
-- Pins as a function from their numbers to their levels.
use linux_programing_n_syste.Common.{ℕ, ◌≡◌, arith, true, ◌==◌, if◌then◌else◌, []}
use linux_programing_n_syste.Common.Int.{success}
use linux_programing_n_syste.ButtonGpio.{Pins, Driver, gpio_led, btn_init, btn_exit, pushes}
use linux_programing_n_syste.ButtonGpio.Switching.{Documented, load_pushes-level}

abbrev table : Pins
table = record {
  Levels = ℕ → ℕ;
  get_value = λ n l. l n;
  set_value = λ n v l m. if m == n then v else l m;
  direction_output = λ n v l m. if m == n then v else l m;
  direction_input = λ n l m. if m == n then 0 else l m;
}

table-Documented : Documented table
table-Documented = record { get-set = λ n v l h. ground arith; get-input = λ n m l h. ground arith }

abbrev fresh : Driver table
fresh = record { irq = 0; levels = λ n. 1; log = [] }

load_pushes-level_example :
    ((btn_init table 5 true fresh).0 ≡ success)
    × ((pushes table 3 (btn_init table 5 true fresh).1).levels gpio_led ≡ 1)
    × ((btn_exit table (pushes table 3 (btn_init table 5 true fresh).1)).levels gpio_led ≡ 0)
load_pushes-level_example = load_pushes-level table table-Documented 5 3 true fresh
