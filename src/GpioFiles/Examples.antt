-- ===== src/GpioFiles/Examples.antt =====
-- Concrete calls of gpio.c, and a round of app-button-led.c.
use linux_programing_n_syste.Common.{ℕ, ◌-◌, ◌≡◌, refl, true, List, [], ◌∷◌}
use linux_programing_n_syste.Common.Int.{ℤ, pos}
use linux_programing_n_syste.Kernel.{Returns}
use linux_programing_n_syste.GpioFiles.{Files, Answers, Round, Start, app_main}
use linux_programing_n_syste.GpioFiles.Session.{Started, Transfers, Shows, main-Shows}

abbrev no_files : Files
no_files = record { open_files = 3; written = [] }

abbrev two_bytes : Answers
two_bytes = record { fd = pos 3; count = pos 2; byte = 0 }

abbrev a_one : Answers
a_one = record { fd = pos 3; count = pos 1; byte = b'1' }

-- The first character, where it is a digit.
abbrev strtoul : List ℕ → ℤ
strtoul [] = pos 0
strtoul (c ∷ cs) = pos (c - b'0')

abbrev starting : Start
starting = record {
  export_button = two_bytes;
  direct_button = two_bytes;
  export_led = two_bytes;
  direct_led = two_bytes;
  write_led = a_one;
}

starting-Started : Started starting
starting-Started = record {
  export_button = record { fd = refl; count = refl };
  direct_button = record { fd = refl; count = refl };
  export_led = record { fd = refl; count = refl };
  direct_led = record { fd = refl; count = refl };
  write_led = record { fd = refl; count = refl };
}

a_one-Transfers : Transfers a_one
a_one-Transfers = record { fd = refl; count = refl }

abbrev a_zero : Answers
a_zero = record a_one { byte = b'0' }

-- The button is pushed, then not, with the LED on.
abbrev two_rounds : List Round
two_rounds =
    record { button = a_one; led = a_zero; switch = a_one }
    ∷ record { button = a_zero; led = a_one; switch = a_one }
    ∷ []

main-Shows_example :
    Returns
      (app_main strtoul [] starting two_rounds no_files)
      (λ t. Shows true t × (t.open_files ≡ 3))
main-Shows_example = main-Shows strtoul [] starting two_rounds no_files starting-Started (
  record {
    button = a_one-Transfers;
    led = record { fd = refl; count = refl };
    switch = a_one-Transfers;
    reads = refl;
  },
  (
    record {
      button = record { fd = refl; count = refl };
      led = a_one-Transfers;
      switch = a_one-Transfers;
      reads = refl;
    },
    tt,
  ),
)
