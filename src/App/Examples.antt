-- ===== src/App/Examples.antt =====
-- A session with the application of 02-device-file, and its theorems at such sessions.
use linux_programing_n_syste.Common.{List, [], ◌∷◌}
use linux_programing_n_syste.Common.Int.{pos, success}
use linux_programing_n_syste.App.{Answers, Choice, o, r}

abbrev answered : Answers
answered = record { opened = pos 3; ret = success }

-- Open, and read through a second descriptor.
abbrev session : List (Answers × Choice)
session = (answered, o) ∷ (answered, r) ∷ []
