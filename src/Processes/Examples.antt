-- ===== src/Processes/Examples.antt =====
-- Concrete runs of 4.2-child-process-management, over a file of one byte.
use linux_programing_n_syste.Common.{ℕ, ◌<◌, ◌≡◌, ◌⊎◌, refl, true, false, List, [], ◌∷◌, ◌++◌}
use linux_programing_n_syste.Processes.{
  a, b, c, c2, line, started, Run, b2, State, fork_b, fork_b2, seek, write, reap, here, later,
}
use linux_programing_n_syste.Processes.ChildrenFirst.{AllExited, awaited, children_first}
use linux_programing_n_syste.Processes.Ending.{AllEnded, CanStep, ends_after_18}
use linux_programing_n_syste.Processes.Zombies.{
  Parent, children, before, all_children, zombies_remain,
}
use linux_programing_n_syste.Processes.Zombies
use linux_programing_n_syste.Processes.Race.{line_is_lost}

abbrev one_byte : List ℕ
one_byte = 7 ∷ []

abbrev AfterSteps : ℕ → Type 0
AfterSteps n = (t : State) × Run (started one_byte) n t

-- B' has written and ended, and B has sought the end.
abbrev b_has_sought : AfterSteps 6
b_has_sought = (
  _,
  later
      (later
        (later (later (later (later here (fork_b refl refl)) (fork_b2 refl refl)) (seek b2 refl))
          (write b2 _ refl))
        (reap b b2 refl refl))
      (seek b refl),
)

children_first_example : AllExited b_has_sought.0.pc (awaited b)
children_first_example = children_first {file = one_byte} b b_has_sought.1 tt

abbrev six : ℕ
six = 6

ends_after_18_example :
    (AllEnded b_has_sought.0.pc × (six ≡ 18)) ⊎ ((6 < 18) × CanStep b_has_sought.0)
ends_after_18_example = ends_after_18 {file = one_byte} b_has_sought.1

line_is_lost_example :
    (t : State) × Run (started one_byte) 18 t
    × AllEnded t.pc
    × (t.file ≡ (((one_byte ++ line c2) ++ line b) ++ line a) ++ line c)
line_is_lost_example = line_is_lost one_byte

zombies_remain_example :
    (all_children (before children) ≡ children)
    × (u : Parent) × Zombies.Run (before children) u
    × (u.returned ≡ false)
    × (u.zombies ≡ 4999)
    × ((v : Parent) → Zombies.Step u v → (v.returned ≡ true) × (v.zombies ≡ 0) × (v.adopted ≡ 4999))
zombies_remain_example = zombies_remain 4999 Zombies.here
