-- ===== src/Students/Examples.antt =====
-- The theorems on 5.2-Thread-management at one student and at short runs of the threads.
use linux_programing_n_syste.Common.{ℕ, ◌≡◌, refl, arith, List, [], ◌∷◌, none, some, replicate}
use linux_programing_n_syste.Common.CString.{c_string}
use linux_programing_n_syste.Kernel.{Returns}
use linux_programing_n_syste.Students.{Human, field_size}
use linux_programing_n_syste.Students.Records.{Fits, line}
use linux_programing_n_syste.Students.Storage.{one_round, one_round-lines}
use linux_programing_n_syste.Students.Threads.{
  Thread, announce, work, t1, t3, Pc, acquire, critical, spin, State, update, init, Reach, here,
  later, lock,
}
use linux_programing_n_syste.Students.Turns.{mutual_exclusion, CanMove, no_deadlock}
use linux_programing_n_syste.Students.Order.{InStep, InOrder, works-InOrder}

abbrev zeros : List ℕ
zeros = replicate field_size 0

abbrev nobody : Human
nobody = record { name = zeros; birthyear = zeros; country = zeros }

abbrev ann : List ℕ
ann = b'A' ∷ b'n' ∷ b'n' ∷ []

ann-Fits : Fits ann
ann-Fits = record { clean = (omega arith, (omega arith, (omega arith, tt))); short = omega arith }

one_round-lines_example : Returns (one_round ann ann ann nobody zeros (b'x' ∷ [])) (λ h.
    (c_string h.name ≡ line ann)
    × (c_string h.birthyear ≡ line ann)
    × (c_string h.country ≡ line ann))
one_round-lines_example =
    one_round-lines ann ann ann nobody zeros (b'x' ∷ []) ann-Fits ann-Fits ann-Fits
      (record { name = refl; birthyear = refl; country = refl; buffer = refl })

-- Thread 3 has taken the mutex.
abbrev third_in : State
third_in = record init { pc = update init.pc t3 critical; owner = some t3 }

third_in-Reach : Reach init third_in
third_in-Reach = later here (lock t3 refl refl)

mutual_exclusion_example : t3 ≡ t3
mutual_exclusion_example = mutual_exclusion third_in-Reach t3 t3 refl refl

no_deadlock_example : (i : Thread) × CanMove third_in i
no_deadlock_example = no_deadlock third_in-Reach

others_pc : Thread → Pc
others_pc t1 = acquire
others_pc _ = spin

-- Thread 1 is named and the others spin.
abbrev in_step : State
in_step = record { pc = others_pc; owner = none; running = some t1; works = [] }

in_step-InStep : InStep in_step t1
unfolding others_pc
in_step-InStep = record { named = refl; others = λ j e. ground arith }

first_acquires : in_step.pc t1 ≡ acquire
unfolding others_pc
first_acquires = refl

abbrev first_in : State
first_in = record in_step { pc = update in_step.pc t1 critical; owner = some t1 }

abbrev turned : State
turned = record first_in { pc = update first_in.pc t1 announce; owner = none; works = t1 ∷ [] }

works-InOrder_example : InOrder t1 turned.works × (k : Thread) × InStep turned k
works-InOrder_example =
    works-InOrder in_step-InStep first_acquires refl
      (later (later here (lock t1 first_acquires refl)) (work t1 refl))
