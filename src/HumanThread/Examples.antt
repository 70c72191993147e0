-- ===== src/HumanThread/Examples.antt =====
-- Runs of 5.1-Thread with the IDs 7 and 9.
use linux_programing_n_syste.Common.{
  ◌≡◌, ◌≢◌, true, false, ◌∷◌, replicate, ◌⊎◌, refl, arith, none, List, [], ◌++◌, take,
}
use linux_programing_n_syste.Common.CString.{c_string, has_nul}
use linux_programing_n_syste.HumanThread.{
  Line, Human, human1, exiting, this_is_thread_2, ho_va_ten, thread_handle, handled, in_first,
  ended, faulted, State, Reach, started, first_starts, first_compares, here, later,
}
use linux_programing_n_syste.HumanThread.Printing.{Returned, first_lines, second_lines}
use linux_programing_n_syste.HumanThread.Safety.{threads_print}
use linux_programing_n_syste.HumanThread.Silence.{cut_at_any_line, lost_record_read}

-- The first thread compares before its ID is stored, and will print nothing.
abbrev too_early : State
too_early = record started { main = in_first; first = handled (thread_handle 7 0 0 none) }

too_early-Reach : Reach 7 9 started too_early
too_early-Reach = later (later here (first_starts refl)) (first_compares (λ e. cc) refl)

threads_print_example :
    (too_early.first ≢ faulted)
    × ((rest : List Line) × (too_early.printed1 ++ rest ≡ first_lines))
    × (Returned too_early.main
        ⊎ ((too_early.second ≢ faulted)
            × ((rest : List Line) × (too_early.printed2 ++ rest ≡ second_lines))))
threads_print_example =
    threads_print 7 9 too_early (omega arith) (omega arith) (omega arith) too_early-Reach

cut_at_any_line_example :
    (t : State) × Reach 7 9 started t
    × (t.main ≡ ended)
    × (t.printed1 ≡ [])
    × (t.printed2 ≡ take 2 second_lines)
    × (t.thread_id1 ≡ 7)
    × (t.thread_id2 ≡ 9)
cut_at_any_line_example = cut_at_any_line 7 9 2 (omega arith)

-- What came to stand where the record was: no NUL in the name.
abbrev overwritten : Human
overwritten = record human1 { name = replicate 30 255 }

lost_record_read_example :
    (t : State) × Reach 7 9 started t
    × (t.main ≡ exiting)
    × (((has_nul overwritten.name ≡ true)
          × (t.printed2 ≡ this_is_thread_2 ∷ ho_va_ten (c_string overwritten.name) ∷ []))
        ⊎ ((has_nul overwritten.name ≡ false) × (t.second ≡ faulted)))
lost_record_read_example = lost_record_read 7 9 overwritten (omega arith)
