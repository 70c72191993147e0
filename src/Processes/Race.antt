-- ===== src/Processes/Race.antt =====
-- Two processes of 4.2-child-process-management that seek before either writes.
use linux_programing_n_syste.Common.{
  ℕ, ◌+◌, ◌≡◌, refl, ap, ◌∙◌, arith, List, ◌++◌, length, length-append, take-all, take-exact,
  drop-all,
}
use linux_programing_n_syste.Processes.{
  a, b, b2, c, c2, State, fork_b, fork_c, fork_b2, fork_c2, reap, seek, write, Run, here, later,
  started, write_at, line,
}
use linux_programing_n_syste.Processes.Ending.{AllEnded, all_of}
use mathlib.Core.List.{append-nil}

write_at_end : (text file : List ℕ) → write_at (length file) text file ≡ file ++ text
write_at_end text file = rw (take-all (length file) file (omega arith)) (
    rw (drop-all (length file + length text) file (omega arith))
      (ap (λ t. file ++ t) (append-nil text)))

-- A write over another line of the same length.
write_over :
    (file old new : List ℕ)
    → length old ≡ length new
    → write_at (length file) new (write_at (length file) old file) ≡ file ++ new
write_over file old new e = rw (write_at_end old file) (
    rw (take-exact (length file) file old refl) (
      rw
        (drop-all (length file + length new) (file ++ old)
          (omega (arith, length-append {0} file old)))
        (ap (λ t. file ++ t) (append-nil new))))

write_next :
    (file before text : List ℕ) → file ≡ before → write_at (length file) text file ≡ before ++ text
write_next file before text e = write_at_end text file ∙ ap (λ f. f ++ text) e

-- The five processes can all end, every call they make succeeding, with no line of B' in the
-- file: C' seeks to the end before B' writes there, and then writes over it.
pub line_is_lost :
    (file : List ℕ)
    → (t : State) × Run (started file) 18 t
      × AllEnded t.pc
      × (t.file ≡ (((file ++ line c2) ++ line b) ++ line a) ++ line c)
unfolding line
line_is_lost file =
    let s0 : Run (started file) 4 _ =
      later (later (later (later here (fork_b refl refl)) (fork_c refl refl)) (fork_b2 refl refl))
        (fork_c2 refl refl) in
    let s1 : Run (started file) 8 _ =
      later (later (later (later s0 (seek b2 refl)) (seek c2 refl)) (write b2 _ refl))
        (write c2 _ refl) in
    let s2 : Run (started file) 12 _ =
      later (later (later (later s1 (reap b b2 refl refl)) (seek b refl)) (write b _ refl))
        (reap a b refl refl) in
    let s3 : Run (started file) 17 _ =
      later
        (later (later (later (later s2 (seek a refl)) (write a _ refl)) (reap c c2 refl refl))
          (seek c refl))
        (write c _ refl) in
    (
      _,
      later s3 (reap a c refl refl),
      all_of _ refl refl refl refl refl,
      write_next _ _ (line c) (
          write_next _ _ (line a)
            (write_next _ _ (line b) (write_over file (line b2) (line c2) refl))),
    )
