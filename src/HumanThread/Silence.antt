-- ===== src/HumanThread/Silence.antt =====
-- What the process of 5.1-Thread may leave unprinted, or print amiss: `main` does not wait for its threads.
use linux_programing_n_syste.Common.{
  ℕ, zero, suc, ◌≡◌, ◌≢◌, refl, sym, subst, true, false, ◌⊎◌, inl, inr, drop, Bool-cases, some,
  List, [], ◌∷◌, ◌++◌, take, ==_iff,
}
use linux_programing_n_syste.Common.Typed.{==_ne}
use linux_programing_n_syste.Common.CString.{c_string, has_nul}
use linux_programing_n_syste.Kernel.{done, buffer_overrun}
use linux_programing_n_syste.HumanThread.{
  Line, thread_handle, human1, returning, exiting, ended, begun, faulted, reads, record_lost, Human,
  this_is_thread_2, ho_va_ten, tran_the_hung, prints, State, Reach, started, first_starts,
  first_stored, fills, second_starts, second_stored, returns, exits, prints_line, second_compares,
  second_prints, here, later, handled,
}
use linux_programing_n_syste.HumanThread.Printing.{second_lines, AllKept, AllKept-lines}
use mathlib.Core.List.{append_assoc, append-nil}

still_runs : returning ≢ ended
still_runs e = cc

module _ (self1 self2 : ℕ) where
  -- Behind the creations, with the first thread before its comparison.
  abbrev created : State
  created = record started {
    main = returning;
    thread_id1 = self1;
    thread_id2 = self2;
    human = human1;
    first = begun;
    second = begun;
  }

  creates : Reach self1 self2 started created
  creates =
      later
        (later (later (later (later here (first_starts refl)) (first_stored refl)) (fills refl))
          (second_starts refl))
        (second_stored refl)

  abbrev printing : List Line → List Line → State
  printing ls out = record created { second = prints ls; printed2 = out }

  prints_some :
      (k : ℕ) (ls out : List Line)
      → AllKept ls
      → Reach self1 self2 started (printing ls out)
      → (rest : List Line) × Reach self1 self2 started (printing rest (out ++ take k ls))
  prints_some zero ls out kept run = (ls, rw (append-nil out) run)
  prints_some (suc k) [] out kept run = ([], rw (append-nil out) run)
  prints_some (suc k) (l ∷ ls) out kept run =
      let (rest, more) = prints_some k ls (out ++ (l ∷ [])) kept.1 (
        subst (λ o. Reach self1 self2 started (prints_line o ls (printing (l ∷ ls) out))) kept.0
          (later run (second_prints l ls still_runs refl))) in
      (rest, rw (← append_assoc out (l ∷ []) (take k ls)) more)

  compares :
      self1 ≢ self2 → handled (thread_handle self2 self1 self2 (some human1)) ≡ prints second_lines
  unfolding thread_handle
  compares other =
      rw (==_ne self2 self1 (λ e. other (sym e))) (rw ((==_iff self2 self2).1 refl) refl)

  begins : self1 ≢ self2 → Reach self1 self2 started (printing second_lines [])
  begins other =
      subst (λ pc. Reach self1 self2 started (record created { second = pc })) (compares other)
        (later creates (second_compares still_runs refl))

  -- `main` may return with nothing printed by either thread, every call having succeeded, or when the
  -- second thread has printed any number of its five lines: the rest of them is lost.
  pub cut_at_any_line :
      (k : ℕ)
      → self1 ≢ self2
      → (t : State) × Reach self1 self2 started t
        × (t.main ≡ ended)
        × (t.printed1 ≡ [])
        × (t.printed2 ≡ take k second_lines)
        × (t.thread_id1 ≡ self1)
        × (t.thread_id2 ≡ self2)
  cut_at_any_line k other =
      let (rest, run) = prints_some k second_lines [] AllKept-lines (begins other) in
      (
        record (printing rest (take k second_lines)) { main = ended },
        later (later run (returns refl)) (exits refl),
        refl,
        refl,
        refl,
        refl,
        refl,
      )

  -- Behind the first line of the second thread `main` has returned, and the record holds what it may.
  abbrev lost : Human → State
  lost h = record (printing (drop 1 second_lines) (this_is_thread_2 ∷ [])) {
    main = exiting;
    human = h;
  }

  loses : (h : Human) → self1 ≢ self2 → Reach self1 self2 started (lost h)
  unfolding reads
  loses h other =
      later
        (later (later (begins other) (second_prints this_is_thread_2 _ still_runs refl))
          (returns refl))
        (record_lost h refl)

  prints_name :
      (h : Human)
      → has_nul h.name ≡ true
      → reads h (ho_va_ten tran_the_hung) ≡ done (ho_va_ten (c_string h.name))
  unfolding reads
  prints_name h nul = rw nul refl

  over_reads_name :
      (h : Human) → has_nul h.name ≡ false → reads h (ho_va_ten tran_the_hung) ≡ buffer_overrun
  unfolding reads
  over_reads_name h raw = rw raw refl

  -- The record is a local variable of `main`, which may return while the second thread prints: where
  -- the two IDs differ, whatever then stands in the memory of the record, there is a run in which
  -- the thread prints that in place of the name, or reads past it where it has no NUL.
  pub lost_record_read :
      (h : Human)
      → self1 ≢ self2
      → (t : State) × Reach self1 self2 started t
        × (t.main ≡ exiting)
        × (((has_nul h.name ≡ true)
              × (t.printed2 ≡ this_is_thread_2 ∷ ho_va_ten (c_string h.name) ∷ []))
            ⊎ ((has_nul h.name ≡ false) × (t.second ≡ faulted)))
  lost_record_read h other =
      let next : Reach self1 self2 started
          (prints_line (reads h (ho_va_ten tran_the_hung)) (drop 2 second_lines) (lost h)) =
        later (loses h other) (second_prints (ho_va_ten tran_the_hung) _ (λ e. cc) refl) in
      elim (Bool-cases (has_nul h.name)) [
        | inl nul ↦ (
          _,
          subst (λ o. Reach self1 self2 started (prints_line o (drop 2 second_lines) (lost h)))
              (prints_name h nul) next,
          refl,
          inl (nul, refl),
        )
        | inr raw ↦ (
          _,
          subst (λ o. Reach self1 self2 started (prints_line o (drop 2 second_lines) (lost h)))
              (over_reads_name h raw) next,
          refl,
          inr (raw, refl),
        )
      ]
