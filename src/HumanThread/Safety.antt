-- ===== src/HumanThread/Safety.antt =====
-- What the two threads of 5.1-Thread can print.
use linux_programing_n_syste.Common.{
  ℕ, ◌≡◌, ◌≢◌, ◌⊎◌, inl, inr, refl, sym, ap, ◌∙◌, subst, none, some, List, [], ◌∷◌, ◌++◌,
}
use linux_programing_n_syste.Kernel.{Outcome, done, buffer_overrun, null_access}
use linux_programing_n_syste.HumanThread.{
  Line, thread_handle, human1, faulted, prints, State, handled, Step, Reach, started, first_fails,
  first_starts, first_stored, fills, second_fails, second_starts, second_stored, returns,
  record_lost, exits, prints_line, reads, begun, first_compares, second_compares, first_prints,
  second_prints, here, later,
}
use linux_programing_n_syste.HumanThread.Printing.{
  first_lines, second_lines, Prepared, Prints, Prepared-first, Prepared-second, Prints-absent,
  Prints-begun, Prints-prints, Prints-ready, Prints-faultless, Prints-start, Prints-kept,
  Prepared-filled, Returned, until_return, AllKept-lines,
}
use linux_programing_n_syste.HumanThread.Compares.{first_handles, second_handles}

module _ (self1 self2 : ℕ) where
  record Sound (s : State) : Type 0 where
    id1 : (s.thread_id1 ≡ 0) ⊎ (s.thread_id1 ≡ self1)
    id2 : (s.thread_id2 ≡ 0) ⊎ (s.thread_id2 ≡ self2)
    prepared : Prepared s.main s.human s.first s.second
    first : Prints first_lines Unit s.first s.printed1
    second : Returned s.main ⊎ Prints second_lines (s.human ≡ human1) s.second s.printed2

  module _ (known1 : self1 ≢ 0) (known2 : self2 ≢ 0) (other : self1 ≢ self2) where
    -- The second thread compares.
    compared :
        (s : State)
        → s.second ≡ begun
        → Sound s
        → Returned s.main ⊎ Prints second_lines (s.human ≡ human1) s.second s.printed2
        → Returned s.main
          ⊎ Prints second_lines
              (s.human ≡ human1)
              (handled (thread_handle self2 s.thread_id1 s.thread_id2 (some s.human)))
              s.printed2
    compared s e h (inl gone) = inl gone
    compared s e h (inr before) =
        let p = Prints-begun second_lines (s.human ≡ human1) s.second s.printed2 e before in
        inr (
          subst
            (λ out.
              Prints second_lines (s.human ≡ human1)
                (handled (thread_handle self2 s.thread_id1 s.thread_id2 (some s.human))) out)
            (sym p.0)
            (Prints-ready second_lines Unit (s.human ≡ human1) _ [] p.1 (
              second_handles self1 self2 s.thread_id1 s.thread_id2 s.human known2 other h.id1 h.id2
                p.1)))

    -- The second thread prints a line, from a record that `main` may have lost.
    lost_line :
        (s : State) (o : Outcome Line) (l : Line) (ls : List Line)
        → s.second ≡ prints (l ∷ ls)
        → Returned s.main
        → Sound s
        → Sound (prints_line o ls s)
    lost_line s (done l') l ls e gone h = record {
      id1 = h.id1;
      id2 = h.id2;
      prepared = Prepared-second s.main s.human s.first s.second (prints ls) (λ a. cc) h.prepared;
      first = h.first;
      second = inl gone;
    }
    lost_line s buffer_overrun l ls e gone h = record {
      id1 = h.id1;
      id2 = h.id2;
      prepared = Prepared-second s.main s.human s.first s.second faulted (λ a. cc) h.prepared;
      first = h.first;
      second = inl gone;
    }
    lost_line s null_access l ls e gone h = record {
      id1 = h.id1;
      id2 = h.id2;
      prepared = Prepared-second s.main s.human s.first s.second faulted (λ a. cc) h.prepared;
      first = h.first;
      second = inl gone;
    }

    printed :
        (s : State) (l : Line) (ls : List Line)
        → s.second ≡ prints (l ∷ ls)
        → Sound s
        → Returned s.main ⊎ (s.human ≡ human1)
        → Returned s.main ⊎ Prints second_lines (s.human ≡ human1) s.second s.printed2
        → Sound (prints_line (reads s.human l) ls s)
    printed s l ls e h (inl gone) second = lost_line s (reads s.human l) l ls e gone h
    printed s l ls e h (inr ready) (inl gone) = lost_line s (reads s.human l) l ls e gone h
    printed s l ls e h (inr ready) (inr p) =
        let kept : reads s.human l ≡ done l =
          ap (λ r. reads r l) ready
          ∙ Prints-kept second_lines (s.human ≡ human1) s.second l ls s.printed2 AllKept-lines e
              p in
        rw kept (record {
          id1 = h.id1;
          id2 = h.id2;
          prepared =
              Prepared-second s.main s.human s.first s.second (prints ls) (λ a. cc) h.prepared;
          first = h.first;
          second = inr (Prints-prints second_lines (s.human ≡ human1) s.second l ls s.printed2 e p);
        })

    Step-Sound : {s t : State} → Step self1 self2 s t → Sound s → Sound t
    Step-Sound {s} (first_fails e) h = record {
      id1 = h.id1;
      id2 = h.id2;
      prepared = tt;
      first = h.first;
      second = inl tt;
    }
    Step-Sound {s} (first_starts e) h =
        let p = subst (λ pc. Prepared pc s.human s.first s.second) e h.prepared in
        record {
          id1 = h.id1;
          id2 = h.id2;
          prepared = p.1;
          first = (Prints-absent first_lines Unit s.first s.printed1 p.0 h.first, tt);
          second = inr (until_return s.main _ (λ r. r) e h.second);
        }
    Step-Sound {s} (first_stored e) h = record {
      id1 = inr refl;
      id2 = h.id2;
      prepared = subst (λ pc. Prepared pc s.human s.first s.second) e h.prepared;
      first = h.first;
      second = inr (until_return s.main _ (λ r. r) e h.second);
    }
    Step-Sound {s} (fills e) h = record {
      id1 = h.id1;
      id2 = h.id2;
      prepared = (refl, subst (λ pc. Prepared pc s.human s.first s.second) e h.prepared);
      first = h.first;
      second = inr (
          Prints-ready second_lines (s.human ≡ human1) (human1 ≡ human1) s.second s.printed2 refl
            (until_return s.main _ (λ r. r) e h.second));
    }
    Step-Sound {s} (second_fails e) h = record {
      id1 = h.id1;
      id2 = h.id2;
      prepared = (subst (λ pc. Prepared pc s.human s.first s.second) e h.prepared).0;
      first = h.first;
      second = inr (until_return s.main _ (λ r. r) e h.second);
    }
    Step-Sound {s} (second_starts e) h =
        let p = subst (λ pc. Prepared pc s.human s.first s.second) e h.prepared in
        record {
          id1 = h.id1;
          id2 = h.id2;
          prepared = p.0;
          first = h.first;
          second = inr (
            Prints-absent second_lines (s.human ≡ human1) s.second s.printed2 p.1
                (until_return s.main _ (λ r. r) e h.second),
            p.0,
          );
        }
    Step-Sound {s} (second_stored e) h = record {
      id1 = h.id1;
      id2 = inr refl;
      prepared = subst (λ pc. Prepared pc s.human s.first s.second) e h.prepared;
      first = h.first;
      second = inr (until_return s.main _ (λ r. r) e h.second);
    }
    Step-Sound {s} (returns e) h = record {
      id1 = h.id1;
      id2 = h.id2;
      prepared = tt;
      first = h.first;
      second = inl tt;
    }
    Step-Sound {s} (record_lost r e) h = record {
      id1 = h.id1;
      id2 = h.id2;
      prepared = subst (λ pc. Prepared pc r s.first s.second) (sym e) tt;
      first = h.first;
      second = inl (subst Returned (sym e) tt);
    }
    Step-Sound {s} (exits e) h = record {
      id1 = h.id1;
      id2 = h.id2;
      prepared = tt;
      first = h.first;
      second = inl tt;
    }
    Step-Sound {s} (first_compares m e) h = record {
      id1 = h.id1;
      id2 = h.id2;
      prepared = Prepared-first s.main s.human s.first s.second _ (λ a. cc) h.prepared;
      first =
          subst
            (λ out.
              Prints first_lines Unit (handled (thread_handle self1 s.thread_id1 s.thread_id2 none))
                out)
            (sym (Prints-begun first_lines Unit s.first s.printed1 e h.first).0)
            (first_handles self1 self2 s.thread_id1 s.thread_id2 known1 other h.id1 h.id2);
      second = h.second;
    }
    Step-Sound {s} (second_compares m e) h = record {
      id1 = h.id1;
      id2 = h.id2;
      prepared = Prepared-second s.main s.human s.first s.second _ (λ a. cc) h.prepared;
      first = h.first;
      second = compared s e h h.second;
    }
    Step-Sound {s} (first_prints l ls m e) h = record {
      id1 = h.id1;
      id2 = h.id2;
      prepared = Prepared-first s.main s.human s.first s.second (prints ls) (λ a. cc) h.prepared;
      first = Prints-prints first_lines Unit s.first l ls s.printed1 e h.first;
      second = h.second;
    }
    Step-Sound {s} (second_prints l ls m e) h =
        printed s l ls e h (Prepared-filled s.main s.human s.first s.second (λ a. cc) h.prepared)
          h.second

    Reach-Sound : {t : State} → Reach self1 self2 started t → Sound t
    Reach-Sound here = record {
      id1 = inl refl;
      id2 = inl refl;
      prepared = (refl, refl);
      first = refl;
      second = inr refl;
    }
    Reach-Sound (later run st) = Step-Sound st (Reach-Sound run)

  -- What may be said of the second thread, until `main` returns.
  second_print :
      (t : State)
      → Returned t.main ⊎ Prints second_lines (t.human ≡ human1) t.second t.printed2
      → Returned t.main
        ⊎ ((t.second ≢ faulted) × ((rest : List Line) × (t.printed2 ++ rest ≡ second_lines)))
  second_print t (inl gone) = inl gone
  second_print t (inr p) = inr (
    Prints-faultless second_lines (t.human ≡ human1) t.second t.printed2 p,
    Prints-start second_lines (t.human ≡ human1) t.second t.printed2 p,
  )

  -- Whatever order the two threads and `main` run in, where the IDs are two and neither is 0: the first
  -- thread does not go through its argument, which is NULL, and prints its line or nothing. Unless `main`
  -- has returned, or the process has ended, the second thread has not read past a text, and has printed
  -- the start of its five lines, with the texts that `main` has copied, or all of them.
  pub threads_print :
      (t : State)
      → self1 ≢ 0
      → self2 ≢ 0
      → self1 ≢ self2
      → Reach self1 self2 started t
      → (t.first ≢ faulted)
        × ((rest : List Line) × (t.printed1 ++ rest ≡ first_lines))
        × (Returned t.main
            ⊎ ((t.second ≢ faulted) × ((rest : List Line) × (t.printed2 ++ rest ≡ second_lines))))
  threads_print t known1 known2 other run =
      let h = Reach-Sound known1 known2 other run in
      (
        Prints-faultless first_lines Unit t.first t.printed1 h.first,
        Prints-start first_lines Unit t.first t.printed1 h.first,
        second_print t h.second,
      )
