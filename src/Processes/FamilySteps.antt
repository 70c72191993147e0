-- ===== src/Processes/FamilySteps.antt =====
-- What each step of 4.2-child-process-management does to the order of the waits.
use linux_programing_n_syste.Common.{ℕ, zero, suc, ◌≡◌, refl, sym, ap, subst, ◌∙◌, List, length}
use linux_programing_n_syste.Processes.{
  Process, a, b, b2, c, c2, Pc, unborn, forking, waits, seeks, writes, exited, State, Step, fork_b,
  fork_c, fork_b2, fork_c2, reap, seek, write, Run, here, later, started, update, after_wait,
  after_write,
}
use linux_programing_n_syste.Processes.Family.{
  Alive, Working, Busy, WithChild, Eldest, Wf, b_moves, c_moves, child_moves, is,
}

seek-Wf :
    (pc : Process → Pc) (i : Process) (n : ℕ) → pc i ≡ seeks → Wf pc → Wf (update pc i (writes n))
seek-Wf pc a n e h = record {
  eldest = subst (λ p. Eldest p (pc b) (pc c)) e h.eldest;
  with_b2 = h.with_b2;
  with_c2 = h.with_c2;
}
seek-Wf pc b n e h = record {
  eldest = b_moves (pc a) (pc b) (writes n) (pc c) (is Busy e tt) tt h.eldest;
  with_b2 = subst (λ p. WithChild b2 p (pc b2)) e h.with_b2;
  with_c2 = h.with_c2;
}
seek-Wf pc b2 n e h = record {
  eldest = h.eldest;
  with_b2 = child_moves b2 (pc b) (pc b2) (writes n) (is Busy e tt) tt h.with_b2;
  with_c2 = h.with_c2;
}
seek-Wf pc c n e h = record {
  eldest = c_moves (pc a) (pc b) (pc c) (writes n) (is Busy e tt) tt h.eldest;
  with_b2 = h.with_b2;
  with_c2 = subst (λ p. WithChild c2 p (pc c2)) e h.with_c2;
}
seek-Wf pc c2 n e h = record {
  eldest = h.eldest;
  with_b2 = h.with_b2;
  with_c2 = child_moves c2 (pc c) (pc c2) (writes n) (is Busy e tt) tt h.with_c2;
}

write-Wf :
    (pc : Process → Pc) (i : Process) (n : ℕ)
    → pc i ≡ writes n
    → Wf pc
    → Wf (update pc i (after_write i))
write-Wf pc a n e h = record {
  eldest = subst (λ p. Eldest p (pc b) (pc c)) e h.eldest;
  with_b2 = h.with_b2;
  with_c2 = h.with_c2;
}
write-Wf pc b n e h = record {
  eldest = b_moves (pc a) (pc b) exited (pc c) (is Busy e tt) tt h.eldest;
  with_b2 = subst (λ p. WithChild b2 p (pc b2)) e h.with_b2;
  with_c2 = h.with_c2;
}
write-Wf pc b2 n e h = record {
  eldest = h.eldest;
  with_b2 = child_moves b2 (pc b) (pc b2) exited (is Busy e tt) tt h.with_b2;
  with_c2 = h.with_c2;
}
write-Wf pc c n e h = record {
  eldest = c_moves (pc a) (pc b) (pc c) exited (is Busy e tt) tt h.eldest;
  with_b2 = h.with_b2;
  with_c2 = subst (λ p. WithChild c2 p (pc c2)) e h.with_c2;
}
write-Wf pc c2 n e h = record {
  eldest = h.eldest;
  with_b2 = h.with_b2;
  with_c2 = child_moves c2 (pc c) (pc c2) exited (is Busy e tt) tt h.with_c2;
}

-- A wait of A's, for one that has ended.
Eldest-after_wait :
    (j : Process) (pb pc p : Pc)
    → (j ≡ b → p ≡ pb)
    → (j ≡ c → p ≡ pc)
    → p ≡ exited
    → Eldest (waits j) pb pc
    → Eldest (after_wait a j) pb pc
Eldest-after_wait a pb pc p f g e h = absurd h
Eldest-after_wait b pb pc p f g e (h, h') = (sym (f refl) ∙ e, h')
Eldest-after_wait b2 pb pc p f g e h = absurd h
Eldest-after_wait c pb pc p f g e (h, h') = (h, sym (g refl) ∙ e)
Eldest-after_wait c2 pb pc p f g e h = absurd h

not_waiting : {p : Pc} (j : Process) → p ≡ waits j → Working p → ⊥
not_waiting j e h = subst Working e h

-- B', or C', is in no wait.
child_waits : (child : Process) (p q : Pc) (j : Process) → q ≡ waits j → WithChild child p q → ⊥
child_waits child unborn q j e h = subst Alive (sym e ∙ h) tt
child_waits child (forking zero) q j e h = subst Alive (sym e ∙ h) tt
child_waits child (forking (suc _)) q j e h = h
child_waits child (waits i) q j e (h, h') = not_waiting j e h'
child_waits child seeks q j e h = subst Working (sym h ∙ e) tt
child_waits child (writes _) q j e h = subst Working (sym h ∙ e) tt
child_waits child exited q j e h = subst Working (sym h ∙ e) tt

reap-Wf :
    (pc : Process → Pc) (i j : Process)
    → pc i ≡ waits j
    → pc j ≡ exited
    → Wf pc
    → Wf (update pc i (after_wait i j))
reap-Wf pc a j e e' h = record {
  eldest =
      Eldest-after_wait j (pc b) (pc c) (pc j) (ap pc) (ap pc) e'
        (subst (λ p. Eldest p (pc b) (pc c)) e h.eldest);
  with_b2 = h.with_b2;
  with_c2 = h.with_c2;
}
reap-Wf pc b j e e' h = record {
  eldest = b_moves (pc a) (pc b) seeks (pc c) (is Busy e tt) tt h.eldest;
  with_b2 = sym (ap pc (subst (λ p. WithChild b2 p (pc b2)) e h.with_b2).0) ∙ e';
  with_c2 = h.with_c2;
}
reap-Wf pc b2 j e e' h = absurd (child_waits b2 (pc b) (pc b2) j e h.with_b2)
reap-Wf pc c j e e' h = record {
  eldest = c_moves (pc a) (pc b) (pc c) seeks (is Busy e tt) tt h.eldest;
  with_b2 = h.with_b2;
  with_c2 = sym (ap pc (subst (λ p. WithChild c2 p (pc c2)) e h.with_c2).0) ∙ e';
}
reap-Wf pc c2 j e e' h = absurd (child_waits c2 (pc c) (pc c2) j e h.with_c2)

Step-Wf : {s t : State} → Step s t → Wf s.pc → Wf t.pc
Step-Wf {s} (fork_b e e') h =
    let (p, q) = subst (λ p. Eldest p (s.pc b) (s.pc c)) e h.eldest in
    record {
      eldest = (tt, q);
      with_b2 = subst (λ p. WithChild b2 p (s.pc b2)) e' h.with_b2;
      with_c2 = h.with_c2;
    }
Step-Wf {s} (fork_c e e') h =
    let (p, q) = subst (λ p. Eldest p (s.pc b) (s.pc c)) e h.eldest in
    record {
      eldest = (p, tt);
      with_b2 = h.with_b2;
      with_c2 = subst (λ p. WithChild c2 p (s.pc c2)) e' h.with_c2;
    }
Step-Wf {s} (fork_b2 e e') h = record {
  eldest = b_moves (s.pc a) (s.pc b) (waits b2) (s.pc c) (is Busy e tt) tt h.eldest;
  with_b2 = (refl, tt);
  with_c2 = h.with_c2;
}
Step-Wf {s} (fork_c2 e e') h = record {
  eldest = c_moves (s.pc a) (s.pc b) (s.pc c) (waits c2) (is Busy e tt) tt h.eldest;
  with_b2 = h.with_b2;
  with_c2 = (refl, tt);
}
Step-Wf {s} (reap i j e e') h = reap-Wf s.pc i j e e' h
Step-Wf {s} (seek i e) h = seek-Wf s.pc i (length s.file) e h
Step-Wf {s} (write i offset e) h = write-Wf s.pc i offset e h

pub Run-Wf : {file : List ℕ} {t : State} {n : ℕ} → Run (started file) n t → Wf t.pc
Run-Wf here = record { eldest = (refl, refl); with_b2 = refl; with_c2 = refl }
Run-Wf (later r st) = Step-Wf st (Run-Wf r)
