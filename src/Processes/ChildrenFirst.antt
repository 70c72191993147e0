-- ===== src/Processes/ChildrenFirst.antt =====
-- Which processes of 4.2-child-process-management have ended when another one writes.
use linux_programing_n_syste.Common.{ℕ, ◌≡◌, subst, List, [], ◌∷◌}
use linux_programing_n_syste.Processes.{
  Process, a, b, b2, c, c2, Pc, unborn, forking, waits, seeks, writes, exited, State, Run, started,
}
use linux_programing_n_syste.Processes.Family.{WithChild, Eldest, is}
use linux_programing_n_syste.Processes.FamilySteps.{Run-Wf}

-- The processes that end before a process appends its line.
abbrev pub awaited : Process → List Process
awaited a = b ∷ b2 ∷ []
awaited b = b2 ∷ []
awaited c = c2 ∷ []
awaited _ = []

abbrev pub Appending : Pc → Type 0
Appending seeks = Unit
Appending (writes _) = Unit
Appending _ = ⊥

abbrev pub AllExited : (Process → Pc) → List Process → Type 0
AllExited pc [] = Unit
AllExited pc (i ∷ is) = (pc i ≡ exited) × AllExited pc is

Appending-child : (child : Process) (p q : Pc) → Appending p → WithChild child p q → q ≡ exited
Appending-child child seeks q h e = e
Appending-child child (writes _) q h e = e
Appending-child child unborn q h e = absurd h
Appending-child child (forking _) q h e = absurd h
Appending-child child (waits _) q h e = absurd h
Appending-child child exited q h e = absurd h

exited_child : (child : Process) (p q : Pc) → p ≡ exited → WithChild child p q → q ≡ exited
exited_child child p q e h = subst (λ p. WithChild child p q) e h

Appending-Eldest : (pa pb pc : Pc) → Appending pa → Eldest pa pb pc → pb ≡ exited
Appending-Eldest seeks pb pc h (e, e') = e
Appending-Eldest (writes _) pb pc h (e, e') = e
Appending-Eldest unborn pb pc h e = absurd h
Appending-Eldest (forking _) pb pc h e = absurd h
Appending-Eldest (waits _) pb pc h e = absurd h
Appending-Eldest exited pb pc h e = absurd h

-- Whatever order the five processes run in, when one of them seeks or writes, those that it waits for
-- have ended: B' before B, C' before C, and B and B' before A.
pub children_first :
    {file : List ℕ} {t : State} {n : ℕ} (i : Process)
    → Run (started file) n t
    → Appending (t.pc i)
    → AllExited t.pc (awaited i)
children_first {t = t} a r h =
    let wf = Run-Wf r in
    let e = Appending-Eldest (t.pc a) (t.pc b) (t.pc c) h wf.eldest in
    (e, (exited_child b2 (t.pc b) (t.pc b2) e wf.with_b2, tt))
children_first {t = t} b r h = (Appending-child b2 (t.pc b) (t.pc b2) h (Run-Wf r).with_b2, tt)
children_first b2 r h = tt
children_first {t = t} c r h = (Appending-child c2 (t.pc c) (t.pc c2) h (Run-Wf r).with_c2, tt)
children_first c2 r h = tt
