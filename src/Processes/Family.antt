-- ===== src/Processes/Family.antt =====
-- The order that the waits of 4.2-child-process-management keep between a process and its children.
use linux_programing_n_syste.Common.{zero, suc, ◌≡◌, sym, subst}
use linux_programing_n_syste.Processes.{
  Process, a, b, b2, c, c2, Pc, unborn, forking, waits, seeks, writes, exited,
}

-- A process that is there, one that has forked its children, and one of these that has not ended.
abbrev pub Alive : Pc → Type 0
Alive unborn = ⊥
Alive _ = Unit

abbrev pub Working : Pc → Type 0
Working seeks = Unit
Working (writes _) = Unit
Working exited = Unit
Working _ = ⊥

abbrev pub Busy : Pc → Type 0
Busy unborn = ⊥
Busy exited = ⊥
Busy _ = Unit

-- What B does, and what B' does meanwhile; C and C' likewise.
abbrev pub WithChild : Process → Pc → Pc → Type 0
WithChild child unborn p = p ≡ unborn
WithChild child (forking zero) p = p ≡ unborn
WithChild child (forking (suc _)) p = ⊥
WithChild child (waits j) p = (j ≡ child) × Working p
WithChild child _ p = p ≡ exited

-- What A does, and what B and C do meanwhile.
abbrev pub Eldest : Pc → Pc → Pc → Type 0
Eldest (forking zero) pb pc = (pb ≡ unborn) × (pc ≡ unborn)
Eldest (forking (suc zero)) pb pc = Alive pb × (pc ≡ unborn)
Eldest (waits b) pb pc = Alive pb × Alive pc
Eldest seeks pb pc = (pb ≡ exited) × Alive pc
Eldest (writes _) pb pc = (pb ≡ exited) × Alive pc
Eldest (waits c) pb pc = (pb ≡ exited) × Alive pc
Eldest exited pb pc = (pb ≡ exited) × (pc ≡ exited)
Eldest _ pb pc = ⊥

pub record Wf (pc : Process → Pc) : Type 0 where
  pub eldest : Eldest (pc a) (pc b) (pc c)
  pub with_b2 : WithChild b2 (pc b) (pc b2)
  pub with_c2 : WithChild c2 (pc c) (pc c2)

Busy-unborn : {p : Pc} → Busy p → p ≡ unborn → ⊥
Busy-unborn h e = subst Busy e h

Busy-exited : {p : Pc} → Busy p → p ≡ exited → ⊥
Busy-exited h e = subst Busy e h

-- B, or C, moves on, and A's state does not depend on it.
pub b_moves : (pa pb p pc : Pc) → Busy pb → Alive p → Eldest pa pb pc → Eldest pa p pc
b_moves (forking zero) pb p pc h h' (e, e') = absurd (Busy-unborn h e)
b_moves (forking (suc zero)) pb p pc h h' (e, e') = (h', e')
b_moves (forking (suc (suc _))) pb p pc h h' e = e
b_moves (waits a) pb p pc h h' e = e
b_moves (waits b) pb p pc h h' (e, e') = (h', e')
b_moves (waits b2) pb p pc h h' e = e
b_moves (waits c) pb p pc h h' (e, e') = absurd (Busy-exited h e)
b_moves (waits c2) pb p pc h h' e = e
b_moves seeks pb p pc h h' (e, e') = absurd (Busy-exited h e)
b_moves (writes _) pb p pc h h' (e, e') = absurd (Busy-exited h e)
b_moves exited pb p pc h h' (e, e') = absurd (Busy-exited h e)
b_moves unborn pb p pc h h' e = e

pub c_moves : (pa pb pc p : Pc) → Busy pc → Alive p → Eldest pa pb pc → Eldest pa pb p
c_moves (forking zero) pb pc p h h' (e, e') = absurd (Busy-unborn h e')
c_moves (forking (suc zero)) pb pc p h h' (e, e') = absurd (Busy-unborn h e')
c_moves (forking (suc (suc _))) pb pc p h h' e = e
c_moves (waits a) pb pc p h h' e = e
c_moves (waits b) pb pc p h h' (e, e') = (e, h')
c_moves (waits b2) pb pc p h h' e = e
c_moves (waits c) pb pc p h h' (e, e') = (e, h')
c_moves (waits c2) pb pc p h h' e = e
c_moves seeks pb pc p h h' (e, e') = (e, h')
c_moves (writes _) pb pc p h h' (e, e') = (e, h')
c_moves exited pb pc p h h' (e, e') = absurd (Busy-exited h e')
c_moves unborn pb pc p h h' e = e

pub child_moves :
    (child : Process) (p q q' : Pc)
    → Busy q
    → Working q'
    → WithChild child p q
    → WithChild child p q'
child_moves child unborn q q' h h' e = absurd (Busy-unborn h e)
child_moves child (forking zero) q q' h h' e = absurd (Busy-unborn h e)
child_moves child (forking (suc _)) q q' h h' e = e
child_moves child (waits j) q q' h h' (e, e') = (e, h')
child_moves child seeks q q' h h' e = absurd (Busy-exited h e)
child_moves child (writes _) q q' h h' e = absurd (Busy-exited h e)
child_moves child exited q q' h h' e = absurd (Busy-exited h e)

pub is : (P : Pc → Type 0) {p q : Pc} → p ≡ q → P q → P p
is P e h = subst P (sym e) h
