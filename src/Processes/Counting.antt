-- ===== src/Processes/Counting.antt =====
-- How many steps the five processes of 4.2-child-process-management take.
use linux_programing_n_syste.Common.{ℕ, zero, suc, ◌+◌, ◌≡◌, refl, ap, arith, length}
use linux_programing_n_syste.Processes.{
  Process, a, b, b2, c, c2, Pc, unborn, forking, waits, seeks, writes, exited, State, Step, fork_b,
  fork_c, fork_b2, fork_c2, reap, seek, write, Run, here, later, update, after_wait, after_write,
}

-- The steps that a process still has to take.
unfoldable pub left_for : Process → Pc → ℕ
left_for a (forking zero) = 6
left_for a (forking (suc _)) = 5
left_for a (waits b) = 4
left_for a seeks = 3
left_for a (writes _) = 2
left_for a (waits _) = 1
left_for a exited = 0
left_for a unborn = 6
left_for b2 (waits _) = 3
left_for b2 (writes _) = 1
left_for b2 exited = 0
left_for b2 _ = 2
left_for c2 (waits _) = 3
left_for c2 (writes _) = 1
left_for c2 exited = 0
left_for c2 _ = 2
left_for _ (waits _) = 3
left_for _ seeks = 2
left_for _ (writes _) = 1
left_for _ exited = 0
left_for _ _ = 4

unfoldable pub left : (Process → Pc) → ℕ
unfolding left_for
left pc =
    left_for a (pc a)
    + left_for b (pc b)
    + left_for b2 (pc b2)
    + left_for c (pc c)
    + left_for c2 (pc c2)

-- A process that moves on alone, by one step of its own.
left-update :
    (pc : Process → Pc) (i : Process) (p q : Pc)
    → pc i ≡ p
    → left_for i q + 1 ≡ left_for i p
    → left (update pc i q) + 1 ≡ left pc
unfolding left
left-update pc a p q e h = omega (arith, ap (left_for a) e)
left-update pc b p q e h = omega (arith, ap (left_for b) e)
left-update pc b2 p q e h = omega (arith, ap (left_for b2) e)
left-update pc c p q e h = omega (arith, ap (left_for c) e)
left-update pc c2 p q e h = omega (arith, ap (left_for c2) e)

left-writes : (i : Process) (n : ℕ) → left_for i (writes n) + 1 ≡ left_for i seeks
unfolding left_for
left-writes a n = refl
left-writes b n = refl
left-writes b2 n = refl
left-writes c n = refl
left-writes c2 n = refl

left-after_write : (i : Process) (n : ℕ) → left_for i (after_write i) + 1 ≡ left_for i (writes n)
unfolding left_for
left-after_write a n = refl
left-after_write b n = refl
left-after_write b2 n = refl
left-after_write c n = refl
left-after_write c2 n = refl

left-after_wait : (i j : Process) → left_for i (after_wait i j) + 1 ≡ left_for i (waits j)
unfolding left_for
left-after_wait a b = refl
left-after_wait a a = refl
left-after_wait a b2 = refl
left-after_wait a c = refl
left-after_wait a c2 = refl
left-after_wait b j = refl
left-after_wait b2 j = refl
left-after_wait c j = refl
left-after_wait c2 j = refl

-- A step of any process is one of the steps that were left.
pub Step-left : {s t : State} → Step s t → left t.pc + 1 ≡ left s.pc
unfolding left left_for
Step-left (fork_b e e') = omega (arith, ap (left_for a) e, ap (left_for b) e')
Step-left (fork_c e e') = omega (arith, ap (left_for a) e, ap (left_for c) e')
Step-left (fork_b2 e e') = omega (arith, ap (left_for b) e, ap (left_for b2) e')
Step-left (fork_c2 e e') = omega (arith, ap (left_for c) e, ap (left_for c2) e')
Step-left {s} (reap i j e e') =
    left-update s.pc i (waits j) (after_wait i j) e (left-after_wait i j)
Step-left {s} (seek i e) =
    left-update s.pc i seeks (writes (length s.file)) e (left-writes i (length s.file))
Step-left {s} (write i offset e) =
    left-update s.pc i (writes offset) (after_write i) e (left-after_write i offset)

pub Run-left : {s t : State} {n : ℕ} → Run s n t → left t.pc + n ≡ left s.pc
Run-left here = omega arith
Run-left (later r st) = omega (arith, Run-left r, Step-left st)
