-- ===== src/Processes/Ending.antt =====
-- 4.2-child-process-management ends: no run of its five processes goes on for ever or gets stuck.
use linux_programing_n_syste.Common.{
  ℕ, zero, suc, ◌+◌, ◌<◌, ◌≡◌, ◌⊎◌, inl, inr, refl, ap, subst, ◌∙◌, arith, List,
}
use linux_programing_n_syste.Processes.{
  Process, a, b, b2, c, c2, Pc, unborn, forking, waits, seeks, writes, exited, State, Step, fork_b,
  fork_c, fork_b2, fork_c2, reap, seek, write, Run, started,
}
use linux_programing_n_syste.Processes.Family.{Alive, Working, WithChild, Eldest, Wf}
use linux_programing_n_syste.Processes.FamilySteps.{Run-Wf}
use linux_programing_n_syste.Processes.Counting.{left, left_for, Step-left, Run-left}

-- Some process can go on.
abbrev pub CanStep : State → Type 0
CanStep s = (t : State) × Step s t

working_goes_on :
    (s : State) (i : Process) (p : Pc) → s.pc i ≡ p → Working p → (p ≡ exited) ⊎ CanStep s
working_goes_on s i seeks e h = inr (_, seek i e)
working_goes_on s i (writes offset) e h = inr (_, write i offset e)
working_goes_on s i exited e h = inl refl
working_goes_on s i unborn e h = absurd h
working_goes_on s i (forking _) e h = absurd h
working_goes_on s i (waits _) e h = absurd h

-- A process that waits for a child can go on, or the child can.
wait_goes_on :
    (s : State) (i j : Process) → s.pc i ≡ waits j → (s.pc j ≡ exited) ⊎ CanStep s → CanStep s
wait_goes_on s i j e (inl e') = (_, reap i j e e')
wait_goes_on s i j e (inr go) = go

b_goes_on :
    (s : State) (p : Pc)
    → s.pc b ≡ p
    → Alive p
    → WithChild b2 p (s.pc b2)
    → (p ≡ exited) ⊎ CanStep s
b_goes_on s unborn e h w = absurd h
b_goes_on s (forking zero) e h w = inr (_, fork_b2 e w)
b_goes_on s (forking (suc _)) e h w = absurd w
b_goes_on s (waits j) e h (k, w) =
    inr (wait_goes_on s b b2 (e ∙ ap waits k) (working_goes_on s b2 (s.pc b2) refl w))
b_goes_on s seeks e h w = inr (_, seek b e)
b_goes_on s (writes offset) e h w = inr (_, write b offset e)
b_goes_on s exited e h w = inl refl

c_goes_on :
    (s : State) (p : Pc)
    → s.pc c ≡ p
    → Alive p
    → WithChild c2 p (s.pc c2)
    → (p ≡ exited) ⊎ CanStep s
c_goes_on s unborn e h w = absurd h
c_goes_on s (forking zero) e h w = inr (_, fork_c2 e w)
c_goes_on s (forking (suc _)) e h w = absurd w
c_goes_on s (waits j) e h (k, w) =
    inr (wait_goes_on s c c2 (e ∙ ap waits k) (working_goes_on s c2 (s.pc c2) refl w))
c_goes_on s seeks e h w = inr (_, seek c e)
c_goes_on s (writes offset) e h w = inr (_, write c offset e)
c_goes_on s exited e h w = inl refl

a_goes_on :
    (s : State) (p : Pc)
    → s.pc a ≡ p
    → Eldest p (s.pc b) (s.pc c)
    → Wf s.pc
    → (p ≡ exited) ⊎ CanStep s
a_goes_on s (forking zero) e (eb, ec) h = inr (_, fork_b e eb)
a_goes_on s (forking (suc zero)) e (eb, ec) h = inr (_, fork_c e ec)
a_goes_on s (forking (suc (suc _))) e w h = absurd w
a_goes_on s (waits b) e (hb, hc) h =
    inr (wait_goes_on s a b e (b_goes_on s (s.pc b) refl hb h.with_b2))
a_goes_on s (waits c) e (eb, hc) h =
    inr (wait_goes_on s a c e (c_goes_on s (s.pc c) refl hc h.with_c2))
a_goes_on s (waits a) e w h = absurd w
a_goes_on s (waits b2) e w h = absurd w
a_goes_on s (waits c2) e w h = absurd w
a_goes_on s seeks e w h = inr (_, seek a e)
a_goes_on s (writes offset) e w h = inr (_, write a offset e)
a_goes_on s exited e w h = inl refl
a_goes_on s unborn e w h = absurd w

-- Every process has ended.
abbrev pub AllEnded : (Process → Pc) → Type 0
AllEnded pc = (i : Process) → pc i ≡ exited

pub all_of :
    (pc : Process → Pc)
    → pc a ≡ exited
    → pc b ≡ exited
    → pc b2 ≡ exited
    → pc c ≡ exited
    → pc c2 ≡ exited
    → AllEnded pc
all_of pc ea eb eb2 ec ec2 a = ea
all_of pc ea eb eb2 ec ec2 b = eb
all_of pc ea eb eb2 ec ec2 b2 = eb2
all_of pc ea eb eb2 ec ec2 c = ec
all_of pc ea eb eb2 ec ec2 c2 = ec2

all_ended : (pc : Process → Pc) → pc a ≡ exited → Wf pc → AllEnded pc
all_ended pc e h =
    let (eb, ec) = subst (λ p. Eldest p (pc b) (pc c)) e h.eldest in
    all_of pc e eb (subst (λ p. WithChild b2 p (pc b2)) eb h.with_b2) ec
      (subst (λ p. WithChild c2 p (pc c2)) ec h.with_c2)

left-AllEnded : (pc : Process → Pc) → AllEnded pc → left pc ≡ 0
unfolding left left_for
left-AllEnded pc h = rw (h a) (rw (h b) (rw (h b2) (rw (h c) (rw (h c2) refl))))

left-started : (file : List ℕ) → left (started file).pc ≡ 18
unfolding left left_for
left-started file = refl

left-CanStep : {s : State} → CanStep s → (t : State) × Step s t × (left t.pc + 1 ≡ left s.pc)
left-CanStep (t, st) = (t, st, Step-left st)

-- Every run of the five processes comes to its end after 18 steps, whatever order they run in: it has
-- no more steps, with 18 of them every process has ended, and with fewer some process can go on.
pub ends_after_18 :
    {file : List ℕ} {t : State} {n : ℕ}
    → Run (started file) n t
    → (AllEnded t.pc × (n ≡ 18)) ⊎ ((n < 18) × CanStep t)
ends_after_18 {file} {t} {n} r =
    let wf = Run-Wf r in
    let count : left t.pc + n ≡ 18 = Run-left r ∙ left-started file in
    elim (a_goes_on t (t.pc a) refl wf.eldest wf) [
      | inl e ↦
          let ended = all_ended t.pc e wf in
          inl (ended, omega (arith, count, left-AllEnded t.pc ended))
      | inr go ↦ inr (omega (arith, count, (left-CanStep go).2), go)
    ]
