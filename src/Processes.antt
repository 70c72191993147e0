-- ===== src/Processes.antt =====
-- Linux-Programing-N-System/4-Process-Management/4.2-child-process-management/main.c: a process A with
-- two children B and C, which have a child each, B' and C'. Each process appends its line to one file,
-- by a seek to the end and then a write, and a parent waits for a child before it does. The processes
-- run in any order. `fork`, `open` and the calls on the file succeed.
pub mod Family
pub mod FamilySteps
pub mod ChildrenFirst
pub mod Counting
pub mod Contents
pub mod Race
pub mod Ending
pub mod Zombies
mod Examples
use linux_programing_n_syste.Common.{
  ℕ, zero, suc, ◌+◌, ◌≡◌, Bool, true, false, if◌then◌else◌, List, [], ◌∷◌, ◌++◌, length, take, drop,
}

pub data Process : Type 0 where
  a b b2 c c2 : Process

-- What a process does next: fork, with the number of children that it has forked, wait for a child,
-- seek, write at the offset that it sought, or nothing.
pub data Pc : Type 0 where
  unborn : Pc
  forking : ℕ → Pc
  waits : Process → Pc
  seeks : Pc
  writes : ℕ → Pc
  exited : Pc

-- What each process appends.
unfoldable pub line : Process → List ℕ
line b2 =
    b'H' ∷ b'i' ∷ b' ' ∷ b'I' ∷ 39 ∷ b'm' ∷ b' ' ∷ b'B' ∷ 39 ∷ b' ' ∷ b'p' ∷ b'r' ∷ b'o' ∷ b'c'
    ∷ b'e' ∷ b's' ∷ b's' ∷ 10 ∷ []
line b =
    b'H' ∷ b'i' ∷ b' ' ∷ b'I' ∷ 39 ∷ b'm' ∷ b' ' ∷ b'B' ∷ b' ' ∷ b'p' ∷ b'r' ∷ b'o' ∷ b'c' ∷ b'e'
    ∷ b's' ∷ b's' ∷ 10 ∷ []
line c2 =
    b'H' ∷ b'i' ∷ b' ' ∷ b'I' ∷ 39 ∷ b'm' ∷ b' ' ∷ b'C' ∷ 39 ∷ b' ' ∷ b'p' ∷ b'r' ∷ b'o' ∷ b'c'
    ∷ b'e' ∷ b's' ∷ b's' ∷ 10 ∷ []
line c =
    b'H' ∷ b'i' ∷ b' ' ∷ b'I' ∷ 39 ∷ b'm' ∷ b' ' ∷ b'C' ∷ b' ' ∷ b'p' ∷ b'r' ∷ b'o' ∷ b'c' ∷ b'e'
    ∷ b's' ∷ b's' ∷ 10 ∷ []
line a =
    b'H' ∷ b'i' ∷ b' ' ∷ b'I' ∷ 39 ∷ b'm' ∷ b' ' ∷ b'A' ∷ b' ' ∷ b'p' ∷ b'r' ∷ b'o' ∷ b'c' ∷ b'e'
    ∷ b's' ∷ b's' ∷ 10 ∷ []

pub record State : Type 0 where
  pub pc : Process → Pc
  pub file : List ℕ

abbrev pub same : Process → Process → Bool
same a a = true
same b b = true
same b2 b2 = true
same c c = true
same c2 c2 = true
same _ _ = false

abbrev pub update : (Process → Pc) → Process → Pc → Process → Pc
update f i p j = if same i j then p else f j

-- `write` at an offset of the file.
abbrev pub write_at : ℕ → List ℕ → List ℕ → List ℕ
write_at offset text file = take offset file ++ (text ++ drop (offset + length text) file)

-- After a wait: A appends its line after it has waited for B, and ends after it has waited for C.
abbrev pub after_wait : Process → Process → Pc
after_wait a b = seeks
after_wait a _ = exited
after_wait _ _ = seeks

abbrev pub after_write : Process → Pc
after_write a = waits c
after_write _ = exited

-- `fork` makes a process that was not there.
pub data Step (s : State) : State → Type 0 where
  fork_b :
      s.pc a ≡ forking 0
      → s.pc b ≡ unborn
      → Step s (record s { pc = update (update s.pc a (forking 1)) b (forking 0) })
  fork_c :
      s.pc a ≡ forking 1
      → s.pc c ≡ unborn
      → Step s (record s { pc = update (update s.pc a (waits b)) c (forking 0) })
  fork_b2 :
      s.pc b ≡ forking 0
      → s.pc b2 ≡ unborn
      → Step s (record s { pc = update (update s.pc b (waits b2)) b2 seeks })
  fork_c2 :
      s.pc c ≡ forking 0
      → s.pc c2 ≡ unborn
      → Step s (record s { pc = update (update s.pc c (waits c2)) c2 seeks })
  reap :
      (i j : Process)
      → s.pc i ≡ waits j
      → s.pc j ≡ exited
      → Step s (record s { pc = update s.pc i (after_wait i j) })
  seek :
      (i : Process)
      → s.pc i ≡ seeks
      → Step s (record s { pc = update s.pc i (writes (length s.file)) })
  write :
      (i : Process) (offset : ℕ)
      → s.pc i ≡ writes offset
      → Step s
          (record { pc = update s.pc i (after_write i); file = write_at offset (line i) s.file })

-- A run of a number of steps.
pub data Run (s : State) : ℕ → State → Type 0 where
  here : Run s 0 s
  later : {n : ℕ} {t u : State} → Run s n t → Step t u → Run s (suc n) u

abbrev pub only_a : Process → Pc
only_a a = forking 0
only_a _ = unborn

-- As `main` begins, with what stands in the file.
abbrev pub started : List ℕ → State
started file = record { pc = only_a; file = file }
