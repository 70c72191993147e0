-- ===== src/Pipes/Mains.antt =====
-- `main` of 8.1-Pipeline and of 8.2-FIFO up to the loops of the two processes, and the handlers of their
-- signals. The name of the FIFO in the file system is the kernel's, so a parameter: `FifoFiles`.
use linux_programing_n_syste.Common.{
  ap, ◌∙◌, ◌≤◌, arith, ℕ, ◌≡◌, refl, Bool, true, false, if◌then◌else◌,
}
use linux_programing_n_syste.Common.Int.{ℤ, pos, success}

abbrev pub exit_failure : ℤ
exit_failure = pos 1

-- What `fork` answers: -1, 0 in the child, or the child's ID in the parent.
pub data Forked : Type 0 where
  fails : Forked
  in_child : Forked
  in_parent : ℕ → Forked

-- The ends of the pipe that a process has open.
pub record Ends : Type 0 where
  pub reads : Bool
  pub writes : Bool

-- The answers to one process of 8.1; `sigchld_failed` is about `signal(SIGCHLD, wait_child)`.
pub record Answers : Type 0 where
  pub signal_failed : Bool
  pub pipe_failed : Bool
  pub fork : Forked
  pub close_failed : Bool
  pub sigchld_failed : Bool

-- A process of 8.1 comes to its loop with some ends open, or ends before, when all are closed.
pub data Process : Type 0 where
  parent_loop : Ends → Process
  child_loop : Ends → Process
  exited : ℤ → Process

abbrev both : Ends
both = record { reads = true; writes = true }

-- Behind `fork`. The parent asks for SIGCHLD at the start of each round, the child not at all.
unfoldable pub pipeline_forked : Answers → Forked → Process
pipeline_forked a fails = exited exit_failure
pipeline_forked a in_child =
    if a.close_failed then exited exit_failure else child_loop (record both { writes = false })
pipeline_forked a (in_parent child) =
    if a.close_failed
    then exited exit_failure
    else if a.sigchld_failed
    then exited exit_failure
    else parent_loop (record both { reads = false })

unfoldable pub pipeline_main : Answers → Process
unfolding pipeline_forked
pipeline_main a =
    if a.signal_failed
    then exited exit_failure
    else if a.pipe_failed
    then exited exit_failure
    else pipeline_forked a a.fork

-- `mkfifo` makes the name, and says whether it fails.
pub record FifoFiles : Type 1 where
  pub State : Type 0
  pub is_there : State → Bool
  pub mkfifo : State → Bool × State
  pub unlink : State → State

-- In a directory that can be written to, `mkfifo` fails only where the name is there, and leaves it.
pub record Documented (k : FifoFiles) : Type 0 where
  pub mkfifo_there : (f : k.State) → k.is_there (k.mkfifo f).1 ≡ true
  pub unlink_there : (f : k.State) → k.is_there (k.unlink f) ≡ false

-- The answers to one process of 8.2.
pub record FifoAnswers : Type 0 where
  pub signal_failed : Bool
  pub fork : Forked
  pub sigchld_failed : Bool

module _ (k : FifoFiles) where
  -- A process of 8.2 comes to its `open` and its loop, or ends before.
  pub data FifoProcess : Type 0 where
    parent_opens : k.State → FifoProcess
    child_opens : k.State → FifoProcess
    ended : ℤ → k.State → FifoProcess

  unfoldable pub fifo_forked : FifoAnswers → Forked → k.State → FifoProcess
  fifo_forked a fails f = ended exit_failure f
  fifo_forked a in_child f = child_opens f
  fifo_forked a (in_parent child) f =
      if a.sigchld_failed then ended exit_failure f else parent_opens f

  -- A failed `mkfifo` is only reported.
  unfoldable pub fifo_main : FifoAnswers → k.State → FifoProcess
  unfolding fifo_forked
  fifo_main a f =
      if a.signal_failed then ended exit_failure f else fifo_forked a a.fork (k.mkfifo f).1

  -- The handlers of 8.2, in the process that the signal comes to: `sig_handler1` for SIGINT, and
  -- `wait_child` for SIGCHLD, which waits for the child.
  unfoldable pub sig_handler1 : k.State → FifoProcess
  sig_handler1 f = ended success (k.unlink f)

  unfoldable pub wait_child : k.State → FifoProcess
  wait_child f = ended success f

abbrev pub number : Bool → ℕ
number true = 1
number false = 0

-- How many read ends and write ends of the pipe a process has open.
abbrev pub read_ends : Process → ℕ
read_ends (parent_loop e) = number e.reads
read_ends (child_loop e) = number e.reads
read_ends (exited status) = 0

abbrev pub write_ends : Process → ℕ
write_ends (parent_loop e) = number e.writes
write_ends (child_loop e) = number e.writes
write_ends (exited status) = 0

-- Whatever fails, behind `fork` the parent never has a read end open, nor the child a write end: so the
-- child comes to the end of the pipe as soon as the parent has ended.
pub ends_apart :
    (p c : Answers) (child : ℕ)
    → p.fork ≡ in_parent child
    → c.fork ≡ in_child
    → (read_ends (pipeline_main p) ≡ 0)
      × (write_ends (pipeline_main c) ≡ 0)
      × (read_ends (pipeline_main c) ≤ 1)
      × (write_ends (pipeline_main p) ≤ 1)
unfolding pipeline_main
ends_apart p c child e f = ground arith

-- A FIFO that a former run has left does not keep a new one from its loops, nor does a name that is gone:
-- both processes come to `open`, and the name is there.
pub fifo_starts_anyway :
    (k : FifoFiles) (doc : Documented k) (p c : FifoAnswers) (child : ℕ) (f : k.State)
    → p.signal_failed ≡ false
    → c.signal_failed ≡ false
    → p.sigchld_failed ≡ false
    → p.fork ≡ in_parent child
    → c.fork ≡ in_child
    → (g : k.State) × (fifo_main k p f ≡ parent_opens g)
      × (fifo_main k c f ≡ child_opens g)
      × (k.is_there g ≡ true)
unfolding fifo_main
fifo_starts_anyway k doc p c child f signal signal' sigchld e e' = (
  (k.mkfifo f).1,
  rw signal (ap (λ x. fifo_forked k p x (k.mkfifo f).1) e ∙ rw sigchld refl),
  rw signal' (ap (λ x. fifo_forked k c x (k.mkfifo f).1) e'),
  doc.mkfifo_there f,
)
