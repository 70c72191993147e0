-- ===== src/WaitChild.antt =====
-- Linux-Programing-N-System/4-Process-Management/4.1-waitpid/main.c: a parent waits for its child and
-- prints how that ended. The macros on a status belong to the C library, so they are parameters.
use linux_programing_n_syste.Common.{ℕ, Bool, if◌then◌else◌, List, [], ◌∷◌, ◌++◌}
use linux_programing_n_syste.Common.Int.{ℤ, pos, minus_one}

pub record Macros : Type 0 where
  pub wifexited : ℕ → Bool
  pub wexitstatus : ℕ → ℕ
  pub wifsignaled : ℕ → Bool
  pub wtermsig : ℕ → ℕ
  pub wcoredump : ℕ → Bool
  pub wifstopped : ℕ → Bool
  pub wstopsig : ℕ → ℕ
  pub wifcontinued : ℕ → Bool

pub data Line : Type 0 where
  error_fork this_is_child this_is_father end_of_child error_wait continued : Line
  child_pid : ℕ → Line
  childpid : ℕ → Line
  parent_pid : ℕ → Line
  pid : ℤ → Line
  normal_termination : ℕ → Line
  killed : ℕ → Bool → Line
  stopped : ℕ → Line

-- What `fork` returns: -1, or 0 in the child, or the child's ID in the parent.
pub data Forked : Type 0 where
  fails : Forked
  in_child : Forked
  in_parent : ℕ → Forked

-- What `waitpid` returns: -1, and then it stores nothing, or an ID and a status.
pub data Waited : Type 0 where
  wait_fails : Waited
  waited : ℕ → ℕ → Waited

module _ (m : Macros) where
  -- The four tests on the status.
  unfoldable pub print_status : ℕ → List Line
  print_status status =
      (if m.wifexited status then normal_termination (m.wexitstatus status) ∷ [] else [])
      ++ ((if m.wifsignaled status
            then killed (m.wtermsig status) (m.wcoredump status) ∷ []
            else [])
          ++ ((if m.wifstopped status then stopped (m.wstopsig status) ∷ [] else [])
              ++ (if m.wifcontinued status then continued ∷ [] else [])))

  -- Behind `waitpid`, where `held` stands in the memory of `status` at first.
  unfoldable pub after_wait : ℕ → Waited → List Line
  unfolding print_status
  after_wait held wait_fails = end_of_child ∷ error_wait ∷ pid minus_one ∷ print_status held
  after_wait held (waited p status) = end_of_child ∷ pid (pos p) ∷ print_status status

  -- `main` of the process with the ID `getpid`, and what it prints.
  unfoldable pub main : ℕ → ℕ → Forked → Waited → List Line
  unfolding after_wait
  main getpid held fails w = error_fork ∷ []
  main getpid held in_child w = this_is_child ∷ child_pid getpid ∷ []
  main getpid held (in_parent child) w =
      this_is_father ∷ childpid child ∷ parent_pid getpid ∷ after_wait held w
