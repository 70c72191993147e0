-- ===== src/SharedMemory/Anonymous.antt =====
-- Linux-Programing-N-System/9-shared-memory/Posix-shared-memory/anonymous-mapping/main.c: a parent and
-- its child over a shared anonymous mapping. The parent waits for the child before it reads, and the
-- wait succeeds.
use linux_programing_n_syste.Common.{
  ℕ, ◌-◌, ◌≡◌, refl, Option, none, some, List, [], ◌∷◌, ◌++◌, length, drop, replicate, overlay,
}
use linux_programing_n_syste.Common.Int.{success}
use linux_programing_n_syste.Common.CString.{c_string}
use linux_programing_n_syste.SharedMemory.{Ends, exits, faults, accessed}

abbrev pub map_size : ℕ
map_size = 4096

abbrev pub hello_world : List ℕ
hello_world =
    b'H' ∷ b'e' ∷ b'l' ∷ b'l' ∷ b'o' ∷ b' ' ∷ b'w' ∷ b'o' ∷ b'r' ∷ b'l' ∷ b'd' ∷ b'!' ∷ b' ' ∷ []

abbrev pub its_hung : List ℕ
its_hung = b'I' ∷ b't' ∷ 39 ∷ b's' ∷ b' ' ∷ b'H' ∷ b'u' ∷ b'n' ∷ b'g' ∷ []

-- `strncpy` of a text shorter than the number of bytes, which fills the rest with NUL.
unfoldable pub strncpy : ℕ → List ℕ → List ℕ → List ℕ
strncpy n text memory = text ++ (replicate (n - length text) 0 ++ drop n memory)

unfoldable pub strcat : List ℕ → List ℕ → List ℕ
strcat memory text = overlay (c_string memory ++ (text ++ (0 ∷ []))) memory

-- What `fork` answers: no child, or a child, and the two processes go on.
pub data Forked : Type 0 where
  fork_fails : Forked
  child_starts : Forked

-- The child: what it prints, and the memory.
unfoldable pub child : List ℕ → List ℕ × List ℕ
unfolding strcat
child memory = (c_string memory, strcat memory its_hung)

-- What the processes print of the memory. A failed `fork` falls through to the child's case.
unfoldable pub after_fork : Forked → List ℕ → Ends (List ℕ)
unfolding child
after_fork fork_fails memory =
    let (printed, memory1) = child memory in exits success (printed ∷ []) memory1
after_fork child_starts memory =
    let (printed, memory1) = child memory in
    exits success (printed ∷ (c_string memory1 ∷ [])) memory1

-- The answers of `mmap`, which is used even where it failed, and of `fork`.
unfoldable pub main : Option (List ℕ) → Forked → Ends (List ℕ)
unfolding strncpy after_fork
main addr forked =
    accessed addr [] λ memory. after_fork forked (strncpy map_size hello_world memory)

abbrev pub texts : Ends (List ℕ) → Option (List (List ℕ))
texts (exits status printed memory) = some printed
texts (faults memory) = none

-- Whatever the mapping holds at first, the child prints the parent's text, and the parent, after its
-- wait, that text with the child's behind it. Where there is no child, the parent prints only its own
-- text, as the child does. Where there is no mapping, the first write faults.
pub main-texts :
    (memory : List ℕ) (forked : Forked)
    → (texts (main (some memory) child_starts)
        ≡ some (hello_world ∷ ((hello_world ++ its_hung) ∷ [])))
      × (texts (main (some memory) fork_fails) ≡ some (hello_world ∷ []))
      × (texts (main none forked) ≡ none)
unfolding main after_fork child strncpy strcat
main-texts memory forked = (refl, refl, refl)
