-- ===== src/SharedMemory/SystemV.antt =====
-- Linux-Programing-N-System/9-shared-memory/systemV-shared-memory: writter.c puts a typed line into a
-- segment, reader.c prints what the segment holds and removes it. Both look for the segment by one key
-- and test no answer.
use linux_programing_n_syste.Common.{
  ℕ, ◌≤◌, ◌≡◌, refl, ap, ◌∙◌, arith, Option, none, some, List, [], ◌∷◌, ◌++◌, length, drop, overlay,
  replicate,
}
use linux_programing_n_syste.Common.Int.{ℤ, success}
use linux_programing_n_syste.Common.CString.{c_string, c_string-append}
use linux_programing_n_syste.Common.Typed.{line, line_lem, Plain, with_newline, Plain-NoNul}
use linux_programing_n_syste.SharedMemory.{Ends, exits, accessed}
use mathlib.Core.List.{append_assoc, append-nil}

abbrev pub segment_size : ℕ
segment_size = 1024

-- The segments of the kernel, and the content of the one that the key names. `store` is a change of
-- the attached memory.
pub record Segments : Type 1 where
  pub State : Type 0
  pub content : State → Option (List ℕ)
  pub shmget : ℕ → State → ℤ × State
  pub shmat : ℤ → State → Option (List ℕ)
  pub store : List ℕ → State → State
  pub remove : State → State

-- The bytes of a segment, or zeros, as `shmget` with IPC_CREAT makes it.
abbrev pub bytes_of : Option (List ℕ) → List ℕ
bytes_of none = replicate segment_size 0
bytes_of (some bytes) = bytes

-- The calls succeed, and do what the manual says.
pub record Working (k : Segments) : Type 0 where
  pub gets : (s : k.State) → k.content (k.shmget segment_size s).1 ≡ some (bytes_of (k.content s))
  pub attaches :
      (s : k.State)
      → k.shmat (k.shmget segment_size s).0 (k.shmget segment_size s).1
        ≡ some (bytes_of (k.content s))
  pub stores : (bytes : List ℕ) (s : k.State) → k.content (k.store bytes s) ≡ some bytes
  pub removes : (s : k.State) → k.content (k.remove s) ≡ none

module _ (k : Segments) where
  -- `fgets(str, 1024, stdin)` into the segment, which keeps its bytes at the end of the input.
  unfoldable pub fgets_into : List ℕ → List ℕ → k.State → k.State
  unfolding line
  fgets_into memory [] s = s
  fgets_into memory (c ∷ cs) s = k.store (overlay (line 1023 (c ∷ cs) ++ (0 ∷ [])) memory) s

  unfoldable pub writter : List ℕ → k.State → Ends k.State
  unfolding fgets_into
  writter stdin s =
      let (shmid, s1) = k.shmget segment_size s in
      accessed (k.shmat shmid s1) s1 λ str. exits success [] (fgets_into str stdin s1)

  unfoldable pub reader : k.State → Ends k.State
  reader s =
      let (shmid, s1) = k.shmget segment_size s in
      accessed (k.shmat shmid s1) s1 λ shmaddr. exits success (c_string shmaddr ∷ []) (k.remove s1)

module _ (k : Segments) (working : Working k) where
  -- What `fgets_into` stores of an input that is not empty.
  stored : List ℕ → List ℕ → k.State → k.State
  stored memory input s = k.store (overlay (line 1023 input ++ (0 ∷ [])) memory) s

  fgets_into-stored :
      (memory text rest : List ℕ) (s : k.State)
      → fgets_into k memory (with_newline text ++ rest) s
        ≡ stored memory (with_newline text ++ rest) s
  unfolding fgets_into stored
  fgets_into-stored memory [] rest s = refl
  fgets_into-stored memory (c ∷ cs) rest s = refl

  fgets_into-with_newline :
      (memory text rest : List ℕ) (s : k.State)
      → Plain text
      → length text ≤ 1022
      → fgets_into k memory (with_newline text ++ rest) s
        ≡ k.store (overlay (with_newline text ++ (0 ∷ [])) memory) s
  unfolding stored
  fgets_into-with_newline memory text rest s h short =
      fgets_into-stored memory text rest s
      ∙ ap (λ typed. k.store (overlay (typed ++ (0 ∷ [])) memory) s)
          (line_lem 1023 text rest h (omega (arith, short)))

  c_string-stored :
      (text memory : List ℕ)
      → Plain text
      → c_string (overlay (with_newline text ++ (0 ∷ [])) memory) ≡ with_newline text
  c_string-stored text memory h =
      rw
        (append_assoc (with_newline text) (0 ∷ [])
          (drop (length (with_newline text ++ (0 ∷ []))) memory))
        (c_string-append (with_newline text) _ (Plain-NoNul text h)
          ∙ append-nil (with_newline text))

  reader_lem :
      (s : k.State) (bytes : List ℕ)
      → k.content s ≡ some bytes
      → (t : k.State) × (reader k s ≡ exits success (c_string bytes ∷ []) t) × (k.content t ≡ none)
  unfolding reader
  reader_lem s bytes e = (
    k.remove (k.shmget segment_size s).1,
    rw (working.attaches s ∙ ap (λ c. some (bytes_of c)) e) refl,
    working.removes (k.shmget segment_size s).1,
  )

  -- Where the calls succeed, the reader prints the line that was typed to the writer, of at most 1022
  -- characters before its newline, whatever the segment held before, and then the segment is removed.
  -- Without a writer before it, the reader makes a segment itself and prints an empty text.
  pub writter-reader :
      (text rest : List ℕ) (s r : k.State)
      → Plain text
      → length text ≤ 1022
      → k.content r ≡ none
      → (t u v : k.State) × (writter k (with_newline text ++ rest) s ≡ exits success [] t)
        × (reader k t ≡ exits success (with_newline text ∷ []) u)
        × (k.content u ≡ none)
        × (reader k r ≡ exits success ([] ∷ []) v)
        × (k.content v ≡ none)
  unfolding writter reader
  writter-reader text rest s r h short missing =
      let memory = bytes_of (k.content s) in
      let after = overlay (with_newline text ++ (0 ∷ [])) memory in
      let t = k.store after (k.shmget segment_size s).1 in
      let (u, reads, gone) =
        reader_lem t after (working.stores after (k.shmget segment_size s).1) in
      (
        t,
        u,
        k.remove (k.shmget segment_size r).1,
        rw (working.attaches s) (
            rw (fgets_into-with_newline memory text rest (k.shmget segment_size s).1 h short) refl),
        reads ∙ ap (λ shown. exits success (shown ∷ []) u) (c_string-stored text memory h),
        gone,
        rw (working.attaches r) (rw missing refl),
        working.removes (k.shmget segment_size r).1,
      )
