-- ===== src/SharedMemory.antt =====
-- Linux-Programing-N-System/9-shared-memory: programs that pass a text through memory of the kernel.
-- The shared memory objects of the kernel are a parameter: `Objects` is what the programs do with the
-- object of one name, `Documented` what the manual says of it, and `Working` that no call fails.
pub mod Posix
pub mod Anonymous
pub mod SystemV
mod Examples
use linux_programing_n_syste.Common.{
  ℕ, ◌≤◌, length, ◌≡◌, ◌≢◌, Bool, true, false, Option, none, some, List, [], ◌++◌, take, replicate,
  overlay,
}
use linux_programing_n_syste.Common.Int.{ℤ, is_negative}

-- A program ends with a status and the texts of shared memory that it has printed, the oldest first,
-- or by an access through MAP_FAILED, or `(void *)-1`.
pub data Ends (A : Type 0) : Type 0 where
  exits : ℤ → List (List ℕ) → A → Ends A
  faults : A → Ends A

-- What an access through the answer of `mmap` or `shmat` comes to.
abbrev pub accessed : {A B : Type 0} → Option B → A → (B → Ends A) → Ends A
accessed none s go = faults s
accessed (some memory) s go = go memory

abbrev pub or_empty : Option (List ℕ) → List ℕ
or_empty none = []
or_empty (some bytes) = bytes

-- `shm_open` with O_CREAT or without, and `mmap` with MAP_SHARED or MAP_PRIVATE, of a number of bytes.
-- A store goes through a mapping, to which the kernel knows the flag that it was made with; `seen` is what
-- is read through one.
pub record Objects : Type 1 where
  pub State : Type 0
  pub Mapping : Type 0
  pub content : State → Option (List ℕ)
  pub is_shared : Mapping → Bool
  pub seen : Mapping → State → List ℕ
  pub shm_open : Bool → State → ℤ × State
  pub ftruncate : ℕ → State → State
  pub mmap : Bool → ℕ → State → Option Mapping × State
  pub store : Mapping → List ℕ → State → State
  pub shm_unlink : State → State

pub record Documented (k : Objects) : Type 0 where
  pub open_creates :
      (s : k.State)
      → is_negative (k.shm_open true s).0 ≡ false
      → k.content (k.shm_open true s).1 ≡ some (or_empty (k.content s))
  pub open_keeps :
      (s : k.State)
      → is_negative (k.shm_open false s).0 ≡ false
      → k.content (k.shm_open false s).1 ≡ k.content s
  pub open_missing : (s : k.State) → k.content s ≡ none → is_negative (k.shm_open false s).0 ≡ true
  pub open_failed :
      (create : Bool) (s : k.State)
      → is_negative (k.shm_open create s).0 ≡ true
      → k.content (k.shm_open create s).1 ≡ k.content s
  -- The object is cut, or filled with zeros.
  pub resized :
      (n : ℕ) (s : k.State) (bytes : List ℕ)
      → k.content s ≡ some bytes
      → k.content (k.ftruncate n s) ≡ some (take n (bytes ++ replicate n 0))
  -- A new mapping of either kind shows what the object holds, and changes nothing.
  pub mapped :
      (shared : Bool) (n : ℕ) (s : k.State) (m : k.Mapping)
      → (k.mmap shared n s).0 ≡ some m
      → (k.is_shared m ≡ shared)
        × (k.seen m (k.mmap shared n s).1 ≡ take n (or_empty (k.content s)))
        × (k.content (k.mmap shared n s).1 ≡ k.content s)
  -- A store at the start of a mapping, no longer than it, is seen through it. Of a shared one it comes to the object, of a
  -- private one it does not.
  pub store_seen :
      (m : k.Mapping) (bytes : List ℕ) (s : k.State)
      → length bytes ≤ length (k.seen m s)
      → k.seen m (k.store m bytes s) ≡ overlay bytes (k.seen m s)
  pub store_shared :
      (m : k.Mapping) (bytes held : List ℕ) (s : k.State)
      → length bytes ≤ length (k.seen m s)
      → k.is_shared m ≡ true
      → k.content s ≡ some held
      → k.content (k.store m bytes s) ≡ some (overlay bytes held)
  pub store_private :
      (m : k.Mapping) (bytes : List ℕ) (s : k.State)
      → length bytes ≤ length (k.seen m s)
      → k.is_shared m ≡ false
      → k.content (k.store m bytes s) ≡ k.content s
  pub unlinked : (s : k.State) → k.content (k.shm_unlink s) ≡ none

pub record Working (k : Objects) : Type 0 where
  pub creates : (s : k.State) → is_negative (k.shm_open true s).0 ≡ false
  pub opens : (s : k.State) → k.content s ≢ none → is_negative (k.shm_open false s).0 ≡ false
  pub maps : (shared : Bool) (n : ℕ) (s : k.State) → (k.mmap shared n s).0 ≢ none
