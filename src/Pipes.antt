-- ===== src/Pipes.antt =====
-- Linux-Programing-N-System/8-Pipeline_FIFO: programs that pass messages from one process to another
-- through a pipe or a FIFO of the kernel, which is a parameter: `Channel` is what the programs do with
-- it, and `Documented` is that it hands on the bytes written to it in their order.
pub mod Pipeline
pub mod Messages
pub mod Queue
pub mod Records
pub mod Refines
pub mod Shown
pub mod Fifo
pub mod Producer
pub mod Mains
pub mod Life
mod Examples
use linux_programing_n_syste.Common.{
  ℕ, ◌≡◌, List, [], ◌∷◌, ◌++◌, length, take, drop, overlay, replicate,
}
use linux_programing_n_syste.Common.Typed.{line}

abbrev pub buf_size : ℕ
buf_size = 30

pub record Channel : Type 1 where
  pub State : Type 0
  pub bytes : State → List ℕ
  pub write : List ℕ → State → State
  pub read : ℕ → State → List ℕ × State

-- A write of at most 4096 bytes is not mixed with another; a read takes what is there, up to its size.
pub record Documented (k : Channel) : Type 0 where
  pub bytes_write : (xs : List ℕ) (c : k.State) → k.bytes (k.write xs c) ≡ k.bytes c ++ xs
  pub read_takes : (n : ℕ) (c : k.State) → (k.read n c).0 ≡ take n (k.bytes c)
  pub bytes_read : (n : ℕ) (c : k.State) → k.bytes (k.read n c).1 ≡ drop n (k.bytes c)

-- `fgets(msg, BUF_SIZE, stdin)`: the input that is left, and the buffer. At the end of the input the
-- buffer keeps its bytes.
unfoldable pub type_message : List ℕ → List ℕ → List ℕ × List ℕ
unfolding line
type_message [] msg = ([], msg)
type_message (c ∷ cs) msg =
    let text = line 29 (c ∷ cs) in (drop (length text) (c ∷ cs), overlay (text ++ (0 ∷ [])) msg)
