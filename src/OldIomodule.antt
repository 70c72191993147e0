-- ===== src/OldIomodule.antt =====
-- Linux-Programing-Porting/old-project/memory_read_write: an earlier form of 02-device-file/hello.c,
-- where `output_val` is a pointer too. Rw has `pcd_read` and `pcd_write`, Init the module's start. What
-- the two forms share is taken from Iomodule: the structures, the cleanup labels, and the functions
-- `iomodule_open`, `iomodule_close`, `iomodule_cpu_core` and `read_write_IOmodule_cleanup`.
pub mod Rw
pub mod Init
pub mod Overrun
pub mod Agreement
pub mod Session
pub mod FirstAccess
mod Examples
use linux_programing_n_syste.Common.{
  ℕ, zero, suc, ◌-◌, ◌/◌, ◌||◌, not, ltb, is_null, Bool, ◌+◌, if◌then◌else◌, List, [], ◌∷◌, length,
  get_or,
}
use linux_programing_n_syste.Kernel.{Outcome, done, buffer_overrun}
use linux_programing_n_syste.Iomodule.{State}

-- The module, and the words that stand behind the first one in the block at `input_addr`. The field
-- `output_val` of the module's structure is an address here.
pub record Device : Type 0 where
  pub iomodule : State
  pub rest : List ℕ

abbrev pub set : List ℕ → ℕ → ℕ → List ℕ
set [] _ v = []
set (x ∷ xs) zero v = v ∷ xs
set (x ∷ xs) (suc i) v = x ∷ set xs i v

-- Which word of the block a pointer names.
abbrev pub word_index : ℕ → Device → ℕ
word_index p d = (p - d.iomodule.mem.input_addr) / 4

abbrev pub outside : ℕ → Device → Bool
outside p d = ltb p d.iomodule.mem.input_addr || not (ltb (word_index p d) (length d.rest + 1))

unfoldable pub store_word : ℕ → ℕ → Device → Outcome Device
store_word p v d =
    let i = word_index p d in
    if outside p d
    then buffer_overrun
    else if is_null i
    then done (record d { iomodule = record d.iomodule { input_cell = v } })
    else done (record d { rest = set d.rest (i - 1) v })

abbrev pub load_word : ℕ → Device → ℕ
load_word p d = get_or (d.iomodule.input_cell ∷ d.rest) (word_index p d) 0
