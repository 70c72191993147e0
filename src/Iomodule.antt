-- ===== src/Iomodule.antt =====
-- Linux-Programing-Porting/02-device-file/hello.c: a character device that reads a 32-bit hardware
-- register at an address that the user writes to it. The driver's state, `iomodule_open`,
-- `iomodule_close` and `iomodule_cpu_core`; the file operations and the module's start and end stand
-- in the modules below. Words are 32 bits wide, as on the boards that the code names.
pub mod Rw
pub mod Init
pub mod InitLaws
pub mod RwBounds
pub mod RwText
pub mod Session
pub mod Core
mod Examples
pub mod RwLeaks
pub mod RwWrite
pub mod Typed
use Prim.Native.Nat.{bit_and}
use linux_programing_n_syste.Common.{
  ℕ, ◌+◌, ◌-◌, ◌%◌, ◌^◌, Bool, true, false, ◌==◌, if◌then◌else◌, not,
}
use linux_programing_n_syste.Kernel.{DevicePtr, Log}

abbrev pub prr_port_base : ℕ
prr_port_base = 0xFF000044

abbrev pub prr_port_len : ℕ
prr_port_len = 4

abbrev pub data_transmit : ℕ
data_transmit = 9

abbrev pub reg_max_size : ℕ
reg_max_size = 4

abbrev pub dev_max_size : ℕ
dev_max_size = 12

abbrev pub u32 : ℕ → ℕ
u32 n = n % 2 ^ 32

-- `struct _memory_dev`; the two pointers are addresses.
pub record MemoryDev : Type 0 where
  pub input_addr : ℕ
  pub input_val : ℕ
  pub output_val : ℕ

-- `struct _iomodule_drv`; `count` is the bit pattern of an `int`, and pointers are addresses.
pub record IomoduleDrv : Type 0 where
  pub dev_num : ℕ
  pub dev_class : ℕ
  pub dev_create : DevicePtr
  pub dev_ioaddr : ℕ
  pub cdev_addr : ℕ
  pub count : ℕ
  pub mem_addr : ℕ

-- The module's globals, what `mem_addr` points to (`mem`), what `mem->input_addr` points to
-- (`input_cell`), and the kernel calls made so far.
pub record State : Type 0 where
  pub drv : IomoduleDrv
  pub mem : MemoryDev
  pub input_cell : ℕ
  pub cpu_core : ℕ
  pub log : Log

unfoldable pub iomodule_open : State → State
iomodule_open s = record s { drv = record s.drv { count = u32 (s.drv.count + 1) } }

unfoldable pub iomodule_close : State → State
iomodule_close s = record s { drv = record s.drv { count = u32 (s.drv.count + 2 ^ 32 - 1) } }

-- The line that `iomodule_cpu_core` prints last.
pub data CoreMessage : Type 0 where
  no_two_cortex_a7 : CoreMessage
  two_cortex_a7 : CoreMessage

unfoldable pub iomodule_cpu_core : ℕ → State → State × CoreMessage
iomodule_cpu_core prr_register s =
    let core = bit_and prr_register (2 ^ 26) in
    (record s { cpu_core = core }, if not (core == 0) then no_two_cortex_a7 else two_cortex_a7)
