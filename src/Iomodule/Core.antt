-- ===== src/Iomodule/Core.antt =====
-- `iomodule_cpu_core`, `iomodule_open` and `iomodule_close` of 02-device-file/hello.c.
use linux_programing_n_syste.Common.{ℕ, ◌*◌, ◌^◌, ◌<◌, ◌≡◌, ◌↔◌, arith}
use linux_programing_n_syste.Common.Bits.{bit, bit_and-two_pow, bit-le-one}
use linux_programing_n_syste.Iomodule.{
  State, two_cortex_a7, iomodule_cpu_core, iomodule_open, iomodule_close,
}

-- The product is said to have two Cortex-A7 cores exactly when bit 26 of the register is 0, and the
-- stored word is that bit in its place.
pub cpu_core-bit :
    (prr : ℕ) (s : State)
    → (((iomodule_cpu_core prr s).1 ≡ two_cortex_a7) ↔ (bit 26 prr ≡ 0))
      × ((iomodule_cpu_core prr s).0.cpu_core ≡ bit 26 prr * 2 ^ 26)
unfolding iomodule_cpu_core
cpu_core-bit prr s = ground (arith, bit_and-two_pow 26 prr, bit-le-one 26 prr)

-- A file that is opened and closed leaves the count of open files as it was, also where it wraps.
pub close-open_count :
    (s : State) → s.drv.count < 2 ^ 32 → (iomodule_close (iomodule_open s)).drv.count ≡ s.drv.count
unfolding iomodule_open iomodule_close
close-open_count s h = omega arith
