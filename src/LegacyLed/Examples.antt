-- ===== src/LegacyLed/Examples.antt =====
-- The load and the unload of led-module.c over a bank of registers in memory.
use linux_programing_n_syste.Common.{◌≡◌, refl, arith, ◌==◌, if◌then◌else◌, []}
use linux_programing_n_syste.Common.Int.{success}
use linux_programing_n_syste.Common.Bits.{bit}
use linux_programing_n_syste.Kernel.Ledger.{held, nothing}
use linux_programing_n_syste.Gpio.{pin, oe_offset}
use linux_programing_n_syste.Gpio.Sample.{Registers, bank, bank-Documented}
use linux_programing_n_syste.LegacyLed.{Module, led_init, led_exit}
use linux_programing_n_syste.LegacyLed.Laws.{load_unload-pins}

abbrev registers : Registers
registers = record { oe = 0xFFFFFFFF; dataout = 5 }

abbrev module_loaded : Module bank
module_loaded = record { base_addr = 0; regs = registers; log = [] }

nothing_yet : held [] ≡ nothing
unfolding held
nothing_yet = refl

-- Pin 2 was on and is off after the unload.
load_unload-pins_example :
    ((led_init bank 0x9000 module_loaded).0 ≡ success)
    × (bit 2 (bank.load oe_offset (led_init bank 0x9000 module_loaded).1.regs)
        ≡ (if 2 == 31 then 0 else bit 2 (bank.load oe_offset registers)))
    × (pin bank 2 (led_init bank 0x9000 module_loaded).1.regs
        ≡ (if 2 == 31 then 1 else pin bank 2 registers))
    × (pin bank 2 (led_exit bank (led_init bank 0x9000 module_loaded).1).regs ≡ 0)
    × (held (led_exit bank (led_init bank 0x9000 module_loaded).1).log ≡ nothing)
load_unload-pins_example =
    load_unload-pins bank bank-Documented 0x9000 2 module_loaded refl (omega arith) nothing_yet
