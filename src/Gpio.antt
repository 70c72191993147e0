-- ===== src/Gpio.antt =====
-- The GPIO bank behind the drivers of Linux-Programing-Porting/01-blinkled-legacy and 03-button-led:
-- hardware, so a parameter. `Bank` is what the drivers do to it, reads and writes of 32-bit registers
-- at byte offsets, and `Documented` what the manual of the chip says of the registers they use.

pub mod Sample
pub mod Masks
use linux_programing_n_syste.Common.{ℕ, ◌+◌, ◌-◌, ◌*◌, ◌^◌, ◌<◌, ◌≡◌, ◌≢◌}
use linux_programing_n_syste.Common.Bits.{bit}
use Prim.Native.Nat.{bit_and, bit_or, max}

abbrev pub oe_offset : ℕ
oe_offset = 0x134

abbrev pub datain_offset : ℕ
datain_offset = 0x138

abbrev pub dataout_offset : ℕ
dataout_offset = 0x13C

abbrev pub debounceenable_offset : ℕ
debounceenable_offset = 0x150

abbrev pub cleardataout_offset : ℕ
cleardataout_offset = 0x190

abbrev pub setdataout_offset : ℕ
setdataout_offset = 0x194

pub record Bank : Type 1 where
  pub Regs : Type 0
  pub load : ℕ → Regs → ℕ
  pub store : ℕ → ℕ → Regs → Regs

module _ (b : Bank) where
  open b use {Regs, load, store}

  -- Bit `k` of the output pins.
  abbrev pub pin : ℕ → Regs → ℕ
  pin k r = bit k (load dataout_offset r)

  -- SETDATAOUT and CLEARDATAOUT read as DATAOUT; a 1 written there sets or clears that output pin;
  -- OE is an ordinary register; none of the three is touched by a write to another.
  pub record Documented : Type 0 where
    pub load_set : (r : Regs) → load setdataout_offset r ≡ load dataout_offset r
    pub load_clear : (r : Regs) → load cleardataout_offset r ≡ load dataout_offset r
    pub store_set :
        (k v : ℕ) (r : Regs) → pin k (store setdataout_offset v r) ≡ max (pin k r) (bit k v)
    pub store_clear :
        (k v : ℕ) (r : Regs) → pin k (store cleardataout_offset v r) ≡ pin k r - bit k v
    pub store_oe :
        (k v : ℕ) (r : Regs) → k < 32 → bit k (load oe_offset (store oe_offset v r)) ≡ bit k v
    pub pins_of_oe :
        (v : ℕ) (r : Regs) → load dataout_offset (store oe_offset v r) ≡ load dataout_offset r
    pub oe_of_set :
        (v : ℕ) (r : Regs) → load oe_offset (store setdataout_offset v r) ≡ load oe_offset r
    pub oe_of_clear :
        (v : ℕ) (r : Regs) → load oe_offset (store cleardataout_offset v r) ≡ load oe_offset r

  -- `*(base_addr + offset / 4) |= mask` and `*(base_addr + offset / 4) &= mask`.
  abbrev pub or_register : ℕ → ℕ → Regs → Regs
  or_register offset mask r = store offset (bit_or (load offset r) mask) r

  abbrev pub and_register : ℕ → ℕ → Regs → Regs
  and_register offset mask r = store offset (bit_and (load offset r) mask) r
