-- ===== src/Gpio/Sample.antt =====
-- A bank of registers in memory that behaves as documented: the documented behaviour can be met.
use linux_programing_n_syste.Common.{
  ℕ, zero, suc, ◌+◌, ◌-◌, ◌*◌, ◌/◌, ◌%◌, ◌≤◌, ◌≡◌, refl, arith, ◌==◌, if◌then◌else◌,
}
use linux_programing_n_syste.Common.Bits.{bit, bit-or, bit-zero}
use linux_programing_n_syste.Gpio.{
  Bank, Documented, oe_offset, dataout_offset, cleardataout_offset, setdataout_offset,
}
use Prim.Native.Nat.{bit_or}

pub record Registers : Type 0 where
  pub oe : ℕ
  pub dataout : ℕ

-- The bits of `d` that `v` does not have, with the fuel `d`.
clear_fuel : ℕ → ℕ → ℕ → ℕ
clear_fuel zero d v = 0
clear_fuel (suc f) d v = clear_fuel f (d / 2) (v / 2) * 2 + (d % 2 - v % 2)

unfoldable pub clear : ℕ → ℕ → ℕ
unfolding clear_fuel
clear d v = clear_fuel d d v

halve : (q r : ℕ) → r ≤ 1 → (q * 2 + r) / 2 ≡ q
halve q r h = omega arith

bit-clear_fuel : (k f d v : ℕ) → d ≤ f → bit k (clear_fuel f d v) ≡ bit k d - bit k v
unfolding clear_fuel bit
bit-clear_fuel k zero zero v h = omega (arith, bit-zero k)
bit-clear_fuel k zero (suc d) v h = absurd (omega arith)
bit-clear_fuel zero (suc f) d v h = omega arith
bit-clear_fuel (suc k) (suc f) d v h =
    rw (halve (clear_fuel f (d / 2) (v / 2)) (d % 2 - v % 2) (omega arith))
      (bit-clear_fuel k f (d / 2) (v / 2) (omega arith))

bit-clear : (k d v : ℕ) → bit k (clear d v) ≡ bit k d - bit k v
unfolding clear
bit-clear k d v = bit-clear_fuel k d d v (omega arith)

abbrev pub load_register : ℕ → Registers → ℕ
load_register offset r =
    if offset == oe_offset
    then r.oe
    else if offset == dataout_offset
    then r.dataout
    else if offset == setdataout_offset
    then r.dataout
    else if offset == cleardataout_offset
    then r.dataout
    else 0

abbrev pub store_register : ℕ → ℕ → Registers → Registers
store_register offset v r =
    if offset == oe_offset
    then record r { oe = v }
    else if offset == setdataout_offset
    then record r { dataout = bit_or r.dataout v }
    else if offset == cleardataout_offset
    then record r { dataout = clear r.dataout v }
    else r

abbrev pub bank : Bank
bank = record { Regs = Registers; load = load_register; store = store_register }

pub bank-Documented : Documented bank
bank-Documented = record {
  load_set = λ r. refl;
  load_clear = λ r. refl;
  store_set = λ k v r. bit-or k r.dataout v;
  store_clear = λ k v r. bit-clear k r.dataout v;
  store_oe = λ k v r h. refl;
  pins_of_oe = λ v r. refl;
  oe_of_set = λ v r. refl;
  oe_of_clear = λ v r. refl;
}
