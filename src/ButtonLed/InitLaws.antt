-- ===== src/ButtonLed/InitLaws.antt =====
-- How the load of 03-button-led configures its two pins, and what the load leaves held.
use linux_programing_n_syste.Common.{
  ℕ, zero, suc, ◌^◌, ◌<◌, ◌≡◌, ◌≢◌, ◌⊎◌, ap, ◌∙◌, refl, arith, true, false, if◌then◌else◌, ◌==◌,
}
use linux_programing_n_syste.Common.Int.{ℤ, pos, negsuc, success, is_negative}
use linux_programing_n_syste.Common.Bits.{bit, bit-or, bit-and, bit-le-one}
use linux_programing_n_syste.Kernel.{DevicePtr, device, err_ptr, is_err, Outcome, Returns}
use linux_programing_n_syste.Kernel.Ledger.{nothing, held, heads}
use linux_programing_n_syste.Gpio.{Bank, Documented, pin, oe_offset, or_register, and_register}
use linux_programing_n_syste.Gpio.Masks.{all_but, bit-all_but_30, bit-two_pow_self, bit-two_pow_ne}
use linux_programing_n_syste.ButtonLed.{Module, led_off, btn_pin}
use linux_programing_n_syste.ButtonLed.Led.{led_off-pin}
use Prim.Native.Nat.{bit_and, bit_or, min, max}
use native.Mathlib.Decide.{ℕ_discrete}
use linux_programing_n_syste.ButtonLed.Init.{
  Answers, Result, loaded, init_pins, read_write_iomodule_init, read_write_iomodule_cleanup,
}

abbrev answers : ℤ → ℕ → DevicePtr → ℕ → ℤ → ℕ → ℤ → (num irq : ℕ) → Answers
answers r c d p k base q num irq = record {
  alloc_ret = r;
  dev_num = num;
  class_ptr = c;
  device_ptr = d;
  cdev_ptr = p;
  cdev_add_ret = k;
  base_addr = base;
  irq_number = irq;
  request_ret = q;
}

-- Every call of the init function succeeds but, perhaps, that of `request_irq`.
pub record Mapped (a : Answers) : Type 0 where
  pub region : is_negative a.alloc_ret ≡ false
  pub class : a.class_ptr ≢ 0
  pub device : is_err a.device_ptr ≡ false
  pub cdev : a.cdev_ptr ≢ 0
  pub added : is_negative a.cdev_add_ret ≡ false
  pub base : a.base_addr ≢ 0

-- A call fails whose failure the function notices, other than `cdev_add`.
abbrev pub Fails : Answers → Type 0
Fails a =
    (is_negative a.alloc_ret ≡ true)
    ⊎ (a.class_ptr ≡ 0)
    ⊎ (is_err a.device_ptr ≡ true)
    ⊎ (a.base_addr ≡ 0)

module _ (b : Bank) (regs : b.Regs) where
  abbrev pub load : Answers → Outcome (Result b)
  load a = read_write_iomodule_init b a (loaded b regs)

  failure_cases :
      (num irq : ℕ) (r : ℤ) (c : ℕ) (d : DevicePtr) (p : ℕ) (k : ℤ) (base : ℕ) (q : ℤ)
      → let a = answers r c d p k base q num irq in
        p ≢ 0 → is_negative k ≡ false → Fails a → Returns (load a) (λ r. held r.1.log ≡ nothing)
  unfolding read_write_iomodule_init held
  failure_cases num irq (negsuc e) c d p k base q h g f = refl
  failure_cases num irq (pos n) zero d p k base q h g f = refl
  failure_cases num irq (pos n) (suc c) (err_ptr e) p k base q h g f = refl
  failure_cases num irq (pos n) (suc c) (device d) zero k base q h g f = absurd (h refl)
  failure_cases num irq (pos n) (suc c) (device d) (suc p) (negsuc k) base q h g f = cc
  failure_cases num irq (pos n) (suc c) (device d) (suc p) (pos k) zero q h g f = refl
  failure_cases num irq (pos n) (suc c) (device d) (suc p) (pos k) (suc base) q h g f = ground arith

  -- A load in which the function notices a failed call other than that of `cdev_add` ends with nothing
  -- held, if the character device could be allocated (`cdev_alloc` is not tested).
  pub load_failure_releases :
      (a : Answers)
      → a.cdev_ptr ≢ 0
      → is_negative a.cdev_add_ret ≡ false
      → Fails a
      → Returns (load a) (λ r. held r.1.log ≡ nothing)
  load_failure_releases a =
      failure_cases a.dev_num a.irq_number a.alloc_ret a.class_ptr a.device_ptr a.cdev_ptr
        a.cdev_add_ret a.base_addr a.request_ret

  mapped_load :
      (n num c d p k base irq : ℕ) (q : ℤ)
      → Returns
          (load (answers (pos n) (suc c) (device d) (suc p) (pos k) (suc base) q num irq))
          (λ r.
            (r.0 ≡ success)
            × Returns
                (read_write_iomodule_cleanup b r.1)
                (λ m. held m.log ≡ record nothing { misuses = if is_negative q then 1 else 0 }))
  unfolding read_write_iomodule_init read_write_iomodule_cleanup held init_pins
  mapped_load n num c d p k base irq (pos q) = (refl, simp heads)
  mapped_load n num c d p k base irq (negsuc q) = (refl, simp heads)

  Mapped-cases :
      (num irq : ℕ) (r : ℤ) (c : ℕ) (d : DevicePtr) (p : ℕ) (k : ℤ) (base : ℕ) (q : ℤ)
      → let a = answers r c d p k base q num irq in
        Mapped a
        → Returns (load a) (λ r.
          (r.0 ≡ success)
          × Returns
              (read_write_iomodule_cleanup b r.1)
              (λ m. held m.log ≡ record nothing { misuses = if is_negative q then 1 else 0 }))
  Mapped-cases num irq (negsuc e) c d p k base q h = absurd (ground (arith, h.region))
  Mapped-cases num irq (pos n) zero d p k base q h = absurd (h.class refl)
  Mapped-cases num irq (pos n) (suc c) (err_ptr e) p k base q h = absurd (ground (arith, h.device))
  Mapped-cases num irq (pos n) (suc c) (device d) zero k base q h = absurd (h.cdev refl)
  Mapped-cases num irq (pos n) (suc c) (device d) (suc p) (negsuc k) base q h =
      absurd (ground (arith, h.added))
  Mapped-cases num irq (pos n) (suc c) (device d) (suc p) (pos k) zero q h = absurd (h.base refl)
  Mapped-cases num irq (pos n) (suc c) (device d) (suc p) (pos k) (suc base) q h =
      mapped_load n num c d p k base irq q

  -- Once the registers are mapped the load returns 0 whatever `request_irq` answers. The module's end
  -- then returns with nothing held; it has released each resource once, and where `request_irq` had
  -- failed, also an interrupt that it did not hold.
  pub load_cleanup_releases :
      (a : Answers)
      → Mapped a
      → Returns (load a) (λ r.
        (r.0 ≡ success)
        × Returns (read_write_iomodule_cleanup b r.1) (λ m.
          held m.log ≡ record nothing { misuses = if is_negative a.request_ret then 1 else 0 }))
  load_cleanup_releases a =
      Mapped-cases a.dev_num a.irq_number a.alloc_ret a.class_ptr a.device_ptr a.cdev_ptr
        a.cdev_add_ret a.base_addr a.request_ret

module _ (b : Bank) (doc : Documented b) where
  -- The bits of OE behind the three writes of the start.
  directions :
      (k : ℕ) (r s : b.Regs)
      → k < 32
      → b.load oe_offset s ≡ b.load oe_offset (and_register b oe_offset (all_but 30) r)
      → bit k (b.load oe_offset (or_register b oe_offset (2 ^ btn_pin) s))
        ≡ max (min (bit k (b.load oe_offset r)) (bit k (all_but 30))) (bit k (2 ^ btn_pin))
  directions k r s h e = omega (
    arith,
    doc.store_oe k (bit_or (b.load oe_offset s) (2 ^ btn_pin)) s h,
    bit-or k (b.load oe_offset s) (2 ^ btn_pin),
    ap (bit k) e,
    doc.store_oe k (bit_and (b.load oe_offset r) (all_but 30)) r h,
    bit-and k (b.load oe_offset r) (all_but 30),
  )

  bit-btn : (k : ℕ) → bit k (2 ^ btn_pin) ≡ (if k == 31 then 1 else 0)
  bit-btn k = elim (ℕ_discrete k 31) [
    | yes e ↦ rw e (bit-two_pow_self 31)
    | no other ↦ ground (arith, bit-two_pow_ne k 31 other)
  ]

  -- Loading makes pin 30, the LED's, an output and pin 31, the button's, an input, leaves the
  -- direction of every other pin, and switches all outputs off.
  pub init_pins-directions :
      (k : ℕ) (m : Module b)
      → k < 32
      → (bit k (b.load oe_offset (init_pins b m).regs)
          ≡ (if k == 30 then 0 else if k == 31 then 1 else bit k (b.load oe_offset m.regs)))
        × (pin b k (init_pins b m).regs ≡ 0)
  unfolding init_pins
  init_pins-directions k m h =
      let m1 : Module b = record m { regs = and_register b oe_offset (all_but 30) m.regs } in
      let s = (led_off b m1).regs in
      (
        ground (
          arith,
          directions k m.regs s h (doc.oe_of_clear _ m1.regs),
          bit-all_but_30 k h,
          bit-btn k,
          bit-le-one k (b.load oe_offset m.regs),
        ),
        ap (bit k) (doc.pins_of_oe _ s) ∙ led_off-pin b doc k m1,
      )
