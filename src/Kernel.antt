-- ===== src/Kernel.antt =====
-- The calls that the drivers of Linux-Programing-Porting make of the kernel, each with the kernel's
-- answer, as entries of a log. What the kernel does inside is not modelled: its answers are arguments
-- of the drivers' functions. Faults that the drivers' own code commits are values of `Outcome`.
pub mod Ledger
use linux_programing_n_syste.Common.{ℕ, List, [], ◌∷◌, Bool, true, false, ◌==◌}
use linux_programing_n_syste.Common.Int.{ℤ}

-- What `device_create` returns: a device, or an error pointer that IS_ERR recognises.
pub data DevicePtr : Type 0 where
  device : ℕ → DevicePtr
  err_ptr : ℕ → DevicePtr

abbrev pub is_err : DevicePtr → Bool
is_err (device _) = false
is_err (err_ptr _) = true

pub data Event : Type 0 where
  alloc_chrdev_region : ℤ → Event
  unregister_chrdev_region : ℕ → Event
  class_create : ℕ → Event
  class_destroy : ℕ → Event
  device_create : DevicePtr → Event
  device_destroy : ℕ → ℕ → Event
  cdev_alloc : ℕ → Event
  cdev_init : ℕ → Event
  cdev_add : ℕ → ℤ → Event
  cdev_del : ℕ → Event
  kzalloc : ℕ → ℕ → Event
  kfree : ℕ → Event
  ioremap : ℕ → ℕ → ℕ → Event
  iounmap : ℕ → Event
  gpio_set_debounce : ℕ → ℕ → Event
  request_irq : ℕ → ℤ → Event
  free_irq : ℕ → Event

-- The newest entry stands first.
abbrev pub Log : Type 0
Log = List Event

-- A run of a driver's function: it returns, or its code touches memory that it may not touch.
pub data Outcome {ℓ} (A : Type ℓ) : Type ℓ where
  done : A → Outcome A
  buffer_overrun : Outcome A
  null_access : Outcome A

-- The run returns, and its result is as `P` says.
abbrev pub Returns {ℓ} : {A : Type ℓ} → Outcome A → (A → Type 0) → Type 0
Returns (done r) P = P r
Returns buffer_overrun P = ⊥
Returns null_access P = ⊥

pub Returns-map {ℓ} :
    {A : Type ℓ} {P Q : A → Type 0} (o : Outcome A)
    → Returns o P
    → ((r : A) → P r → Q r)
    → Returns o Q
Returns-map (done r) h f = f r h
Returns-map buffer_overrun h f = h
Returns-map null_access h f = h

abbrev pub and_then {ℓ κ} : {A : Type ℓ} {B : Type κ} → Outcome A → (A → Outcome B) → Outcome B
and_then (done a) k = k a
and_then buffer_overrun k = buffer_overrun
and_then null_access k = null_access

pub Returns-and_then {ℓ κ} :
    {A : Type ℓ} {B : Type κ} {P : A → Type 0} (Q : B → Type 0) (o : Outcome A) (k : A → Outcome B)
    → Returns o P
    → ((a : A) → P a → Returns (k a) Q)
    → Returns (and_then o k) Q
Returns-and_then Q (done a) k h f = f a h
Returns-and_then Q buffer_overrun k h f = absurd h
Returns-and_then Q null_access k h f = absurd h
