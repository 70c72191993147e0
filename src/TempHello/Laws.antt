-- ===== src/TempHello/Laws.antt =====
-- What the start of temp-hello.c leaves held on each way through its labels, and its end after it.
use linux_programing_n_syste.Common.{ℕ, zero, suc, ◌≡◌, ◌≢◌, ◌⊎◌, inl, inr, refl, if◌then◌else◌}
use linux_programing_n_syste.Common.Int.{ℤ, pos, negsuc, success}
use linux_programing_n_syste.Kernel.{DevicePtr, device, err_ptr, is_err}
use linux_programing_n_syste.Kernel.Ledger.{held, nothing}
use linux_programing_n_syste.TempHello.{
  FooDev, Answers, hello_world_init, hello_world_exit, rm_class, rm_device_numb, loaded,
}

-- `device_create` returns a device or an error pointer, never NULL.
abbrev pub NotNull : DevicePtr → Type 0
NotNull (device p) = p ≢ 0
NotNull (err_ptr _) = Unit

-- The start failed and holds nothing; or it succeeded, and the end gives back what it holds, with one
-- release too many where the device was not created.
abbrev pub Settles : DevicePtr → ℤ × FooDev → Type 0
Settles d (ret, s) =
    ((ret ≢ success) × (held s.log ≡ nothing))
    ⊎ ((ret ≡ success)
        × (held (hello_world_exit s).log ≡ record nothing { misuses = if is_err d then 1 else 0 }))

start_cases :
    (r : ℤ) (num c : ℕ) (d : DevicePtr)
    → NotNull d
    → Settles d (
        hello_world_init
          (record { alloc_ret = r; dev_num = num; class_ptr = c; device_ptr = d })
          loaded)
unfolding hello_world_init hello_world_exit rm_class rm_device_numb held
start_cases (negsuc e) num c d h = inl (λ q. cc, refl)
start_cases (pos n) num zero d h = inl (λ q. cc, refl)
start_cases (pos n) num (suc c) (device zero) h = absurd (h refl)
start_cases (pos n) num (suc c) (device (suc p)) h = inr (refl, refl)
start_cases (pos n) num (suc c) (err_ptr e) h = inr (refl, refl)

-- Whatever the kernel answers, the start of the module fails with nothing held, or succeeds; then the
-- end gives back all that it took. A device that could not be made counts as success, and the end
-- then destroys it all the same.
pub start-Settles :
    (a : Answers) → NotNull a.device_ptr → Settles a.device_ptr (hello_world_init a loaded)
start-Settles a h = start_cases a.alloc_ret a.dev_num a.class_ptr a.device_ptr h
