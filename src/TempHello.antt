-- ===== src/TempHello.antt =====
-- Linux-Programing-Porting/02-device-file/temp-hello.c: a module that registers a device number, a class
-- and a device, and nothing behind them.
pub mod Laws
mod Examples
use linux_programing_n_syste.Common.{ℕ, Bool, true, false, if◌then◌else◌, is_null, List, [], ◌∷◌}
use linux_programing_n_syste.Common.Int.{ℤ, pos, success, minus_one, is_negative}
use linux_programing_n_syste.Kernel.{DevicePtr, device, err_ptr, Event, Log}

-- `struct m_foo_dev`, less the `cdev` that the module does not use, and the kernel calls made so far.
pub record FooDev : Type 0 where
  pub dev_num : ℕ
  pub m_class : ℕ
  pub log : Log

-- The kernel's answers to the calls of the start, in their order; 0 is NULL.
pub record Answers : Type 0 where
  pub alloc_ret : ℤ
  pub dev_num : ℕ
  pub class_ptr : ℕ
  pub device_ptr : DevicePtr

abbrev call : Event → FooDev → FooDev
call e s = record s { log = e ∷ s.log }

-- The test `== NULL` of what `device_create` returns. An error pointer is not NULL.
abbrev pub is_null_device : DevicePtr → Bool
is_null_device (device p) = is_null p
is_null_device (err_ptr _) = false

unfoldable pub rm_device_numb : FooDev → ℤ × FooDev
rm_device_numb s = (minus_one, call (Event.unregister_chrdev_region s.dev_num) s)

unfoldable pub rm_class : FooDev → ℤ × FooDev
unfolding rm_device_numb
rm_class s = rm_device_numb (call (Event.class_destroy s.m_class) s)

unfoldable pub hello_world_init : Answers → FooDev → ℤ × FooDev
unfolding rm_device_numb rm_class
hello_world_init a s =
    let s1 =
      call (Event.alloc_chrdev_region a.alloc_ret)
        (record s { dev_num = if is_negative a.alloc_ret then s.dev_num else a.dev_num }) in
    let s2 = call (Event.class_create a.class_ptr) (record s1 { m_class = a.class_ptr }) in
    let s3 = call (Event.device_create a.device_ptr) s2 in
    if is_negative a.alloc_ret
    then (pos 1, s1)
    else if is_null a.class_ptr
    then rm_device_numb s2
    else if is_null_device a.device_ptr
    then rm_class s3
    else (success, s3)

unfoldable pub hello_world_exit : FooDev → FooDev
hello_world_exit s = record s {
  log =
      Event.unregister_chrdev_region s.dev_num
      ∷ Event.class_destroy s.m_class
      ∷ Event.device_destroy s.m_class s.dev_num
      ∷ s.log;
}

-- The structure of a module that has just been loaded.
abbrev pub loaded : FooDev
loaded = record { dev_num = 0; m_class = 0; log = [] }
