-- ===== src/PrrExercise.antt =====
-- Linux-Programing-Porting/old-project/prr_exercise/prr_exercise.c: a platform driver that makes a
-- device when the device tree has one. `iomodule_open`, `iomodule_close` and `iomodule_cpu_core` are
-- those of 02-device-file/hello.c (Iomodule); `pcd_read` and `pcd_write` return 0.
pub mod Laws
mod Examples
use linux_programing_n_syste.Common.{
  ℕ, ◌||◌, is_null, Bool, true, false, if◌then◌else◌, Option, none, some, List, [], ◌∷◌,
}
use linux_programing_n_syste.Common.Int.{ℤ, success, neg_enomem, neg_einval, is_negative}
use linux_programing_n_syste.Kernel.{DevicePtr, is_err, Event, Log, Outcome, done, null_access}

-- `struct _iomodule_drv_private_data`, without the count of open files.
pub record Driver : Type 0 where
  pub dev_num : ℕ
  pub dev_class : ℕ

-- The module's globals, whether `platform_driver_register` was called, and the kernel calls made so far.
pub record State : Type 0 where
  pub drv : Driver
  pub registered : Bool
  pub log : Log

-- `struct _iomodule_dev_private_data`, as a call of the probe function makes it.
pub record DevPrivate : Type 0 where
  pub platform_private : ℕ
  pub dev_ioaddr : ℕ
  pub dev_create : DevicePtr
  pub cdev_addr : ℕ

-- The kernel's answers to the calls of the probe function: whether the device tree has the device, the
-- buffers of `kzalloc` (0 is NULL), and the rest in the order of the calls.
pub record Answers : Type 0 where
  pub matched : Bool
  pub plat_ptr : ℕ
  pub property_ret : ℤ
  pub dev_ptr : ℕ
  pub device_ptr : DevicePtr
  pub cdev_ptr : ℕ
  pub cdev_add_ret : ℤ

abbrev pub call : Event → State → State
call e s = record s { log = e ∷ s.log }

-- A pointer to the platform's data, or an error that IS_ERR recognises.
pub data PlatformPtr : Type 0 where
  private_data : ℕ → PlatformPtr
  err_ptr : ℤ → PlatformPtr

-- `sizeof(&plat_private_data)` is the size of a pointer.
abbrev pub pointer_size : ℕ
pointer_size = 4

unfoldable pub get_property_data : Answers → State → PlatformPtr × State
get_property_data a s =
    let s1 = call (Event.kzalloc pointer_size a.plat_ptr) s in
    if is_null a.plat_ptr
    then (err_ptr neg_enomem, s1)
    else if is_negative a.property_ret
    then (err_ptr neg_einval, s1)
    else (private_data a.plat_ptr, s1)

-- A function returns a value, or ends with no `return`.
pub data Returned : Type 0 where
  returns : ℤ → State → Returned
  no_value : State → Returned

-- The labels at the end, which fall through to the end of the function.
unfoldable pub failed_registed_device : State → Returned
failed_registed_device s = no_value (call (Event.class_destroy s.drv.dev_class) s)

unfoldable pub failed_registed_cdev : State → Returned
unfolding failed_registed_device
failed_registed_cdev s =
    failed_registed_device (call (Event.device_destroy s.drv.dev_class s.drv.dev_num) s)

-- Past the address of the register: the device file and the character device.
unfoldable pub probe_device : Answers → DevPrivate → State → Outcome Returned
unfolding failed_registed_device failed_registed_cdev
probe_device a d s =
    let d1 = record d { dev_create = a.device_ptr } in
    let s1 = call (Event.device_create a.device_ptr) s in
    let d2 = record d1 { cdev_addr = a.cdev_ptr } in
    let s2 = call (Event.cdev_init a.cdev_ptr) (call (Event.cdev_alloc a.cdev_ptr) s1) in
    let s3 = call (Event.cdev_add d2.cdev_addr a.cdev_add_ret) s2 in
    if is_err d1.dev_create
    then done (failed_registed_device s1)
    else if is_null d2.cdev_addr
    then null_access
    else if is_negative a.cdev_add_ret
    then done (failed_registed_cdev s3)
    else done (returns success s3)

-- What `kzalloc` gives: every pointer of the structure is NULL.
abbrev pub zeroed : DevPrivate
zeroed = record {
  platform_private = 0;
  dev_ioaddr = 0;
  dev_create = DevicePtr.device 0;
  cdev_addr = 0;
}

-- Past the device tree, with the pointer to the platform's data; without a match it has no value, which
-- stands as NULL here. The address is stored through `platform_private`.
unfoldable pub probe_private : Answers → ℕ → State → Outcome Returned
unfolding probe_device
probe_private a plat s =
    let s1 = call (Event.kzalloc pointer_size a.dev_ptr) s in
    if is_null a.dev_ptr
    then done (returns neg_enomem s1)
    else if is_null zeroed.platform_private || is_null plat
    then null_access
    else probe_device a zeroed s1

abbrev pub with_platform : Answers → PlatformPtr → State → Outcome Returned
with_platform a (err_ptr e) s = done (returns e s)
with_platform a (private_data plat) s = probe_private a plat s

unfoldable pub probe : Answers → State → Outcome Returned
unfolding get_property_data probe_private
probe a s =
    let (plat, s1) = get_property_data a s in
    if a.matched then with_platform a plat s1 else probe_private a 0 s

-- The answers to the calls of the module's start.
pub record InitAnswers : Type 0 where
  pub alloc_ret : ℤ
  pub dev_num : ℕ
  pub class_ptr : ℕ

-- What `platform_driver_register` answers is not looked at.
unfoldable pub init : InitAnswers → State → ℤ × State
init a s =
    let s1 = call (Event.alloc_chrdev_region a.alloc_ret) (record s {
      drv = record s.drv { dev_num = if is_negative a.alloc_ret then 0 else a.dev_num };
    }) in
    let s2 =
      call (Event.class_create a.class_ptr)
        (record s1 { drv = record s1.drv { dev_class = a.class_ptr } }) in
    if is_negative a.alloc_ret
    then (a.alloc_ret, s1)
    else if is_null a.class_ptr
    then (a.alloc_ret, call (Event.unregister_chrdev_region s2.drv.dev_num) s2)
    else (success, record s2 { registered = true })

unfoldable pub cleanup : State → State
cleanup s = record s {
  log =
      Event.unregister_chrdev_region s.drv.dev_num
      ∷ Event.class_destroy s.drv.dev_class
      ∷ Event.device_destroy s.drv.dev_class s.drv.dev_num
      ∷ s.log;
}

-- The removal of a device, with the structure that `dev_get_drvdata` gives.
unfoldable pub remove : Option DevPrivate → State → Outcome (ℤ × State)
remove none s = null_access
remove (some d) s = done (
  success,
  record s {
    log =
        Event.class_destroy s.drv.dev_class
        ∷ Event.device_destroy s.drv.dev_class s.drv.dev_num
        ∷ Event.cdev_del d.cdev_addr
        ∷ Event.iounmap d.dev_ioaddr
        ∷ s.log;
  },
)

abbrev pub loaded : State
loaded = record { drv = record { dev_num = 0; dev_class = 0 }; registered = false; log = [] }
