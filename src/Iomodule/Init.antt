-- ===== src/Iomodule/Init.antt =====
-- `read_write_IOmodule_init` and `read_write_IOmodule_cleanup` of 02-device-file/hello.c. Each label
-- of the init function's cleanup chain is a function that falls through to the next one.
use linux_programing_n_syste.Common.{ℕ, ◌+◌, ◌*◌, if◌then◌else◌, is_null, [], ◌∷◌}
use linux_programing_n_syste.Common.Int.{ℤ, success, neg_enomem, is_negative}
use linux_programing_n_syste.Kernel.{DevicePtr, is_err, Event, Outcome, done, null_access}
use linux_programing_n_syste.Iomodule.{
  prr_port_base, prr_port_len, reg_max_size, dev_max_size, State, iomodule_cpu_core,
}

-- The kernel's answers to the calls of the init function, in their order; 0 is NULL.
pub record Answers : Type 0 where
  pub alloc_ret : ℤ
  pub dev_num : ℕ
  pub class_ptr : ℕ
  pub device_ptr : DevicePtr
  pub cdev_ptr : ℕ
  pub cdev_add_ret : ℤ
  pub mem_ptr : ℕ
  pub input_ptr : ℕ
  pub ioaddr : ℕ
  pub register : ℕ

-- `sizeof(struct _memory_dev)`: three words.
abbrev pub memory_dev_size : ℕ
memory_dev_size = 12

-- The globals of a module that has just been loaded.
abbrev pub loaded : State
loaded = record {
  drv = record {
    dev_num = 0;
    dev_class = 0;
    dev_create = DevicePtr.device 0;
    dev_ioaddr = 0;
    cdev_addr = 0;
    count = 0;
    mem_addr = 0;
  };
  mem = record { input_addr = 0; input_val = 0; output_val = 0 };
  input_cell = 0;
  cpu_core = 0;
  log = [];
}

abbrev pub call : Event → State → State
call e s = record s { log = e ∷ s.log }

abbrev pub Result : Type 0
Result = ℤ × State

unfoldable pub failed_registed_devnum : ℤ → State → Result
failed_registed_devnum ret s = (ret, s)

unfoldable pub failed_registed_devclass : ℤ → State → Result
unfolding failed_registed_devnum
failed_registed_devclass ret s =
    failed_registed_devnum ret (call (Event.unregister_chrdev_region s.drv.dev_num) s)

unfoldable pub failed_registed_device : ℤ → State → Result
unfolding failed_registed_devclass
failed_registed_device ret s =
    failed_registed_devclass ret (call (Event.class_destroy s.drv.dev_class) s)

unfoldable pub failed_registed_cdev : ℤ → State → Result
unfolding failed_registed_device
failed_registed_cdev ret s =
    failed_registed_device ret (call (Event.device_destroy s.drv.dev_class s.drv.dev_num) s)

unfoldable pub failed_allocate_struct_memory : ℤ → State → Result
unfolding failed_registed_cdev
failed_allocate_struct_memory ret s =
    failed_registed_cdev ret (call (Event.cdev_del s.drv.cdev_addr) s)

unfoldable pub failed_allocate_memory : ℤ → State → Result
unfolding failed_allocate_struct_memory
failed_allocate_memory ret s =
    failed_allocate_struct_memory ret (call (Event.kfree s.drv.mem_addr) s)

-- Once `input_addr` is allocated: the pointers, and the first reading of the register. `input_addr`
-- is an `unsigned long *`, so `+ REG_MAX_SIZE` moves it by four words of four bytes.
unfoldable pub init_memory : Answers → ℤ → State → Outcome Result
unfolding iomodule_cpu_core
init_memory a ret s =
    let s1 = record s {
      mem = record s.mem { input_val = s.mem.input_addr + 4 * reg_max_size };
      drv = record s.drv { dev_ioaddr = a.ioaddr };
      log = Event.ioremap prr_port_base prr_port_len a.ioaddr ∷ s.log;
    } in
    if is_null a.ioaddr then null_access else done (success, (iomodule_cpu_core a.register s1).0)

-- Once the character device is added.
unfoldable pub init_buffers : Answers → ℤ → State → Outcome Result
unfolding init_memory failed_allocate_struct_memory failed_allocate_memory
init_buffers a ret s =
    let s1 =
      call (Event.kzalloc memory_dev_size a.mem_ptr)
        (record s { drv = record s.drv { mem_addr = a.mem_ptr } }) in
    let s2 = call (Event.kzalloc dev_max_size a.input_ptr) (record s1 {
      mem = record { input_addr = a.input_ptr; input_val = 0; output_val = 0 };
      input_cell = 0;
    }) in
    if is_null a.mem_ptr
    then done (failed_allocate_struct_memory neg_enomem s1)
    else if is_null a.input_ptr
    then done (failed_allocate_memory neg_enomem s2)
    else init_memory a ret s2

-- Once the device file is created.
unfoldable pub init_cdev : Answers → State → Outcome Result
unfolding init_buffers failed_registed_cdev
init_cdev a s =
    let s1 = record s {
      drv = record s.drv { cdev_addr = a.cdev_ptr };
      log = Event.cdev_init a.cdev_ptr ∷ Event.cdev_alloc a.cdev_ptr ∷ s.log;
    } in
    let s2 = call (Event.cdev_add a.cdev_ptr a.cdev_add_ret) s1 in
    if is_null a.cdev_ptr
    then null_access
    else if is_negative a.cdev_add_ret
    then done (failed_registed_cdev a.cdev_add_ret s2)
    else init_buffers a a.cdev_add_ret s2

unfoldable pub read_write_iomodule_init : Answers → State → Outcome Result
unfolding init_cdev failed_registed_device failed_registed_devclass failed_registed_devnum
read_write_iomodule_init a s =
    let s1 = call (Event.alloc_chrdev_region a.alloc_ret) (record s {
      drv = record s.drv { dev_num = if is_negative a.alloc_ret then 0 else a.dev_num };
    }) in
    let s2 =
      call (Event.class_create a.class_ptr)
        (record s1 { drv = record s1.drv { dev_class = a.class_ptr } }) in
    let s3 =
      call (Event.device_create a.device_ptr)
        (record s2 { drv = record s2.drv { dev_create = a.device_ptr } }) in
    if is_negative a.alloc_ret
    then done (failed_registed_devnum a.alloc_ret s1)
    else if is_null a.class_ptr
    then done (failed_registed_devclass a.alloc_ret s2)
    else if is_err a.device_ptr
    then done (failed_registed_device a.alloc_ret s3)
    else init_cdev a s3

-- `iomodule_drv.mem_addr->input_addr` is read for the first `kfree`.
unfoldable pub read_write_iomodule_cleanup : State → Outcome State
read_write_iomodule_cleanup s =
    if is_null s.drv.mem_addr
    then null_access
    else done (record s {
      log =
          Event.unregister_chrdev_region s.drv.dev_num
          ∷ Event.class_destroy s.drv.dev_class
          ∷ Event.device_destroy s.drv.dev_class s.drv.dev_num
          ∷ Event.cdev_del s.drv.cdev_addr
          ∷ Event.kfree s.drv.mem_addr
          ∷ Event.kfree s.mem.input_addr
          ∷ Event.iounmap s.drv.dev_ioaddr
          ∷ s.log;
    })
