-- ===== src/OldIomodule/Init.antt =====
-- `read_write_IOmodule_init` of old-project/memory_read_write/memory_read_write.c, with the cleanup
-- labels of the newer driver, which are the same.
use linux_programing_n_syste.Common.{◌+◌, ◌*◌, if◌then◌else◌, is_null, [], ◌∷◌}
use linux_programing_n_syste.Common.Int.{ℤ, success, neg_enomem, is_negative}
use linux_programing_n_syste.Kernel.{is_err, Event, Outcome, done, null_access}
use linux_programing_n_syste.Iomodule.{
  prr_port_base, prr_port_len, reg_max_size, dev_max_size, State, iomodule_cpu_core,
}
use linux_programing_n_syste.Iomodule.Init.{
  Answers, Result, call, memory_dev_size, failed_registed_devnum, failed_registed_devclass,
  failed_registed_device, failed_registed_cdev, failed_allocate_struct_memory,
  failed_allocate_memory,
}
use linux_programing_n_syste.OldIomodule.{Device}

-- Both pointers are moved by words of four bytes.
unfoldable pub init_memory : Answers → ℤ → State → Outcome Result
init_memory a ret s =
    let input_val = s.mem.input_addr + 4 * reg_max_size in
    let s1 = record s {
      mem = record s.mem { input_val = input_val; output_val = input_val + 4 * reg_max_size };
      drv = record s.drv { dev_ioaddr = a.ioaddr };
      log = Event.ioremap prr_port_base prr_port_len a.ioaddr ∷ s.log;
    } in
    if is_null a.ioaddr then null_access else done (success, (iomodule_cpu_core a.register s1).0)

-- The state after the first `kzalloc`, and after the second.
abbrev pub with_struct : Answers → State → State
with_struct a s =
    call (Event.kzalloc memory_dev_size a.mem_ptr)
      (record s { drv = record s.drv { mem_addr = a.mem_ptr } })

abbrev pub with_input : Answers → State → State
with_input a s = call (Event.kzalloc dev_max_size a.input_ptr) (record (with_struct a s) {
  mem = record { input_addr = a.input_ptr; input_val = 0; output_val = 0 };
  input_cell = 0;
})

-- Once the character device is added.
unfoldable pub init_buffers : Answers → ℤ → State → Outcome Result
unfolding init_memory
init_buffers a ret s =
    if is_null a.mem_ptr
    then done (failed_allocate_struct_memory neg_enomem (with_struct a s))
    else if is_null a.input_ptr
    then done (failed_allocate_memory neg_enomem (with_input a s))
    else init_memory a ret (with_input a s)

-- The state after `cdev_add`.
abbrev pub with_cdev : Answers → State → State
with_cdev a s = call (Event.cdev_add a.cdev_ptr a.cdev_add_ret) (record s {
  drv = record s.drv { cdev_addr = a.cdev_ptr };
  log = Event.cdev_init a.cdev_ptr ∷ Event.cdev_alloc a.cdev_ptr ∷ s.log;
})

-- Once the device file is created.
unfoldable pub init_cdev : Answers → State → Outcome Result
unfolding init_buffers
init_cdev a s =
    if is_null a.cdev_ptr
    then null_access
    else if is_negative a.cdev_add_ret
    then done (failed_registed_cdev a.cdev_add_ret (with_cdev a s))
    else init_buffers a a.cdev_add_ret (with_cdev a s)

-- The state after `alloc_chrdev_region`, `class_create` and `device_create`.
abbrev pub with_number : Answers → State → State
with_number a s =
    call (Event.alloc_chrdev_region a.alloc_ret) (record s {
      drv = record s.drv { dev_num = if is_negative a.alloc_ret then 0 else a.dev_num };
    })

abbrev pub with_class : Answers → State → State
with_class a s =
    let s1 = with_number a s in
    call (Event.class_create a.class_ptr)
      (record s1 { drv = record s1.drv { dev_class = a.class_ptr } })

abbrev pub with_device : Answers → State → State
with_device a s =
    let s2 = with_class a s in
    call (Event.device_create a.device_ptr)
      (record s2 { drv = record s2.drv { dev_create = a.device_ptr } })

unfoldable pub read_write_iomodule_init : Answers → State → Outcome Result
unfolding init_cdev
read_write_iomodule_init a s =
    if is_negative a.alloc_ret
    then done (failed_registed_devnum a.alloc_ret (with_number a s))
    else if is_null a.class_ptr
    then done (failed_registed_devclass a.alloc_ret (with_class a s))
    else if is_err a.device_ptr
    then done (failed_registed_device a.alloc_ret (with_device a s))
    else init_cdev a (with_device a s)

-- The module once `input_addr` is allocated: a block of three words of zeros.
abbrev pub with_block : State → Device
with_block s = record { iomodule = s; rest = 0 ∷ 0 ∷ [] }
