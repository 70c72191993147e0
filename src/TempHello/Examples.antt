-- ===== src/TempHello/Examples.antt =====
-- The start of temp-hello.c where the device cannot be made.
use linux_programing_n_syste.Common.{◌≡◌, refl}
use linux_programing_n_syste.Common.Int.{success}
use linux_programing_n_syste.Kernel.{err_ptr}
use linux_programing_n_syste.TempHello.{Answers, hello_world_init, loaded}

abbrev no_device : Answers
no_device = record {
  alloc_ret = success;
  dev_num = 0x0F000000;
  class_ptr = 0x1000;
  device_ptr = err_ptr 12;
}

-- The start counts as success.
missing_device : (hello_world_init no_device loaded).0 ≡ success
unfolding hello_world_init
missing_device = refl
