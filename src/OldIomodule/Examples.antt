-- ===== src/OldIomodule/Examples.antt =====
-- The start of the older register driver with every call answered, and an access after it.
use linux_programing_n_syste.Common.{ℕ, ◌≡◌, refl, List, [], ◌∷◌}
use linux_programing_n_syste.Common.Int.{success, pos, minus_one}
use linux_programing_n_syste.Kernel.{device, Event, done}
use linux_programing_n_syste.Iomodule.{State, iomodule_cpu_core}
use linux_programing_n_syste.Iomodule.Init.{Answers, loaded}
use linux_programing_n_syste.Iomodule.Init
use linux_programing_n_syste.Iomodule.Rw
use linux_programing_n_syste.Iomodule.Rw.{Parsed, converted, adjust}
use linux_programing_n_syste.OldIomodule.Init.{
  read_write_iomodule_init, with_block, init_cdev, init_buffers, init_memory,
}
use linux_programing_n_syste.OldIomodule.Overrun.{Faults}
use linux_programing_n_syste.OldIomodule.Session.{Kernel, Choice, main_loop}
use linux_programing_n_syste.OldIomodule.FirstAccess.{first_access-Faults}
use linux_programing_n_syste.OldIomodule.Agreement.{but_output_val, starts_agree}

abbrev answered : Answers
answered = record {
  alloc_ret = success;
  dev_num = 0x0F000000;
  class_ptr = 0x1000;
  device_ptr = device 0x2000;
  cdev_ptr = 0x3000;
  cdev_add_ret = success;
  mem_ptr = 0x4000;
  input_ptr = 0x5000;
  ioaddr = 0x6000;
  register = 0x04000000;
}

abbrev started : State
started = record {
  drv = record {
    dev_num = 0x0F000000;
    dev_class = 0x1000;
    dev_create = device 0x2000;
    dev_ioaddr = 0x6000;
    cdev_addr = 0x3000;
    count = 0;
    mem_addr = 0x4000;
  };
  mem = record { input_addr = 0x5000; input_val = 0x5010; output_val = 0x5020 };
  input_cell = 0;
  cpu_core = 0x04000000;
  log =
      Event.ioremap 0xFF000044 4 0x6000
      ∷ Event.kzalloc 12 0x5000
      ∷ Event.kzalloc 12 0x4000
      ∷ Event.cdev_add 0x3000 success
      ∷ Event.cdev_init 0x3000
      ∷ Event.cdev_alloc 0x3000
      ∷ Event.device_create (device 0x2000)
      ∷ Event.class_create 0x1000
      ∷ Event.alloc_chrdev_region success
      ∷ [];
}

starts : read_write_iomodule_init answered loaded ≡ done (success, started)
unfolding read_write_iomodule_init init_cdev init_buffers init_memory iomodule_cpu_core
starts = refl

abbrev access : Rw.Answers
access = record { kernel_buff = 0x7000; uncopied = 0; ioaddr = 0x8000; register = 1234 }

abbrev to_seven : List ℕ → Parsed
to_seven text = converted 7

within : adjust 0 9 ≡ 9
unfolding adjust
within = refl

starts_agree_example :
    but_output_val (read_write_iomodule_init answered loaded)
    ≡ but_output_val (Init.read_write_iomodule_init answered loaded)
starts_agree_example = starts_agree answered loaded

abbrev answering : Kernel
answering = record { opened = pos 3; calls = access; core_register = 5 }

first_access-Faults_example : Faults (
    main_loop to_seven
      ((answering, Choice.open_node)
        ∷ ((answering, Choice.other) ∷ (answering, Choice.write_node [] (b'7' ∷ [])) ∷ []))
      (record { fd = minus_one; device = with_block started; printed = [] }))
first_access-Faults_example =
    first_access-Faults answered success started to_seven
      ((answering, Choice.open_node) ∷ (answering, Choice.other) ∷ []) [] answering
      (Choice.write_node [] (b'7' ∷ [])) minus_one starts refl refl (refl, (tt, tt)) (7, refl)
      (record { opened = refl; buff = refl; copied = refl; mapped = refl })
