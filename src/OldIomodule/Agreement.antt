-- ===== src/OldIomodule/Agreement.antt =====
-- The starts of the two forms of the register driver.
use linux_programing_n_syste.Common.{◌≡◌, refl, Bool, true, false, if◌then◌else◌, is_null}
use linux_programing_n_syste.Common.Int.{ℤ, is_negative}
use linux_programing_n_syste.Kernel.{is_err, Outcome, done, null_access, and_then}
use linux_programing_n_syste.Iomodule.{State, iomodule_cpu_core}
use linux_programing_n_syste.Iomodule.Init
use linux_programing_n_syste.Iomodule.Init.{Answers, Result, call, memory_dev_size}
use linux_programing_n_syste.OldIomodule.Init.{
  read_write_iomodule_init, init_cdev, init_buffers, init_memory, with_input, with_cdev,
  with_device,
}

-- A result with nothing said of `output_val`.
abbrev pub but_output_val : Outcome Result → Outcome Result
but_output_val o =
    and_then o λ r. done (r.0, record r.1 { mem = record r.1.mem { output_val = 0 } })

agree_if :
    (t : Bool) (x y y' : Outcome Result)
    → but_output_val y ≡ but_output_val y'
    → but_output_val (if t then x else y) ≡ but_output_val (if t then x else y')
agree_if true x y y' e = refl
agree_if false x y y' e = e

init_memory_agree :
    (a : Answers) (ret : ℤ) (s : State)
    → but_output_val (init_memory a ret s) ≡ but_output_val (Init.init_memory a ret s)
unfolding init_memory Init.init_memory iomodule_cpu_core
init_memory_agree a ret s = agree_if (is_null a.ioaddr) null_access _ _ refl

init_buffers_agree :
    (a : Answers) (ret : ℤ) (s : State)
    → but_output_val (init_buffers a ret s) ≡ but_output_val (Init.init_buffers a ret s)
unfolding init_buffers Init.init_buffers
init_buffers_agree a ret s =
    agree_if (is_null a.mem_ptr) _ _ _
      (agree_if (is_null a.input_ptr) _ _ _ (init_memory_agree a ret (with_input a s)))

init_cdev_agree :
    (a : Answers) (s : State) → but_output_val (init_cdev a s) ≡ but_output_val (Init.init_cdev a s)
unfolding init_cdev Init.init_cdev
init_cdev_agree a s = agree_if (is_null a.cdev_ptr) _ _ _ (
    agree_if (is_negative a.cdev_add_ret) _ _ _
      (init_buffers_agree a a.cdev_add_ret (with_cdev a s)))

-- For all answers of the kernel, the two drivers start alike: they make the same calls in the same
-- order, return the same status and leave the same state, but for the pointer or value `output_val`.
pub starts_agree :
    (a : Answers) (s : State)
    → but_output_val (read_write_iomodule_init a s)
      ≡ but_output_val (Init.read_write_iomodule_init a s)
unfolding read_write_iomodule_init Init.read_write_iomodule_init
starts_agree a s = agree_if (is_negative a.alloc_ret) _ _ _ (
    agree_if (is_null a.class_ptr) _ _ _
      (agree_if (is_err a.device_ptr) _ _ _ (init_cdev_agree a (with_device a s))))
