-- ===== src/PrrExercise/Examples.antt =====
-- The probe function and the start of prr_exercise.c with every call answered.
use linux_programing_n_syste.Common.{true, []}
use linux_programing_n_syste.Common.Int.{success}
use linux_programing_n_syste.Kernel.{device}
use linux_programing_n_syste.PrrExercise.{Answers, probe, loaded}
use linux_programing_n_syste.PrrExercise.Laws.{FailsHolding, probe-FailsHolding}

abbrev answered : Answers
answered = record {
  matched = true;
  plat_ptr = 0x1000;
  property_ret = success;
  dev_ptr = 0x2000;
  device_ptr = device 0x3000;
  cdev_ptr = 0x4000;
  cdev_add_ret = success;
}

probe-FailsHolding_example : FailsHolding [] (probe answered loaded)
probe-FailsHolding_example = probe-FailsHolding answered loaded
