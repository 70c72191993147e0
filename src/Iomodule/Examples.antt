-- ===== src/Iomodule/Examples.antt =====
-- Runs of the driver of 02-device-file/hello.c, and its theorems at inputs that meet their hypotheses.
use linux_programing_n_syste.Common.{
  ℕ, ◌/◌, ◌^◌, ◌<◌, ◌≤◌, ◌≡◌, ◌⊎◌, inl, inr, refl, arith, List, [], ◌∷◌, length, replicate,
}
use linux_programing_n_syste.Common.Int.{negsuc, success}
use linux_programing_n_syste.Common.Decimal.{format_u32, value}
use linux_programing_n_syste.Common.CString.{c_string}
use linux_programing_n_syste.Kernel.{device, Returns}
use linux_programing_n_syste.Kernel.Ledger.{held, nothing}
use linux_programing_n_syste.Iomodule.{State}
use linux_programing_n_syste.Iomodule.Init.{loaded, read_write_iomodule_cleanup}
use linux_programing_n_syste.Iomodule.Init
use linux_programing_n_syste.Iomodule.InitLaws.{
  load, DeviceCreated, init_failure_releases, init_cleanup_releases,
}
use linux_programing_n_syste.Iomodule.Rw.{
  Answers, Parsed, converted, rejected, pcd_read, adjust, printed,
}
use linux_programing_n_syste.Iomodule.RwBounds.{Ready}
use linux_programing_n_syste.Iomodule.RwText.{pcd_read-value}
use linux_programing_n_syste.Iomodule.Session.{Given, Usable}
use linux_programing_n_syste.Iomodule.Typed.{write_round, ReadShows, typed_address_read}
use linux_programing_n_syste.Common.Hex.{format_hex}

-- All calls succeed.
abbrev good_init : Init.Answers
good_init = record {
  alloc_ret = success;
  dev_num = 0x0F000000;
  class_ptr = 0x1000;
  device_ptr = device 0x2000;
  cdev_ptr = 0x3000;
  cdev_add_ret = success;
  mem_ptr = 0x4000;
  input_ptr = 0x5000;
  ioaddr = 0x6000;
  register = 0x04000000;
}

abbrev no_class : Init.Answers
no_class = record good_init { class_ptr = 0 }

abbrev no_cdev : Init.Answers
no_cdev = record good_init { cdev_add_ret = negsuc 15 }

init_failure_releases_example : Returns (load no_class) (λ r. held r.1.log ≡ nothing)
init_failure_releases_example = init_failure_releases no_class (omega arith) refl (inr (inl refl))

created : DeviceCreated no_cdev
created = record { region = refl; class = omega arith; device = refl; cdev = omega arith }

init_cleanup_releases_example :
    Returns
      (load good_init)
      (λ r. (r.0 ≡ success) × Returns (read_write_iomodule_cleanup r.1) (λ s. held s.log ≡ nothing))
init_cleanup_releases_example =
    init_cleanup_releases good_init
      (record { region = refl; class = omega arith; device = refl; cdev = omega arith }) refl
      (omega arith) (omega arith) (omega arith)

-- A driver in use, whose stored address is that of the product register.
abbrev in_use : State
in_use = record loaded {
  drv = record loaded.drv { dev_ioaddr = 0x6000; cdev_addr = 0x3000; mem_addr = 0x4000 };
  mem = record { input_addr = 0x5000; input_val = 0x5010; output_val = 0 };
}

abbrev reading : Answers
reading = record { kernel_buff = 0x7000; uncopied = 0; ioaddr = 0x8000; register = 1234 }

ready : Ready reading 0 in_use
ready = record { mem_addr = refl; input_addr = refl; mapped = refl; position = omega arith }

four_digits : length (format_u32 1234) ≡ 4
unfolding format_u32
four_digits = refl

-- A stand-in for the kernel's conversion: a text of one `1` converts to 1.
abbrev convert : List ℕ → Parsed
convert [] = rejected 21
convert (c ∷ []) = converted 1
convert (c ∷ _) = rejected 21

pcd_read-value_example : Returns (pcd_read reading 30 0 (replicate 30 0) in_use) (λ r.
    ((1234 < 10 ^ 9) × (value (c_string r.user_buff) ≡ 1234))
    ⊎ ((10 ^ 9 ≤ 1234) × (value (c_string r.user_buff) ≡ 1234 / 10)))
pcd_read-value_example =
    pcd_read-value reading 30 30 in_use ready refl refl (omega arith) (omega arith)

-- The user reads "1234".
read_1234 :
    Returns
      (pcd_read reading 30 0 (replicate 30 0) in_use)
      (λ r. c_string r.user_buff ≡ b'1' ∷ b'2' ∷ b'3' ∷ b'4' ∷ [])
unfolding pcd_read format_u32 adjust printed
read_1234 = refl

given : Given reading
given = record { buff = refl; copied = refl; ioaddr = refl; register = omega arith }

usable : Usable in_use
usable = record { mem_addr = refl; input_addr = refl; counted = omega arith }

abbrev to_prr : List ℕ → Parsed
to_prr text = converted 0xFF000044

typed_address_read_example :
    Returns
      (write_round to_prr reading (format_hex 0xFF000044) (replicate 20 0) in_use)
      (ReadShows reading 0xFF000044)
typed_address_read_example =
    typed_address_read to_prr reading reading 0xFF000043 (replicate 20 0) in_use refl given given
      usable
