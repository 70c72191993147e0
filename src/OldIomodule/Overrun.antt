-- ===== src/OldIomodule/Overrun.antt =====
-- Where `output_val` of the older register driver points, and what every access through it comes to.
use linux_programing_n_syste.Common.{
  ℕ, ◌+◌, ◌-◌, ◌/◌, ◌≡◌, ◌⊎◌, inl, inr, refl, sym, subst, arith, Bool, true, false, not, ◌||◌,
  if◌then◌else◌, ltb, is_null, List, length, take, replicate, overlay,
}
use linux_programing_n_syste.Common.Int.{ℤ, is_negative}
use linux_programing_n_syste.Common.CString.{c_string, has_nul}
use linux_programing_n_syste.Kernel.{is_err, Outcome, done, buffer_overrun, null_access, and_then}
use linux_programing_n_syste.Iomodule.{State, iomodule_cpu_core}
use linux_programing_n_syste.Iomodule.Init.{
  Answers, Result, failed_registed_devnum, failed_registed_devclass, failed_registed_device,
  failed_registed_cdev, failed_allocate_struct_memory, failed_allocate_memory, loaded,
}
use linux_programing_n_syste.Iomodule.Rw
use linux_programing_n_syste.Iomodule.Rw.{Parsed, converted, rejected, adjust}
use linux_programing_n_syste.OldIomodule.{Device, store_word}
use linux_programing_n_syste.OldIomodule.Init.{
  read_write_iomodule_init, init_cdev, init_buffers, init_memory, with_block, with_input, with_cdev,
  with_device,
}
use linux_programing_n_syste.OldIomodule.Rw.{Reply, pcd_read, pcd_write, write_parsed, write_mapped}

-- What a start that returns may have come to: no memory for the device, an error, or a pointer that
-- stands 32 bytes behind the start of a block of 12.
abbrev pub Pointed : Result → Type 0
Pointed (ret, s) =
    (s.drv.mem_addr ≡ 0) ⊎ ((is_negative ret ≡ true) ⊎ (s.mem.output_val ≡ s.mem.input_addr + 32))

abbrev pub IfDone : Outcome Result → Type 0
IfDone (done r) = Pointed r
IfDone buffer_overrun = ⊥
IfDone null_access = Unit

IfDone-if :
    (t : Bool) (x y : Outcome Result)
    → (t ≡ true → IfDone x)
    → IfDone y
    → IfDone (if t then x else y)
IfDone-if true x y f h = f refl
IfDone-if false x y f h = h

init_memory_points : (a : Answers) (ret : ℤ) (s : State) → IfDone (init_memory a ret s)
unfolding init_memory iomodule_cpu_core
init_memory_points a ret s =
    IfDone-if (is_null a.ioaddr) null_access _ (λ e. tt) (inr (inr (omega arith)))

init_buffers_points : (a : Answers) (ret : ℤ) (s : State) → IfDone (init_buffers a ret s)
unfolding init_buffers failed_allocate_struct_memory failed_allocate_memory failed_registed_cdev
    failed_registed_device failed_registed_devclass failed_registed_devnum
init_buffers_points a ret s =
    IfDone-if (is_null a.mem_ptr) _ _ (λ e. inr (inl refl))
      (IfDone-if (is_null a.input_ptr) _ _ (λ e. inr (inl refl))
        (init_memory_points a ret (with_input a s)))

init_cdev_points : (a : Answers) (s : State) → IfDone (init_cdev a s)
unfolding init_cdev failed_registed_cdev failed_registed_device failed_registed_devclass
    failed_registed_devnum
init_cdev_points a s =
    IfDone-if (is_null a.cdev_ptr) _ _ (λ e. tt)
      (IfDone-if (is_negative a.cdev_add_ret) _ _ (λ e. inr (inl e))
        (init_buffers_points a a.cdev_add_ret (with_cdev a s)))

init_points : (a : Answers) → IfDone (read_write_iomodule_init a loaded)
unfolding read_write_iomodule_init failed_registed_device failed_registed_devclass
    failed_registed_devnum
init_points a =
    IfDone-if (is_negative a.alloc_ret) _ _ (λ e. inl refl)
      (IfDone-if (is_null a.class_ptr) _ _ (λ e. inl refl)
        (IfDone-if (is_err a.device_ptr) _ _ (λ e. inl refl)
          (init_cdev_points a (with_device a loaded))))

-- An access through a pointer 32 bytes behind the start of a block of 12.
outside_block : (p base : ℕ) → p ≡ base + 32 → (ltb p base || not (ltb ((p - base) / 4) 3)) ≡ true
outside_block p base e = ground arith

store_past :
    (p v : ℕ) (d : Device)
    → p ≡ d.iomodule.mem.input_addr + 32
    → length d.rest ≡ 2
    → store_word p v d ≡ buffer_overrun
unfolding store_word
store_past p v d e size = rw size (rw (outside_block p d.iomodule.mem.input_addr e) refl)

-- The run does not come back to its caller.
abbrev pub Faults : {A : Type 0} → Outcome A → Type 0
Faults (done r) = ⊥
Faults buffer_overrun = Unit
Faults null_access = Unit

Faults-if : (t : Bool) (x y : Outcome Reply) → Faults x → Faults y → Faults (if t then x else y)
Faults-if true x y h k = h
Faults-if false x y h k = k

Faults-and_then :
    (p v : ℕ) (d : Device) (go : Device → Outcome Reply)
    → p ≡ d.iomodule.mem.input_addr + 32
    → length d.rest ≡ 2
    → Faults (and_then (store_word p v d) go)
Faults-and_then p v d go past size = rw (store_past p v d past size) tt

pub read-Faults :
    (r : Rw.Answers) (core_register count f_pos : ℕ) (user : List ℕ) (d : Device)
    → is_null r.kernel_buff ≡ false
    → is_null (adjust f_pos count) ≡ false
    → d.iomodule.mem.output_val ≡ d.iomodule.mem.input_addr + 32
    → length d.rest ≡ 2
    → Faults (pcd_read r core_register count f_pos user d)
unfolding pcd_read iomodule_cpu_core
read-Faults r core_register count f_pos user d buff n past size = rw buff (
    rw n (
      Faults-if
        (is_null d.iomodule.drv.mem_addr || is_null d.iomodule.mem.input_addr || is_null r.ioaddr)
        null_access _ tt (Faults-and_then d.iomodule.mem.output_val r.register _ _ past size)))

-- The text that `pcd_write` gives to `kstrtoul`.
abbrev pub received_text : ℕ → ℕ → List ℕ → List ℕ
received_text count f_pos user =
    c_string (overlay (take (adjust f_pos count) user) (replicate count 0))

pub write-Faults :
    (kstrtoul : List ℕ → Parsed) (r : Rw.Answers) (count f_pos : ℕ) (user : List ℕ) (d : Device)
    → is_null r.kernel_buff ≡ false
    → is_null (adjust f_pos count) ≡ false
    → is_null r.uncopied ≡ true
    → is_null r.ioaddr ≡ false
    → (v : ℕ) × (kstrtoul (received_text count f_pos user) ≡ converted v)
    → d.iomodule.mem.output_val ≡ d.iomodule.mem.input_addr + 32
    → length d.rest ≡ 2
    → Faults (pcd_write kstrtoul r count f_pos user d)
unfolding pcd_write write_parsed write_mapped
write-Faults kstrtoul r count f_pos user d buff n copied mapped converts past size =
    let buf = overlay (take (adjust f_pos count) user) (replicate count 0) in
    rw buff (
      rw n (
        rw copied (
          Faults-if (ltb count (adjust f_pos count)) buffer_overrun _ tt (
            Faults-if (not (has_nul buf)) buffer_overrun _ tt (
              Faults-if (is_null d.iomodule.drv.mem_addr || is_null d.iomodule.mem.input_addr)
                null_access _ tt
                (rw converts.1 (
                  rw mapped
                    (Faults-and_then d.iomodule.mem.output_val r.register _ _ past size))))))))

points :
    (a : Answers) (ret : ℤ) (s : State)
    → read_write_iomodule_init a loaded ≡ done (ret, s)
    → Pointed (ret, s)
points a ret s e = subst IfDone e (init_points a)

past_block :
    (ret : ℤ) (s : State)
    → is_negative ret ≡ false
    → is_null s.drv.mem_addr ≡ false
    → Pointed (ret, s)
    → s.mem.output_val ≡ s.mem.input_addr + 32
past_block ret s well there (inl e) =
    absurd (subst (λ p. is_null p ≡ false → ⊥) (sym e) (λ f. cc) there)
past_block ret s well there (inr (inl e)) = absurd (cc)
past_block ret s well there (inr (inr e)) = e

pub started_past :
    (a : Answers) (ret : ℤ) (s : State)
    → read_write_iomodule_init a loaded ≡ done (ret, s)
    → is_negative ret ≡ false
    → is_null s.drv.mem_addr ≡ false
    → s.mem.output_val ≡ s.mem.input_addr + 32
started_past a ret s started well there = past_block ret s well there (points a ret s started)

-- Once the module has started and has its memory, no read and no write that gets as far as the hardware
-- comes back: with a buffer, with bytes to transfer, and for a write with all of them copied and the
-- text of a number among them, the register's value is stored behind the end of the block, or the run has faulted
-- before.
pub every_access-Faults :
    (a : Answers) (ret : ℤ) (s : State) (r : Rw.Answers) (kstrtoul : List ℕ → Parsed)
    (core_register count f_pos : ℕ) (user : List ℕ)
    → read_write_iomodule_init a loaded ≡ done (ret, s)
    → is_negative ret ≡ false
    → is_null s.drv.mem_addr ≡ false
    → is_null r.kernel_buff ≡ false
    → is_null (adjust f_pos count) ≡ false
    → is_null r.uncopied ≡ true
    → is_null r.ioaddr ≡ false
    → (v : ℕ) × (kstrtoul (received_text count f_pos user) ≡ converted v)
    → Faults (pcd_read r core_register count f_pos user (with_block s))
      × Faults (pcd_write kstrtoul r count f_pos user (with_block s))
every_access-Faults a ret s r kstrtoul core_register count f_pos user started well there buff n
      copied mapped converts =
    let past = started_past a ret s started well there in
    (
      read-Faults r core_register count f_pos user (with_block s) buff n past refl,
      write-Faults kstrtoul r count f_pos user (with_block s) buff n copied mapped converts past
          refl,
    )
