-- ===== src/OldIomodule/Rw.antt =====
-- `pcd_read` and `pcd_write` of old-project/memory_read_write/memory_read_write.c. The answers of the
-- kernel are those of the newer driver's functions.
use linux_programing_n_syste.Common.{
  ℕ, ◌-◌, ◌/◌, ◌%◌, ◌||◌, ltb, if◌then◌else◌, is_null, not, List, [], ◌∷◌, take, replicate, overlay,
}
use linux_programing_n_syste.Common.Int.{ℤ, negsuc, negate, success, neg_enomem, neg_efault}
use linux_programing_n_syste.Common.CString.{c_string, has_nul}
use linux_programing_n_syste.Kernel.{Event, Outcome, done, buffer_overrun, null_access, and_then}
use linux_programing_n_syste.Iomodule.{prr_port_base, prr_port_len, reg_max_size, iomodule_cpu_core}
use linux_programing_n_syste.Iomodule.Rw.{Answers, Parsed, converted, rejected, adjust, write_log}
use linux_programing_n_syste.OldIomodule.{Device, store_word, load_word}

pub record Reply : Type 0 where
  pub device : Device
  pub ret : ℤ
  pub f_pos : ℕ
  pub user_buff : List ℕ

-- The bytes of a word in memory, the lowest first.
abbrev pub word_bytes : ℕ → List ℕ
word_bytes w = w % 256 ∷ w / 256 % 256 ∷ w / 65536 % 256 ∷ w / 16777216 % 256 ∷ []

-- The register is read twice: first for `iomodule_cpu_core`.
unfoldable pub pcd_read : Answers → ℕ → ℕ → ℕ → List ℕ → Device → Outcome Reply
unfolding store_word
pcd_read a core_register count f_pos user d =
    let s = d.iomodule in
    let s1 = write_log (Event.kzalloc count a.kernel_buff) s in
    let n = adjust f_pos count in
    let cell = if is_null s.input_cell then prr_port_base else s.input_cell in
    let s2 = record s1 {
      drv = record s.drv { dev_ioaddr = a.ioaddr };
      input_cell = cell;
      log = Event.ioremap cell prr_port_len a.ioaddr ∷ s1.log;
    } in
    let d2 = record d { iomodule = (iomodule_cpu_core core_register s2).0 } in
    if is_null a.kernel_buff
    then done (record {
      device = record d { iomodule = s1 };
      ret = neg_enomem;
      f_pos = f_pos;
      user_buff = user;
    })
    else if is_null n
    then done (record {
      device = record d { iomodule = s1 };
      ret = neg_enomem;
      f_pos = f_pos;
      user_buff = user;
    })
    else if is_null s.drv.mem_addr || is_null s.mem.input_addr || is_null a.ioaddr
    then null_access
    else and_then (store_word s.mem.output_val a.register d2) λ d3.
      let buf = overlay (word_bytes (load_word s.mem.output_val d3)) (replicate count 0) in
      let user' = overlay (take (n - a.uncopied) buf) user in
      if ltb count reg_max_size || ltb count n
      then buffer_overrun
      else if is_null a.uncopied
      then done (record {
        device = record d3 { iomodule = write_log (Event.kfree a.kernel_buff) d3.iomodule };
        ret = success;
        f_pos = n;
        user_buff = user';
      })
      else done (record { device = d3; ret = neg_efault; f_pos = f_pos; user_buff = user' })

-- Past `kstrtoul`, once the number is stored.
unfoldable pub write_mapped : Answers → ℕ → ℕ → List ℕ → Device → Outcome Reply
unfolding store_word
write_mapped a n f_pos user d =
    let s = d.iomodule in
    let s1 = record s {
      drv = record s.drv { dev_ioaddr = a.ioaddr };
      log = Event.ioremap s.input_cell prr_port_len a.ioaddr ∷ s.log;
    } in
    if is_null a.ioaddr
    then done (record {
      device = record d { iomodule = write_log (Event.kfree a.kernel_buff) s1 };
      ret = neg_efault;
      f_pos = f_pos;
      user_buff = user;
    })
    else and_then (store_word s.mem.output_val a.register (record d { iomodule = s1 })) λ d2.
      done (record {
        device = record d2 { iomodule = write_log (Event.kfree a.kernel_buff) d2.iomodule };
        ret = success;
        f_pos = n;
        user_buff = user;
      })

unfoldable pub write_parsed : Parsed → Answers → ℕ → ℕ → List ℕ → Device → Outcome Reply
unfolding write_mapped
write_parsed (converted v) a n f_pos user d =
    write_mapped a n f_pos user (record d { iomodule = record d.iomodule { input_cell = v } })
write_parsed (rejected e) a n f_pos user d =
    done (record { device = d; ret = negate (negsuc e); f_pos = f_pos; user_buff = user })

unfoldable pub pcd_write : (List ℕ → Parsed) → Answers → ℕ → ℕ → List ℕ → Device → Outcome Reply
unfolding write_parsed
pcd_write kstrtoul a count f_pos user d =
    let s = d.iomodule in
    let s1 = write_log (Event.kzalloc count a.kernel_buff) s in
    let freed = record d { iomodule = write_log (Event.kfree a.kernel_buff) s1 } in
    let n = adjust f_pos count in
    let buf = overlay (take n user) (replicate count 0) in
    if is_null a.kernel_buff
    then done (record {
      device = record d { iomodule = s1 };
      ret = neg_enomem;
      f_pos = f_pos;
      user_buff = user;
    })
    else if is_null n
    then done (record { device = freed; ret = neg_enomem; f_pos = f_pos; user_buff = user })
    else if ltb count n
    then buffer_overrun
    else if not (is_null a.uncopied)
    then done (record { device = freed; ret = neg_efault; f_pos = f_pos; user_buff = user })
    else if not (has_nul buf)
    then buffer_overrun
    else if is_null s.drv.mem_addr || is_null s.mem.input_addr
    then null_access
    else write_parsed (kstrtoul (c_string buf)) a n f_pos user (record d { iomodule = s1 })
