-- ===== src/Iomodule/Rw.antt =====
-- `pcd_read` and `pcd_write` of 02-device-file/hello.c. The answers of the kernel are a record for
-- each call of the function; the user's buffer is a list of bytes.
use linux_programing_n_syste.Common.{
  ℕ, ◌+◌, ◌-◌, ◌^◌, ◌||◌, ltb, if◌then◌else◌, is_null, List, [], ◌∷◌, ◌++◌, length, take, replicate,
  overlay, not,
}
use linux_programing_n_syste.Common.Int.{ℤ, negsuc, negate, success, neg_enomem, neg_efault}
use linux_programing_n_syste.Common.Decimal.{format_u32}
use linux_programing_n_syste.Common.CString.{c_string, has_nul}
use linux_programing_n_syste.Kernel.{Event, Outcome, done, buffer_overrun, null_access}
use linux_programing_n_syste.Iomodule.{prr_port_base, prr_port_len, data_transmit, u32, State}

-- The kernel's answers: the buffer of `kzalloc` (0 is NULL), how many bytes `copy_to_user` or
-- `copy_from_user` could not copy, the mapping of `ioremap`, and what `ioread32` reads there.
pub record Answers : Type 0 where
  pub kernel_buff : ℕ
  pub uncopied : ℕ
  pub ioaddr : ℕ
  pub register : ℕ

-- `kstrtoul`: the converted number, or `-(e + 1)` for `rejected e`, with nothing stored.
pub data Parsed : Type 0 where
  converted : ℕ → Parsed
  rejected : ℕ → Parsed

pub record Reply : Type 0 where
  pub state : State
  pub ret : ℤ
  pub f_pos : ℕ
  pub user_buff : List ℕ

abbrev pub write_log : Event → State → State
write_log e s = record s { log = e ∷ s.log }

-- `DATA_TRANSMIT - *f_pos` is computed in 64 bits and stored in a 32-bit `size_t`.
unfoldable pub adjust : ℕ → ℕ → ℕ
adjust f_pos count =
    if ltb data_transmit (f_pos + count) then u32 (data_transmit + 2 ^ 64 - f_pos) else count

-- What `sprintf(kernel_buff, "%u", v)` and `kernel_buff[len+1] = '0'` write, from the start on.
unfoldable pub printed : ℕ → List ℕ
printed v = format_u32 v ++ (0 ∷ b'0' ∷ [])

unfoldable pub pcd_read : Answers → ℕ → ℕ → List ℕ → State → Outcome Reply
pcd_read a count f_pos user s =
    let s1 = write_log (Event.kzalloc count a.kernel_buff) s in
    let n = adjust f_pos count in
    let cell = if is_null s.input_cell then prr_port_base else s.input_cell in
    let drv2 = record s.drv { dev_ioaddr = a.ioaddr } in
    let s2 = record s1 {
      drv = drv2;
      mem = record s.mem { output_val = a.register };
      input_cell = cell;
      log = Event.ioremap cell prr_port_len a.ioaddr ∷ s1.log;
    } in
    let text = printed a.register in
    let buf = overlay text (replicate count 0) in
    let user' = overlay (take (n - a.uncopied) buf) user in
    if is_null a.kernel_buff
    then done (record { state = s1; ret = neg_enomem; f_pos = f_pos; user_buff = user })
    else if is_null n
    then done (record { state = s1; ret = neg_enomem; f_pos = f_pos; user_buff = user })
    else if is_null s.drv.mem_addr || is_null s.mem.input_addr || is_null a.ioaddr
    then null_access
    else if ltb count (length text) || ltb count n
    then buffer_overrun
    else if is_null a.uncopied
    then done (record {
      state = write_log (Event.kfree a.kernel_buff) s2;
      ret = success;
      f_pos = n;
      user_buff = user';
    })
    else done (record { state = s2; ret = neg_efault; f_pos = f_pos; user_buff = user' })

-- Past `kstrtoul`, once the number is stored.
write_mapped : Answers → ℕ → ℕ → List ℕ → State → Reply
write_mapped a n f_pos user s =
    let s1 = record s {
      drv = record s.drv { dev_ioaddr = a.ioaddr };
      log = Event.ioremap s.input_cell prr_port_len a.ioaddr ∷ s.log;
    } in
    let freed = write_log (Event.kfree a.kernel_buff) s1 in
    if is_null a.ioaddr
    then record { state = freed; ret = neg_efault; f_pos = f_pos; user_buff = user }
    else record {
      state = record freed { mem = record s.mem { output_val = a.register } };
      ret = success;
      f_pos = n;
      user_buff = user;
    }

write_parsed : Parsed → Answers → ℕ → ℕ → List ℕ → State → Reply
unfolding write_mapped
write_parsed (converted v) a n f_pos user s =
    write_mapped a n f_pos user (record s { input_cell = v })
write_parsed (rejected e) a n f_pos user s = record {
  state = s;
  ret = negate (negsuc e);
  f_pos = f_pos;
  user_buff = user;
}

unfoldable pub pcd_write : (List ℕ → Parsed) → Answers → ℕ → ℕ → List ℕ → State → Outcome Reply
unfolding write_parsed
pcd_write kstrtoul a count f_pos user s =
    let s1 = write_log (Event.kzalloc count a.kernel_buff) s in
    let freed = write_log (Event.kfree a.kernel_buff) s1 in
    let n = adjust f_pos count in
    let buf = overlay (take n user) (replicate count 0) in
    if is_null a.kernel_buff
    then done (record { state = s1; ret = neg_enomem; f_pos = f_pos; user_buff = user })
    else if is_null n
    then done (record { state = freed; ret = neg_enomem; f_pos = f_pos; user_buff = user })
    else if ltb count n
    then buffer_overrun
    else if not (is_null a.uncopied)
    then done (record { state = freed; ret = neg_efault; f_pos = f_pos; user_buff = user })
    else if not (has_nul buf)
    then buffer_overrun
    else if is_null s.drv.mem_addr || is_null s.mem.input_addr
    then null_access
    else done (write_parsed (kstrtoul (c_string buf)) a n f_pos user s1)
