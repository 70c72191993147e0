-- ===== src/ButtonLed/Rw.antt =====
-- `iomodule_read` and `iomodule_write` of 03-button-led/button-led.c.
use linux_programing_n_syste.Common.{
  ℕ, ◌-◌, Bool, not, if◌then◌else◌, ltb, is_null, List, [], ◌∷◌, ◌++◌, length, take, replicate,
  overlay,
}
use linux_programing_n_syste.Common.Int.{ℤ, negsuc, negate, success, neg_enomem, neg_efault}
use linux_programing_n_syste.Common.CString.{c_string, has_nul}
use linux_programing_n_syste.Common.Hex.{format_hex}
use linux_programing_n_syste.Kernel.{Event, Outcome, done, buffer_overrun}
use linux_programing_n_syste.Gpio.{Bank, oe_offset, datain_offset, debounceenable_offset}
use linux_programing_n_syste.ButtonLed.{Module, led_on, led_off}

-- The kernel's answers: the buffer of `kzalloc` (0 is NULL), and how many bytes were not copied.
pub record Answers : Type 0 where
  pub kernel_buff : ℕ
  pub uncopied : ℕ

-- `kstrtoint`: whether the converted number is other than 0, or `-(e + 1)` for `rejected e`.
pub data Parsed : Type 0 where
  converted : Bool → Parsed
  rejected : ℕ → Parsed

module _ (b : Bank) where
  pub record Reply : Type 0 where
    pub state : Module b
    pub ret : ℤ
    pub user_buff : List ℕ

  abbrev pub write_log : Event → Module b → Module b
  write_log e m = record m { log = e ∷ m.log }

  abbrev plus : List ℕ
  plus = b' ' ∷ b'+' ∷ b' ' ∷ []

  -- What `sprintf` writes, its NUL included.
  unfoldable pub printed : b.Regs → List ℕ
  printed r =
      format_hex (b.load oe_offset r)
      ++ (plus
          ++ (format_hex (b.load debounceenable_offset r)
              ++ (plus ++ (format_hex (b.load datain_offset r) ++ (b' ' ∷ 0 ∷ [])))))

  unfoldable pub iomodule_read : Answers → ℕ → List ℕ → Module b → Outcome Reply
  iomodule_read a count user m =
      let m1 = write_log (Event.kzalloc count a.kernel_buff) m in
      let text = printed m.regs in
      let buf = overlay text (replicate count 0) in
      let copied = overlay (take (count - a.uncopied) buf) user in
      if is_null a.kernel_buff
      then done (record { state = m1; ret = neg_enomem; user_buff = user })
      else if is_null count
      then done (record { state = m1; ret = neg_enomem; user_buff = user })
      else if ltb count (length text)
      then buffer_overrun
      else if not (is_null a.uncopied)
      then done (record { state = m1; ret = neg_efault; user_buff = copied })
      else done (record {
        state = write_log (Event.kfree a.kernel_buff) m1;
        ret = success;
        user_buff = copied;
      })

  -- Past `kstrtoint`.
  unfoldable pub switch_led : Parsed → Answers → List ℕ → Module b → Reply
  unfolding led_on led_off
  switch_led (rejected e) a user m = record { state = m; ret = negate (negsuc e); user_buff = user }
  switch_led (converted on) a user m = record {
    state = write_log (Event.kfree a.kernel_buff) (if on then led_on b m else led_off b m);
    ret = success;
    user_buff = user;
  }

  unfoldable pub iomodule_write :
      (List ℕ → Parsed) → Answers → ℕ → List ℕ → Module b → Outcome Reply
  iomodule_write kstrtoint a count user m =
      let m1 = write_log (Event.kzalloc count a.kernel_buff) m in
      let freed = write_log (Event.kfree a.kernel_buff) m1 in
      let buf = take count user in
      if is_null a.kernel_buff
      then done (record { state = m1; ret = neg_enomem; user_buff = user })
      else if is_null count
      then done (record { state = freed; ret = neg_enomem; user_buff = user })
      else if not (is_null a.uncopied)
      then done (record { state = freed; ret = neg_efault; user_buff = user })
      else if not (has_nul buf)
      then buffer_overrun
      else done (switch_led (kstrtoint (c_string buf)) a user m1)
