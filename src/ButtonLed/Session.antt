-- ===== src/ButtonLed/Session.antt =====
-- Linux-Programing-Porting/03-button-led/app-memory-read-write.c over the driver of button-led.c: each
-- call of the application on the device runs the driver's function.
use linux_programing_n_syste.Common.{
  ℕ, ◌+◌, Bool, true, false, not, if◌then◌else◌, leb, is_null, List, [], ◌∷◌, ◌++◌, length, overlay,
  replicate,
}
use linux_programing_n_syste.Common.Int.{ℤ, pos, negsuc, is_negative, minus_one}
use linux_programing_n_syste.Common.CString.{c_string, has_nul}
use linux_programing_n_syste.Kernel.{Outcome, done, buffer_overrun, and_then}
use linux_programing_n_syste.Gpio.{Bank}
use linux_programing_n_syste.ButtonLed.{
  Module, btn_pushed_irq_handler, iomodule_open, iomodule_close,
}
use linux_programing_n_syste.ButtonLed.Rw.{Answers, Parsed, iomodule_read, iomodule_write}

abbrev pub buff_size : ℕ
buff_size = 30

pub data Message : Type 0 where
  cannot_open already_opened not_opened could_not_read end_of_file quitting invalid_option : Message
  received : List ℕ → Message
  sent : List ℕ → Message

-- The character that the user enters, with the line that is typed after `w`.
pub data Choice : Type 0 where
  open_node close_node read_node quit other : Choice
  write_node : List ℕ → Choice

-- The user chooses, and `open` and the driver's calls get these answers of the kernel; or the button is
-- pushed.
pub data Happening : Type 0 where
  chosen : ℤ → Answers → Choice → Happening
  pushed : Happening

abbrev pub is_zero : ℤ → Bool
is_zero (pos n) = is_null n
is_zero (negsuc _) = false

-- `ret <= BUFF_SIZE`.
abbrev pub fits : ℤ → Bool
fits (pos n) = leb n buff_size
fits (negsuc _) = true

module _ (b : Bank) where
  -- `fd` of `main`, the driver, and what is printed, the newest first.
  pub record App : Type 0 where
    pub fd : ℤ
    pub driver : Module b
    pub printed : List Message

  pub data Turn : Type 0 where
    continues : App → Turn
    exits : ℕ → App → Turn

  abbrev pub say : Message → App → App
  say m a = record a { printed = m ∷ a.printed }

  -- `open_chardev`, with what follows it.
  unfoldable pub open_chardev : ℤ → App → (App → Outcome Turn) → Outcome Turn
  unfolding iomodule_open
  open_chardev fd a k =
      if is_negative fd
      then done (exits 1 (say Message.cannot_open a))
      else k (record a { driver = iomodule_open b a.driver })

  unfoldable pub close_chardev : App → App
  unfolding iomodule_close
  close_chardev a = record a { driver = iomodule_close b a.driver }

  -- The three tests behind `read` and behind `write`; the last one prints the buffer.
  unfoldable pub report : ℤ → (List ℕ → Message) → List ℕ → App → Outcome Turn
  report ret well user a =
      let a1 = if is_negative ret then say Message.could_not_read a else a in
      let a2 = if is_zero ret then say Message.end_of_file a1 else a1 in
      if not (fits ret)
      then done (continues a2)
      else if not (has_nul user)
      then buffer_overrun
      else done (continues (say (well (c_string user)) a2))

  -- The descriptor is closed behind the report; nothing that is reported depends on it.
  unfoldable pub read_data_chardev : ℤ → Answers → App → Outcome Turn
  unfolding open_chardev close_chardev
  read_data_chardev fd k a = open_chardev fd a λ a1.
      and_then (iomodule_read b k buff_size (replicate buff_size 0) a1.driver) λ reply.
        report reply.ret received reply.user_buff
          (close_chardev (record a1 { driver = reply.state }))

  -- `scanf(" %[^\n]s", user_buff)` stores the line and a NUL, whatever its length.
  unfoldable pub write_data_chardev : (List ℕ → Parsed) → ℤ → Answers → List ℕ → App → Outcome Turn
  unfolding open_chardev close_chardev
  write_data_chardev kstrtoint fd k text a = open_chardev fd a λ a1.
      let user = overlay (text ++ (0 ∷ [])) (replicate buff_size 0) in
      if leb buff_size (length text)
      then buffer_overrun
      else and_then (iomodule_write b kstrtoint k (length (c_string user) + 1) user a1.driver)
          λ reply. report reply.ret sent user (close_chardev (record a1 { driver = reply.state }))

  -- The `switch` of `main`.
  unfoldable pub turn : (List ℕ → Parsed) → ℤ → Answers → Choice → App → Outcome Turn
  unfolding open_chardev close_chardev read_data_chardev write_data_chardev
  turn kstrtoint fd k open_node a =
      if is_negative a.fd
      then open_chardev fd a (λ a1. done (continues (record a1 { fd = fd })))
      else done (continues (say Message.already_opened a))
  turn kstrtoint fd k close_node a = done (
      continues (record (if is_negative a.fd then say Message.not_opened a else close_chardev a) {
        fd = minus_one;
      }))
  turn kstrtoint fd k read_node a = read_data_chardev fd k a
  turn kstrtoint fd k (write_node text) a = write_data_chardev kstrtoint fd k text a
  turn kstrtoint fd k quit a =
      done (exits 0 (say Message.quitting (if is_negative a.fd then a else close_chardev a)))
  turn kstrtoint fd k other a = done (continues (say Message.invalid_option a))

  unfoldable pub happens : (List ℕ → Parsed) → Happening → App → Outcome Turn
  unfolding turn
  happens kstrtoint (chosen fd k choice) a = turn kstrtoint fd k choice a
  happens kstrtoint pushed a =
      done (continues (record a { driver = btn_pushed_irq_handler b a.driver }))

  abbrev pub follow : Turn → (App → Outcome Turn) → Outcome Turn
  follow (continues a) k = k a
  follow (exits code a) k = done (exits code a)

  -- The loop of `main`, while the button is pushed between its turns.
  unfoldable pub main_loop : (List ℕ → Parsed) → List Happening → App → Outcome Turn
  unfolding happens
  main_loop kstrtoint [] a = done (continues a)
  main_loop kstrtoint (h ∷ rest) a =
      and_then (happens kstrtoint h a) λ t. follow t (main_loop kstrtoint rest)
