-- ===== src/OldIomodule/Session.antt =====
-- Linux-Programing-Porting/old-project/memory_read_write/app-memory-read-write.c over the driver of the
-- same directory. The application names DEVICE_NODE, which it does not define, in two of its messages;
-- it is modelled as if that were a text. What stands in a buffer that is not cleared is an argument.
use linux_programing_n_syste.Common.{
  ℕ, ◌+◌, Bool, true, false, not, if◌then◌else◌, leb, is_null, List, [], ◌∷◌, ◌++◌, length, overlay,
}
use linux_programing_n_syste.Common.Int.{ℤ, pos, negsuc, is_negative, minus_one}
use linux_programing_n_syste.Common.CString.{c_string, has_nul}
use linux_programing_n_syste.Kernel.{Outcome, done, buffer_overrun, and_then}
use linux_programing_n_syste.Iomodule.{State, iomodule_open, iomodule_close}
use linux_programing_n_syste.Iomodule.Rw.{Answers, Parsed}
use linux_programing_n_syste.OldIomodule.{Device}
use linux_programing_n_syste.OldIomodule.Rw.{pcd_read, pcd_write}

abbrev pub buff_size : ℕ
buff_size = 50

pub data Message : Type 0 where
  cannot_open already_opened not_opened could_not_read end_of_file quitting invalid_option : Message
  received : List ℕ → Message
  sent : List ℕ → Message

pub data Choice : Type 0 where
  open_node close_node quit other : Choice
  read_node : List ℕ → Choice
  write_node : List ℕ → List ℕ → Choice

abbrev pub is_zero : ℤ → Bool
is_zero (pos n) = is_null n
is_zero (negsuc _) = false

-- `ret <= BUFF_SIZE`.
abbrev pub fits : ℤ → Bool
fits (pos n) = leb n buff_size
fits (negsuc _) = true

-- `fd` of `main`, the driver, and what is printed, the newest first.
pub record App : Type 0 where
  pub fd : ℤ
  pub device : Device
  pub printed : List Message

pub data Turn : Type 0 where
  continues : App → Turn
  exits : ℕ → App → Turn

abbrev pub say : Message → App → App
say m a = record a { printed = m ∷ a.printed }

abbrev pub with_state : (State → State) → App → App
with_state f a = record a { device = record a.device { iomodule = f a.device.iomodule } }

-- `open_chardev`, with what follows it.
unfoldable pub open_chardev : ℤ → App → (App → Outcome Turn) → Outcome Turn
unfolding iomodule_open
open_chardev fd a k =
    if is_negative fd
    then done (exits 1 (say Message.cannot_open a))
    else k (with_state iomodule_open a)

unfoldable pub close_chardev : App → App
unfolding iomodule_close
close_chardev a = with_state iomodule_close a

-- The three tests behind `read` and behind `write`; the last one prints the buffer.
unfoldable pub report : ℤ → (List ℕ → Message) → List ℕ → App → Outcome Turn
report ret well user a =
    let a1 = if is_negative ret then say Message.could_not_read a else a in
    let a2 = if is_zero ret then say Message.end_of_file a1 else a1 in
    if not (fits ret)
    then done (continues a2)
    else if not (has_nul user)
    then buffer_overrun
    else done (continues (say (well (c_string user)) a2))

-- The answers of the kernel in one turn: of `open`, of the driver's calls, and the product register.
pub record Kernel : Type 0 where
  pub opened : ℤ
  pub calls : Answers
  pub core_register : ℕ

unfoldable pub read_data_chardev : Kernel → List ℕ → App → Outcome Turn
unfolding open_chardev close_chardev
read_data_chardev k held a = open_chardev k.opened a λ a1.
    and_then (pcd_read k.calls k.core_register buff_size 0 held a1.device) λ reply.
      report reply.ret received reply.user_buff
        (close_chardev (record a1 { device = reply.device }))

-- `scanf(" %[^\n]s", user_buff)` stores the line and a NUL over what the buffer held.
unfoldable pub write_data_chardev :
    (List ℕ → Parsed) → Kernel → List ℕ → List ℕ → App → Outcome Turn
unfolding open_chardev close_chardev
write_data_chardev kstrtoul k held text a = open_chardev k.opened a λ a1.
    let user = overlay (text ++ (0 ∷ [])) held in
    if leb buff_size (length text)
    then buffer_overrun
    else and_then (pcd_write kstrtoul k.calls (length (c_string user) + 1) 0 user a1.device)
        λ reply. report reply.ret sent user (close_chardev (record a1 { device = reply.device }))

-- The `switch` of `main`.
unfoldable pub turn : (List ℕ → Parsed) → Kernel → Choice → App → Outcome Turn
unfolding open_chardev close_chardev read_data_chardev write_data_chardev
turn kstrtoul k open_node a =
    if is_negative a.fd
    then open_chardev k.opened a (λ a1. done (continues (record a1 { fd = k.opened })))
    else done (continues (say Message.already_opened a))
turn kstrtoul k close_node a = done (
    continues (record (if is_negative a.fd then say Message.not_opened a else close_chardev a) {
      fd = minus_one;
    }))
turn kstrtoul k (read_node held) a = read_data_chardev k held a
turn kstrtoul k (write_node held text) a = write_data_chardev kstrtoul k held text a
turn kstrtoul k quit a =
    done (exits 0 (say Message.quitting (if is_negative a.fd then a else close_chardev a)))
turn kstrtoul k other a = done (continues (say Message.invalid_option a))

abbrev pub follow : Turn → (App → Outcome Turn) → Outcome Turn
follow (continues a) k = k a
follow (exits code a) k = done (exits code a)

-- The loop of `main`.
unfoldable pub main_loop : (List ℕ → Parsed) → List (Kernel × Choice) → App → Outcome Turn
unfolding turn
main_loop kstrtoul [] a = done (continues a)
main_loop kstrtoul ((k, choice) ∷ rest) a =
    and_then (turn kstrtoul k choice a) λ t. follow t (main_loop kstrtoul rest)
