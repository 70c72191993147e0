-- ===== src/App.antt =====
-- Linux-Programing-Porting/02-device-file/app-memory-read-write.c: the application of the character
-- device, an endless menu over one descriptor. What the user types and what `open`, `read` and
-- `write` answer are arguments; what is printed, and how many descriptors are open, is state.
pub mod Laws
mod Examples
use linux_programing_n_syste.Common.{
  ℕ, suc, ◌+◌, ◌-◌, Bool, true, false, List, [], ◌∷◌, if◌then◌else◌, leb,
}
use linux_programing_n_syste.Common.Int.{ℤ, pos, negsuc, is_negative, minus_one}

abbrev pub buff_size : ℕ
buff_size = 30

pub data Message : Type 0 where
  cannot_open already_opened not_opened could_not_read end_of_file : Message
  received sent quit invalid_option : Message

-- The character that the user enters.
pub data Choice : Type 0 where
  o c r w q other : Choice

-- `fd` of `main`; `open_files` counts the open descriptors; the newest message stands first.
pub record App : Type 0 where
  pub fd : ℤ
  pub open_files : ℕ
  pub printed : List Message

pub data Turn : Type 0 where
  continues : App → Turn
  exits : ℕ → App → Turn

abbrev pub say : Message → App → App
say m a = record a { printed = m ∷ a.printed }

-- The answers of the kernel in one turn: what `open` and then `read` or `write` return.
pub record Answers : Type 0 where
  pub opened : ℤ
  pub ret : ℤ

abbrev pub is_zero : ℤ → Bool
is_zero (pos n) = leb n 0
is_zero (negsuc _) = false

-- `ret <= BUFF_SIZE`, of an `int` and an `int`.
abbrev pub fits_buffer : ℤ → Bool
fits_buffer (pos n) = leb n buff_size
fits_buffer (negsuc _) = true

-- `open_chardev`, with what follows it; a failure ends the process.
unfoldable pub open_chardev : ℤ → App → (App → Turn) → Turn
open_chardev fd a k =
    if is_negative fd
    then exits 1 (say Message.cannot_open a)
    else k (record a { open_files = suc a.open_files })

unfoldable pub close_chardev : App → App
close_chardev a = record a { open_files = a.open_files - 1 }

-- The three tests behind `read` and behind `write`.
unfoldable pub report : ℤ → Message → App → App
report ret well a =
    let a1 = if is_negative ret then say Message.could_not_read a else a in
    let a2 = if is_zero ret then say Message.end_of_file a1 else a1 in
    if fits_buffer ret then say well a2 else a2

unfoldable pub read_data_chardev : Answers → App → Turn
unfolding open_chardev close_chardev report
read_data_chardev k a =
    open_chardev k.opened a λ b. continues (close_chardev (report k.ret Message.received b))

unfoldable pub write_data_chardev : Answers → App → Turn
unfolding open_chardev close_chardev report
write_data_chardev k a =
    open_chardev k.opened a λ b. continues (report k.ret Message.sent (close_chardev b))

-- The `switch` of `main`.
unfoldable pub turn : Answers → Choice → App → Turn
unfolding read_data_chardev write_data_chardev open_chardev close_chardev
turn k o a =
    if is_negative a.fd
    then open_chardev k.opened a (λ b. continues (record b { fd = k.opened }))
    else continues (say Message.already_opened a)
turn k c a =
    continues (record (if is_negative a.fd then say Message.not_opened a else close_chardev a) {
      fd = minus_one;
    })
turn k r a = read_data_chardev k a
turn k w a = write_data_chardev k a
turn k q a = exits 0 (say Message.quit (if is_negative a.fd then a else close_chardev a))
turn k other a = continues (say Message.invalid_option a)

abbrev pub started : App
started = record { fd = minus_one; open_files = 0; printed = [] }

abbrev pub follow : Turn → (App → Turn) → Turn
follow (continues b) k = k b
follow (exits code b) k = exits code b

-- The loop of `main` over the user's choices; it stops where the process exits.
unfoldable pub main_loop : List (Answers × Choice) → App → Turn
main_loop [] a = continues a
main_loop ((k, ch) ∷ rest) a = follow (turn k ch a) (main_loop rest)
