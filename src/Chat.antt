-- ===== src/Chat.antt =====
-- Linux-Programing-N-System/7-Socket/7.2-Internet-Datagram and 7.2-Internet-Stream: a server and a
-- client that send each other a line in turn until one of them types `exit`. Here: what the four
-- programs share. `Outcome`'s buffer_overrun stands for a read past the end of a buffer too.
pub mod Datagram
pub mod Lines
pub mod Talk
pub mod Stream
pub mod StreamBounds
pub mod Mains
pub mod Serving
pub mod Lives
pub mod StreamLives
mod Examples
use linux_programing_n_syste.Common.{
  ℕ, zero, suc, ◌+◌, Bool, true, false, ◌&&◌, ◌==◌, if◌then◌else◌, List, [], ◌∷◌, ◌++◌, length,
  drop, overlay, replicate,
}
use linux_programing_n_syste.Common.Int.{ℤ, pos, negsuc}
use linux_programing_n_syste.Common.Typed.{line}
use linux_programing_n_syste.Common.CString.{c_string}
use linux_programing_n_syste.Kernel.{Outcome, done, buffer_overrun}

abbrev pub buf_size : ℕ
buf_size = 30

-- `memset(buf, '0', BUF_SIZE)`: the character, not the NUL.
abbrev pub filled : List ℕ
filled = replicate buf_size b'0'

-- The second text begins with the first.
unfoldable pub starts : List ℕ → List ℕ → Bool
starts [] cs = true
starts (p ∷ ps) [] = false
starts (p ∷ ps) (c ∷ cs) = p == c && starts ps cs

abbrev pub exit_word : List ℕ
exit_word = b'e' ∷ b'x' ∷ b'i' ∷ b't' ∷ []

-- `strncmp(buf, "exit", 4) == 0`.
abbrev pub is_exit : List ℕ → Bool
is_exit buf = starts exit_word buf

-- One side of a chat: what is typed and not yet read, and the messages shown and sent, the oldest
-- first.
pub record Side : Type 0 where
  pub stdin : List ℕ
  pub shown : List (List ℕ)
  pub sent : List (List ℕ)

-- How a round of the loop ends: with the next one, with `break`, or with the process.
pub data Ended : Type 0 where
  goes_on : Side → Ended
  leaves : Side → Ended
  exits : Side → Ended

-- `fgets(sendbuf, BUF_SIZE, stdin)` into the buffer of the character 0, and what follows with the
-- buffer and the message up to its NUL. At the end of the input the buffer has no NUL, and `strlen`
-- reads past its end.
unfoldable pub type_line : List ℕ → Side → (List ℕ → List ℕ → Side → Outcome Ended) → Outcome Ended
unfolding line
type_line [] s k = buffer_overrun
type_line (c ∷ cs) s k =
    let text = line 29 (c ∷ cs) in
    let buf = overlay (text ++ (0 ∷ [])) filled in
    k buf (c_string buf) (record s { stdin = drop (length text) (c ∷ cs) })

abbrev pub show : List ℕ → Side → Side
show m s = record s { shown = s.shown ++ (m ∷ []) }

abbrev pub post : List ℕ → Side → Side
post m s = record s { sent = s.sent ++ (m ∷ []) }

-- The test `n == length`.
abbrev pub is_length : ℤ → ℕ → Bool
is_length (pos n) m = n == m
is_length (negsuc _) m = false
