-- ===== src/Chat/Serving.antt =====
-- The loop of `main` in 7.2-Internet-Stream/stream_server.c: one client after the other.
use linux_programing_n_syste.Common.{
  ℕ, suc, ◌+◌, ◌≡◌, ap, ◌∙◌, arith, true, if◌then◌else◌, List, [], ◌∷◌, length, map, overlay, some,
}
use linux_programing_n_syste.Common.Int.{is_minus_one, ℤ, pos}
use linux_programing_n_syste.Kernel.{Outcome, done, buffer_overrun, null_access}
use linux_programing_n_syste.Chat.{filled, is_exit, Side, Ended, goes_on, leaves, exits}
use linux_programing_n_syste.Chat.Datagram.{rounds}
use linux_programing_n_syste.Chat.Stream.{Answers, server_round, server_received}

-- What `accept` answers, and then the rounds of the chat.
pub record Client : Type 0 where
  pub fd : ℤ
  pub answers : List Answers

-- Waiting for the next client, in a chat, or at the end of the process, with the number of open
-- descriptors.
pub data Serving : Type 0 where
  waits : ℕ → Side → Serving
  chatting : ℕ → Side → Serving
  stopped : ℕ → Serving

-- What follows a chat.
unfoldable pub after_chat : Outcome Ended → ℕ → (ℕ → Side → Outcome Serving) → Outcome Serving
after_chat (done (leaves s)) n k = k n s
after_chat (done (goes_on s)) n k = done (chatting n s)
after_chat (done (exits s)) n k = done (stopped n)
after_chat buffer_overrun n k = buffer_overrun
after_chat null_access n k = null_access

-- `client_fd` is overwritten by the next `accept`, and never closed.
unfoldable pub serve_clients : List Client → ℕ → Side → Outcome Serving
unfolding after_chat
serve_clients [] n s = done (waits n s)
serve_clients (c ∷ rest) n s =
    if is_minus_one c.fd
    then done (stopped n)
    else after_chat (rounds server_round c.answers s) (suc n) (serve_clients rest)

-- A client that connects and says `exit` at once.
abbrev pub says_exit : ℕ → List ℕ → Client
says_exit fd bytes = record {
  fd = pos fd;
  answers = record { received = some bytes; sendlen = pos 0 } ∷ [];
}

plus_none : (n : ℕ) → n ≡ 0 + n
plus_none n = omega arith

-- Each client that has left leaves its descriptor open: after any number of clients that say `exit`
-- the server waits with as many descriptors more.
pub descriptors_leak :
    (fds : List ℕ) (bytes : List ℕ) (n : ℕ) (s : Side)
    → is_exit (overlay bytes filled) ≡ true
    → serve_clients (map (λ fd. says_exit fd bytes) fds) n s ≡ done (waits (length fds + n) s)
unfolding serve_clients after_chat rounds server_round server_received
descriptors_leak [] bytes n s ends = ap (λ m. done (waits m s)) (plus_none n)
descriptors_leak (fd ∷ fds) bytes n s ends =
    rw ends (descriptors_leak fds bytes (suc n) s ends ∙ ap (λ m. done (waits m s)) (omega arith))
