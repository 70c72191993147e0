-- ===== src/Chat/StreamLives.antt =====
-- 7.2-Internet-Stream from start to end: `main` of the server around its loop, `main` of the client, and
-- the handlers of SIGINT.
use linux_programing_n_syste.Common.{
  ℕ, ◌+◌, ◌≡◌, refl, ◌∙◌, Bool, true, false, if◌then◌else◌, List, [], ◌∷◌, ◌++◌, map, length,
}
use linux_programing_n_syste.Common.Int.{ℤ, pos, success}
use linux_programing_n_syste.Kernel.{Outcome, done, and_then}
use linux_programing_n_syste.Common.Typed.{with_newline}
use linux_programing_n_syste.Chat.{Side, filled}
use linux_programing_n_syste.Chat.Mains.{
  Call, Started, chats, exit_failure, stream_server, stream_client,
}
use linux_programing_n_syste.Chat.Mains
use linux_programing_n_syste.Chat.Datagram.{rounds}
use linux_programing_n_syste.Chat.Stream.{Answers, client_round, send}
use linux_programing_n_syste.Chat.Serving.{
  Client, Serving, waits, stopped, serve_clients, says_exit, descriptors_leak,
}
use linux_programing_n_syste.Chat.Lines.{type_line_lem, is_exit-buffer, is_exit-received}
use linux_programing_n_syste.Chat.Talk.{side}
use linux_programing_n_syste.Chat.Lives.{Life, exited, failure, after_start, after_chat, Ends}

-- The server in its loop, or at its end with a status.
pub data ServerLife : Type 0 where
  serves : Serving → ServerLife
  ended : ℤ → ServerLife

-- Where the answers end, the server is still in its loop, or SIGINT comes: `sig_handler1`.
abbrev pub interrupted_or : Bool → Serving → ServerLife
interrupted_or interrupted (stopped n) = ended failure
interrupted_or interrupted s = if interrupted then ended success else serves s

-- `server_fd` is the first of its open descriptors.
unfoldable pub after_server_start : Started → Bool → List Client → Side → Outcome ServerLife
after_server_start (exit_failure calls) interrupted cs s = done (ended failure)
after_server_start (chats calls) interrupted cs s =
    and_then (serve_clients cs 1 s) λ e. done (interrupted_or interrupted e)

unfoldable pub server_main : Mains.Answers → Bool → List Client → Side → Outcome ServerLife
unfolding after_server_start
server_main a interrupted cs s = after_server_start (stream_server a) interrupted cs s

unfoldable pub client_main : Mains.Answers → Bool → List Answers → Side → Outcome Life
unfolding after_start after_chat
client_main a interrupted c s =
    after_start (stream_client a) s
      λ s1. after_chat interrupted (rounds client_round c s1) λ s2. done (exited success s2)

-- A client whose first line begins with `exit`, and which can write it, ends with status 0, whatever else
-- is typed or comes. Any number of such clients leave the server in its loop, with one more open
-- descriptor for each, besides that of its socket; SIGINT ends it with status 0.
pub clients_exit :
    (a b : Mains.Answers) (calls calls' : List Call) (bye rest : List ℕ) (k : Answers) (n : ℕ)
    (more : List Answers) (fds : List ℕ) (s : Side)
    → stream_server a ≡ chats calls
    → stream_client b ≡ chats calls'
    → Ends bye
    → k.sendlen ≡ pos n
    → (client_main b false (k ∷ more) (side (with_newline bye ++ rest) [] [])
        ≡ done (exited success (side rest [] (with_newline bye ∷ []))))
      × (server_main a false (map (λ fd. says_exit fd (with_newline bye)) fds) s
          ≡ done (serves (waits (length fds + 1) s)))
      × (server_main a true (map (λ fd. says_exit fd (with_newline bye)) fds) s
          ≡ done (ended success))
unfolding client_main server_main rounds client_round send
clients_exit a b calls calls' bye rest k n more fds s started started' ends sent =
    let heard = is_exit-received bye filled ∙ ends.says_exit in
    (
      rw started' (
          rw (type_line_lem bye rest (side (with_newline bye ++ rest) [] []) _ ends.fits)
            (rw sent (rw (is_exit-buffer bye filled) (rw ends.says_exit refl)))),
      rw started (rw (descriptors_leak fds (with_newline bye) 1 s heard) refl),
      rw started (rw (descriptors_leak fds (with_newline bye) 1 s heard) refl),
    )
