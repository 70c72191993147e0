-- ===== src/Chat/Stream.antt =====
-- 7.2-Internet-Stream/stream_server.c and stream_client.c: `chat_func`. No NUL is stored behind what
-- is read, so to print a message that has none is to read past the end of the buffer.
use linux_programing_n_syste.Common.{ℕ, if◌then◌else◌, List, overlay, Option, none, some}
use linux_programing_n_syste.Common.Int.{is_minus_one, ℤ}
use linux_programing_n_syste.Common.CString.{c_string, has_nul}
use linux_programing_n_syste.Kernel.{Outcome, done, buffer_overrun}
use linux_programing_n_syste.Chat.{
  filled, is_exit, Side, Ended, goes_on, leaves, exits, type_line, show, post,
}

-- The answers of one round: what `read` stores (none for -1, nothing at the end of the stream), and
-- the result of `write`.
pub record Answers : Type 0 where
  pub received : Option (List ℕ)
  pub sendlen : ℤ

-- `printf("...%s\n", recvbuf)`, and what follows.
unfoldable pub print_message : List ℕ → Side → (Side → Outcome Ended) → Outcome Ended
print_message buf s k = if has_nul buf then k (show (c_string buf) s) else buffer_overrun

-- `write`, the two tests behind it, and what follows.
unfoldable pub send : Answers → List ℕ → List ℕ → Side → (Side → Outcome Ended) → Outcome Ended
send a buf msg s k =
    if is_minus_one a.sendlen
    then done (exits s)
    else if is_exit buf
    then done (leaves (post msg s))
    else k (post msg s)

unfoldable pub server_received : Option (List ℕ) → Answers → Side → Outcome Ended
unfolding print_message send type_line
server_received none a s = done (exits s)
server_received (some bytes) a s =
    let recvbuf = overlay bytes filled in
    if is_exit recvbuf
    then done (leaves s)
    else print_message recvbuf s
        λ s1. type_line s1.stdin s1 λ buf msg s2. send a buf msg s2 λ s3. done (goes_on s3)

unfoldable pub server_round : Answers → Side → Outcome Ended
unfolding server_received
server_round a s = server_received a.received a s

unfoldable pub client_received : Option (List ℕ) → Side → Outcome Ended
unfolding print_message
client_received none s = done (exits s)
client_received (some bytes) s =
    let recvbuf = overlay bytes filled in
    if is_exit recvbuf then done (leaves s) else print_message recvbuf s λ s1. done (goes_on s1)

unfoldable pub client_round : Answers → Side → Outcome Ended
unfolding send client_received type_line
client_round a s =
    type_line s.stdin s λ buf msg s1. send a buf msg s1 λ s2. client_received a.received s2
