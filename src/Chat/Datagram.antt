-- ===== src/Chat/Datagram.antt =====
-- 7.2-Internet-Datagram/stream_server.c and stream_client.c: `chat_func`.
use linux_programing_n_syste.Common.{
  ℕ, ◌+◌, if◌then◌else◌, ltb, List, [], ◌∷◌, ◌++◌, length, overlay, Option, none, some,
}
use linux_programing_n_syste.Common.Int.{is_minus_one, ℤ}
use linux_programing_n_syste.Common.CString.{c_string}
use linux_programing_n_syste.Kernel.{Outcome, done, buffer_overrun}
use linux_programing_n_syste.Chat.{
  buf_size, filled, is_exit, Side, Ended, goes_on, leaves, exits, type_line, show, post, is_length,
}

-- The answers of one round: what `recvfrom` stores (none for -1), and the results of the two calls
-- of `sendto`.
pub record Answers : Type 0 where
  pub received : Option (List ℕ)
  pub sendlen : ℤ
  pub sendlen_again : ℤ

-- `sendto`, again if not all was sent, and what follows.
unfoldable pub send : Answers → List ℕ → Side → (Side → Outcome Ended) → Outcome Ended
send a msg s k =
    if is_minus_one a.sendlen
    then done (exits s)
    else if is_length a.sendlen (length msg)
    then k (post msg s)
    else if is_minus_one a.sendlen_again
    then done (exits (post msg s))
    else k (post msg (post msg s))

-- `recvbuf[recvlen] = '\0'`, and what follows.
unfoldable pub terminate : List ℕ → (List ℕ → Outcome Ended) → Outcome Ended
terminate bytes k =
    if ltb buf_size (length bytes + 1)
    then buffer_overrun
    else k (overlay (bytes ++ (0 ∷ [])) filled)

-- The server: `exit` is looked for before the NUL is stored.
unfoldable pub server_answer : Answers → Side → Outcome Ended
unfolding send type_line
server_answer a s =
    type_line s.stdin s
      λ buf msg s1. send a msg s1 λ s2. done (if is_exit buf then leaves s2 else goes_on s2)

unfoldable pub server_received : Option (List ℕ) → Answers → Side → Outcome Ended
unfolding terminate server_answer
server_received none a s = done (exits s)
server_received (some bytes) a s =
    if is_exit (overlay bytes filled)
    then done (leaves s)
    else terminate bytes λ buf. server_answer a (show (c_string buf) s)

unfoldable pub server_round : Answers → Side → Outcome Ended
unfolding server_received
server_round a s = server_received a.received a s

-- The client: `exit` is looked for after it.
unfoldable pub client_received : Option (List ℕ) → Side → Outcome Ended
unfolding terminate
client_received none s = done (exits s)
client_received (some bytes) s =
    terminate bytes λ buf. done (if is_exit buf then leaves s else goes_on (show (c_string buf) s))

unfoldable pub client_round : Answers → Side → Outcome Ended
unfolding send client_received type_line
client_round a s = type_line s.stdin s λ buf msg s1.
    send a msg s1 λ s2. if is_exit buf then done (leaves s2) else client_received a.received s2

abbrev pub continue_with : Outcome Ended → (Side → Outcome Ended) → Outcome Ended
continue_with (done (goes_on s)) k = k s
continue_with o k = o

-- The loop, for as many rounds as there are answers.
unfoldable pub rounds {ℓ} :
    {A : Type ℓ} → (A → Side → Outcome Ended) → List A → Side → Outcome Ended
rounds round [] s = done (goes_on s)
rounds round (a ∷ rest) s = continue_with (round a s) (rounds round rest)
