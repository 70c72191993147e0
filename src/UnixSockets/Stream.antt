-- ===== src/UnixSockets/Stream.antt =====
-- 7.1-Unix-Stream: stream_server.c and stream_client.c.
use linux_programing_n_syste.Common.{
  ℕ, suc, not, ltb, if◌then◌else◌, Option, none, some, List, [], ◌∷◌, ◌++◌, length, take, overlay,
  replicate,
}
use linux_programing_n_syste.Common.CString.{c_string, has_nul}
use linux_programing_n_syste.Kernel.{Outcome, done, buffer_overrun, and_then}
use linux_programing_n_syste.UnixSockets.{buf_size, upcase}

-- The server's buffer, what it has printed and what it has sent, the oldest first, and how many
-- connections it has open.
pub record Server : Type 0 where
  pub buf : List ℕ
  pub shown : List (List ℕ)
  pub sent : List (List ℕ)
  pub open_files : ℕ

pub data Ended : Type 0 where
  goes_on : Server → Ended
  exit_failure : Server → Ended

-- What `accept` and `read` answer: no connection; a connection with nothing read, by an error or at its
-- end; or the bytes that came.
pub data Connection : Type 0 where
  not_accepted : Connection
  nothing_read : Connection
  came : ℕ → List ℕ → Connection

module _ (toupper : ℕ → ℕ) where
  -- Where something was read: the whole buffer is sent.
  unfoldable pub answer : List ℕ → Server → Outcome Ended
  answer came_in s =
      let bytes = take buf_size came_in in
      let buf = upcase toupper (length bytes) (overlay bytes s.buf) in
      if not (has_nul buf)
      then buffer_overrun
      else done (
          goes_on (record s {
            buf = buf;
            shown = s.shown ++ (c_string buf ∷ []);
            sent = s.sent ++ (take buf_size buf ∷ []);
          }))

  -- The connection is not closed.
  unfoldable pub server_round : Connection → Server → Outcome Ended
  unfolding answer
  server_round not_accepted s = done (exit_failure s)
  server_round nothing_read s = done (goes_on (record s { open_files = suc s.open_files }))
  server_round (came b bs) s = answer (b ∷ bs) (record s { open_files = suc s.open_files })

  abbrev pub follow : Ended → (Server → Outcome Ended) → Outcome Ended
  follow (goes_on s) k = k s
  follow (exit_failure s) k = done (exit_failure s)

  -- The loop of `main`, over the connections.
  unfoldable pub server_loop : List Connection → Server → Outcome Ended
  unfolding server_round
  server_loop [] s = done (goes_on s)
  server_loop (a ∷ rest) s = and_then (server_round a s) λ e. follow e (server_loop rest)

-- What the client writes: 30 bytes from its argument's place, which may be shorter.
unfoldable pub client_request : List ℕ → Outcome (List ℕ)
client_request argument =
    if ltb (length argument) buf_size then buffer_overrun else done (take buf_size argument)

-- The client has read some bytes, prints them and ends.
unfoldable pub print_answer : List ℕ → List ℕ → Outcome (Option (List ℕ))
print_answer bytes buf =
    let buf' = overlay (take buf_size bytes) buf in
    if not (has_nul buf') then buffer_overrun else done (some (c_string buf'))

-- The client's loop over what `read` answers.
unfoldable pub client_loop : List (List ℕ) → List ℕ → Outcome (Option (List ℕ))
unfolding print_answer
client_loop [] buf = done none
client_loop ([] ∷ rest) buf = client_loop rest buf
client_loop ((b ∷ bs) ∷ rest) buf = print_answer (b ∷ bs) buf

unfoldable pub client_main : List ℕ → List (List ℕ) → Outcome (Option (List ℕ))
unfolding client_request client_loop
client_main argument answers =
    and_then (client_request argument) λ text. client_loop answers (replicate buf_size 0)

-- As `main` of the server begins its loop.
abbrev pub listening : Server
listening = record { buf = replicate buf_size 0; shown = []; sent = []; open_files = 0 }
