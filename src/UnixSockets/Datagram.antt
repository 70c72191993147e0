-- ===== src/UnixSockets/Datagram.antt =====
-- 7.1-Unix-Datagram: stream_server.c and stream_client.c.
use linux_programing_n_syste.Common.{
  ℕ, ◌==◌, not, if◌then◌else◌, Option, none, some, List, [], ◌∷◌, ◌++◌, length, take, overlay,
  replicate,
}
use linux_programing_n_syste.Common.Int.{ℤ, pos, success}
use linux_programing_n_syste.Common.CString.{c_string, has_nul}
use linux_programing_n_syste.Kernel.{Outcome, done, buffer_overrun, null_access, and_then}
use linux_programing_n_syste.UnixSockets.{buf_size, upcase}

-- The server's buffer, what it has printed and what it has sent, the oldest first.
pub record Server : Type 0 where
  pub buf : List ℕ
  pub shown : List (List ℕ)
  pub sent : List (List ℕ)

pub data Ended : Type 0 where
  goes_on : Server → Ended
  returns : ℤ → Server → Ended

module _ (toupper : ℕ → ℕ) where
  -- `recvfrom` fails, or stores the start of a datagram. What `sendto` answers changes nothing.
  unfoldable pub server_round : Option (List ℕ) → Server → Outcome Ended
  server_round none s = done (returns (pos 1) s)
  server_round (some datagram) s =
      let bytes = take buf_size datagram in
      let buf = upcase toupper (length bytes) (overlay bytes s.buf) in
      if not (has_nul buf)
      then buffer_overrun
      else done (
          goes_on (record {
            buf = buf;
            shown = s.shown ++ (c_string buf ∷ []);
            sent = s.sent ++ (take (length bytes) buf ∷ []);
          }))

  abbrev pub follow : Ended → (Server → Outcome Ended) → Outcome Ended
  follow (goes_on s) k = k s
  follow (returns status s) k = done (returns status s)

  -- The loop of `main`, over what `recvfrom` answers.
  unfoldable pub server_loop : List (Option (List ℕ)) → Server → Outcome Ended
  unfolding server_round
  server_loop [] s = done (goes_on s)
  server_loop (a ∷ rest) s = and_then (server_round a s) λ e. follow e (server_loop rest)

-- The client ends with a status and what it has printed of the answer.
pub record Client : Type 0 where
  pub status : ℤ
  pub response : Option (List ℕ)

-- `main` of the client: what it sends of its argument, which it does not look for, and what it does with
-- the number of bytes that `sendto` says were sent and with what `recvfrom` answers.
unfoldable pub client_request : Option (List ℕ) → Outcome (List ℕ)
client_request none = null_access
client_request (some argument) = done (c_string argument)

unfoldable pub client_main : Option (List ℕ) → ℕ → Option (List ℕ) → Outcome Client
unfolding client_request
client_main argument sent none =
    and_then (client_request argument) λ text. done (record { status = pos 1; response = none })
client_main argument sent (some datagram) =
    let buf = overlay (take buf_size datagram) (replicate buf_size 0) in
    and_then (client_request argument) λ text.
      if not (sent == length text)
      then done (record { status = pos 1; response = none })
      else if not (has_nul buf)
      then buffer_overrun
      else done (record { status = success; response = some (c_string buf) })

-- As `main` of the server begins its loop.
abbrev pub bound : Server
bound = record { buf = replicate buf_size 0; shown = []; sent = [] }
