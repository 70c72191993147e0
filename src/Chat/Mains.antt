-- ===== src/Chat/Mains.antt =====
-- `main` of the four chat programs, up to the first call of `chat_func`. `handle_error` ends the
-- process.
use linux_programing_n_syste.Common.{
  ℕ, ◌++◌, ◌≡◌, refl, Bool, true, false, if◌then◌else◌, ltb, List, [], ◌∷◌,
}
use linux_programing_n_syste.Common.Int.{is_minus_one, ℤ}
use linux_programing_n_syste.Chat.{}

pub data Call : Type 0 where
  signal socket setsockopt bind listen inet_pton connect : Call

-- The arguments on the command line, and which calls fail the way the program tests it. What
-- `inet_pton` answers is a number: 1, 0 for a text that is no address, or -1.
pub record Answers : Type 0 where
  pub argc : ℕ
  pub signal_failed : Bool
  pub fd : ℤ
  pub setsockopt_failed : Bool
  pub bind_failed : Bool
  pub listen_failed : Bool
  pub inet_pton_ret : ℤ
  pub connect_failed : Bool

-- How `main` goes on, with the calls that succeeded, the first one first.
pub data Started : Type 0 where
  chats : List Call → Started
  exit_failure : List Call → Started

-- One call, and what follows if it does not fail.
abbrev pub try_call : Call → Bool → List Call → (List Call → Started) → Started
try_call c failed calls k = if failed then exit_failure calls else k (calls ++ (c ∷ []))

-- The part that both servers have, and what follows it.
unfoldable pub server_socket : Answers → (List Call → Started) → Started
server_socket a k = try_call Call.signal a.signal_failed [] λ c1.
    if ltb a.argc 2
    then exit_failure c1
    else try_call Call.socket (is_minus_one a.fd) c1 λ c2.
      try_call Call.setsockopt a.setsockopt_failed c2 λ c3. try_call Call.bind a.bind_failed c3 k

-- The part that both clients have, and what follows it.
unfoldable pub client_socket : Answers → (List Call → Started) → Started
client_socket a k =
    if ltb a.argc 3
    then exit_failure []
    else try_call Call.signal a.signal_failed [] λ c1.
      try_call Call.socket (is_minus_one a.fd) c1
        λ c2. try_call Call.inet_pton (is_minus_one a.inet_pton_ret) c2 k

abbrev listens : Answers → List Call → Started
listens a c = try_call Call.listen a.listen_failed c chats

abbrev connects : Answers → List Call → Started
connects a c = try_call Call.connect a.connect_failed c chats

unfoldable pub datagram_server : Answers → Started
unfolding server_socket
datagram_server a = server_socket a chats

unfoldable pub stream_server : Answers → Started
unfolding server_socket
stream_server a = server_socket a (listens a)

unfoldable pub datagram_client : Answers → Started
unfolding client_socket
datagram_client a = client_socket a chats

unfoldable pub stream_client : Answers → Started
unfolding client_socket
stream_client a = client_socket a (connects a)

-- A text that is no address is not noticed: with all else well the datagram client starts its chat,
-- for every answer of `inet_pton` but -1.
pub bad_address_chats :
    (a : Answers)
    → ltb a.argc 3 ≡ false
    → a.signal_failed ≡ false
    → is_minus_one a.fd ≡ false
    → is_minus_one a.inet_pton_ret ≡ false
    → datagram_client a ≡ chats (Call.signal ∷ Call.socket ∷ Call.inet_pton ∷ [])
unfolding datagram_client client_socket
bad_address_chats a enough signalled opened address =
    rw enough (rw signalled (rw opened (rw address refl)))

-- The start of a list of calls.
abbrev pub IsPrefix : List Call → List Call → Type 0
IsPrefix [] ds = Unit
IsPrefix (c ∷ cs) [] = ⊥
IsPrefix (c ∷ cs) (d ∷ ds) = (c ≡ d) × IsPrefix cs ds

-- What `main` has done: the whole list before it chats, and a part of it before it exits.
abbrev pub Follows : List Call → Started → Type 0
Follows plan (chats calls) = calls ≡ plan
Follows plan (exit_failure calls) = IsPrefix calls plan

module _ (plan : List Call) where
  -- One test: the process exits, or goes on.
  checked :
      (b : Bool) (calls : List Call) (go : Started)
      → IsPrefix calls plan
      → Follows plan go
      → Follows plan (if b then exit_failure calls else go)
  checked true calls go before after = before
  checked false calls go before after = after

abbrev server_calls : List Call
server_calls = Call.signal ∷ Call.socket ∷ Call.setsockopt ∷ Call.bind ∷ []

server_socket-Follows :
    (a : Answers) (more : List Call) (k : List Call → Started)
    → Follows (server_calls ++ more) (k server_calls)
    → Follows (server_calls ++ more) (server_socket a k)
unfolding server_socket
server_socket-Follows a more k after =
    let plan = server_calls ++ more in
    checked plan a.signal_failed [] _ tt (
      checked plan (ltb a.argc 2) (Call.signal ∷ []) _ (refl, tt)
        (checked plan (is_minus_one a.fd) (Call.signal ∷ []) _ (refl, tt)
          (checked plan a.setsockopt_failed (Call.signal ∷ Call.socket ∷ []) _ (refl, (refl, tt))
            (checked plan a.bind_failed (Call.signal ∷ Call.socket ∷ Call.setsockopt ∷ []) _
              (refl, (refl, (refl, tt))) after))))

abbrev client_calls : List Call
client_calls = Call.signal ∷ Call.socket ∷ Call.inet_pton ∷ []

client_socket-Follows :
    (a : Answers) (more : List Call) (k : List Call → Started)
    → Follows (client_calls ++ more) (k client_calls)
    → Follows (client_calls ++ more) (client_socket a k)
unfolding client_socket
client_socket-Follows a more k after =
    let plan = client_calls ++ more in
    checked plan (ltb a.argc 3) [] _ tt (
      checked plan a.signal_failed [] _ tt (
        checked plan (is_minus_one a.fd) (Call.signal ∷ []) _ (refl, tt)
          (checked plan (is_minus_one a.inet_pton_ret) (Call.signal ∷ Call.socket ∷ []) _
            (refl, (refl, tt)) after)))

-- Whatever fails, the calls of each program that succeeded stand in the order of its plan, and no
-- program chats before all of them have: the stream server has listened, the stream client is
-- connected.
pub mains_follow :
    (a : Answers)
    → Follows (Call.signal ∷ Call.socket ∷ Call.setsockopt ∷ Call.bind ∷ []) (datagram_server a)
      × Follows
          (Call.signal ∷ Call.socket ∷ Call.setsockopt ∷ Call.bind ∷ Call.listen ∷ [])
          (stream_server a)
      × Follows (Call.signal ∷ Call.socket ∷ Call.inet_pton ∷ []) (datagram_client a)
      × Follows (Call.signal ∷ Call.socket ∷ Call.inet_pton ∷ Call.connect ∷ []) (stream_client a)
unfolding datagram_server stream_server datagram_client stream_client
mains_follow a = (
  server_socket-Follows a [] chats refl,
  server_socket-Follows a (Call.listen ∷ []) (listens a) (
      checked (server_calls ++ (Call.listen ∷ [])) a.listen_failed server_calls
        (chats (server_calls ++ (Call.listen ∷ []))) (refl, (refl, (refl, (refl, tt)))) refl),
  client_socket-Follows a [] chats refl,
  client_socket-Follows a (Call.connect ∷ []) (connects a) (
      checked (client_calls ++ (Call.connect ∷ [])) a.connect_failed client_calls
        (chats (client_calls ++ (Call.connect ∷ []))) (refl, (refl, (refl, tt))) refl),
)
