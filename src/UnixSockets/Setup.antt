-- ===== src/UnixSockets/Setup.antt =====
-- `main` of the four programs of 7.1-Unix-Datagram and 7.1-Unix-Stream around their loops, and the
-- handlers of SIGINT. The name of the socket in the file system is the kernel's, so a parameter:
-- `SocketFiles` is what the programs do with it.
use linux_programing_n_syste.Common.{
  ℕ, ◌≡◌, Bool, true, false, if◌then◌else◌, List, Option, none, some,
}
use linux_programing_n_syste.Common.Int.{ℤ, pos, is_negative, success}
use linux_programing_n_syste.Kernel.{Outcome, done, and_then}
use linux_programing_n_syste.UnixSockets.Datagram
use linux_programing_n_syste.UnixSockets.Stream
use linux_programing_n_syste.UnixSockets.Stream.{Connection}

-- `bind` makes the name, and says whether it fails.
pub record SocketFiles : Type 1 where
  pub State : Type 0
  pub is_there : State → Bool
  pub bind : ℤ → State → Bool × State
  pub remove : State → State

-- `bind` on a name that is there fails with EADDRINUSE; on another, in a directory that can be written
-- to and with a descriptor of a socket, it makes the name.
pub record Documented (k : SocketFiles) : Type 0 where
  pub bind_there : (fd : ℤ) (f : k.State) → k.is_there f ≡ true → k.bind fd f ≡ (true, f)
  pub bind_free :
      (fd : ℤ) (f : k.State)
      → is_negative fd ≡ false
      → k.is_there f ≡ false
      → ((k.bind fd f).0 ≡ false) × (k.is_there (k.bind fd f).1 ≡ true)
  pub remove_there : (f : k.State) → k.is_there (k.remove f) ≡ false

-- When SIGINT comes, once it has a handler.
pub data Interrupt : Type 0 where
  not_at_all before_bind in_loop : Interrupt

abbrev pub comes_before_bind : Interrupt → Bool
comes_before_bind Interrupt.before_bind = true
comes_before_bind _ = false

abbrev pub comes_in_loop : Interrupt → Bool
comes_in_loop Interrupt.in_loop = true
comes_in_loop _ = false

-- Whether `signal` and `listen` fail, what `socket` answers, and when SIGINT comes.
pub record Answers : Type 0 where
  pub signal_failed : Bool
  pub fd : ℤ
  pub listen_failed : Bool
  pub interrupt : Interrupt

abbrev pub exit_failure : ℤ
exit_failure = pos 1

module _ (k : SocketFiles) where
  -- A server in its loop, or at its end with its status, and the file system.
  pub data Life (S : Type 0) : Type 0 where
    serves : S → k.State → Life S
    exited : ℤ → k.State → Life S

  -- `sig_handler1` of the servers. The two descriptors that it closes go with the process.
  unfoldable pub sig_handler1 : {S : Type 0} → k.State → Life S
  sig_handler1 f = exited success (k.remove f)

  -- `main` of both servers up to `bind`, and what follows. The answer of `socket` is not tested.
  unfoldable pub setup :
      {S : Type 0} → Answers → k.State → (k.State → Outcome (Life S)) → Outcome (Life S)
  unfolding sig_handler1
  setup a f next =
      let (failed, f1) = k.bind a.fd f in
      if a.signal_failed
      then done (exited exit_failure f)
      else if comes_before_bind a.interrupt
      then done (sig_handler1 f)
      else if failed
      then done (exited exit_failure f1)
      else next f1

  -- Where the answers end, the server is still in its loop, or SIGINT comes.
  abbrev pub in_loop_or_interrupted : {S : Type 0} → Interrupt → S → k.State → Life S
  in_loop_or_interrupted i s f = if comes_in_loop i then sig_handler1 f else serves s f

  abbrev pub after_datagrams : Interrupt → k.State → Datagram.Ended → Life Datagram.Server
  after_datagrams i f (Datagram.goes_on s) = in_loop_or_interrupted i s f
  after_datagrams i f (Datagram.returns status s) = exited status f

  unfoldable pub serve_datagrams :
      (ℕ → ℕ) → Interrupt → List (Option (List ℕ)) → k.State → Outcome (Life Datagram.Server)
  unfolding sig_handler1
  serve_datagrams toupper i answers f =
      and_then (Datagram.server_loop toupper answers Datagram.bound)
        λ e. done (after_datagrams i f e)

  unfoldable pub datagram_server :
      (ℕ → ℕ) → Answers → List (Option (List ℕ)) → k.State → Outcome (Life Datagram.Server)
  datagram_server toupper a answers f = setup a f (serve_datagrams toupper a.interrupt answers)

  abbrev pub after_connections : Interrupt → k.State → Stream.Ended → Life Stream.Server
  after_connections i f (Stream.goes_on s) = in_loop_or_interrupted i s f
  after_connections i f (Stream.exit_failure s) = exited exit_failure f

  unfoldable pub serve_connections :
      (ℕ → ℕ) → Answers → List Connection → k.State → Outcome (Life Stream.Server)
  unfolding sig_handler1
  serve_connections toupper a answers f =
      if a.listen_failed
      then done (exited exit_failure f)
      else and_then (Stream.server_loop toupper answers Stream.listening)
          λ e. done (after_connections a.interrupt f e)

  unfoldable pub stream_server :
      (ℕ → ℕ) → Answers → List Connection → k.State → Outcome (Life Stream.Server)
  stream_server toupper a answers f = setup a f (serve_connections toupper a answers)

-- `main` of the datagram client: `signal` fails, or the message is sent.
unfoldable pub datagram_client :
    Bool → Option (List ℕ) → ℕ → Option (List ℕ) → Outcome Datagram.Client
datagram_client signal_failed argument sent answer =
    if signal_failed
    then done (record { status = exit_failure; response = none })
    else Datagram.client_main argument sent answer

-- The stream client: at its end with its status and what it has printed, or in its loop; and whether it
-- has printed `Error connect`.
pub data Asked : Type 0 where
  ended : ℤ → Option (List ℕ) → Asked
  asks : Bool → Asked

abbrev pub after_answers : Bool → Option (List ℕ) → Asked
after_answers connect_failed none = asks connect_failed
after_answers connect_failed (some text) = ended success (some text)

-- A failed `connect` is printed, and the client goes on all the same.
unfoldable pub stream_client : Bool → Bool → List ℕ → List (List ℕ) → Outcome Asked
stream_client signal_failed connect_failed argument answers =
    if signal_failed
    then done (ended exit_failure none)
    else and_then (Stream.client_main argument answers) λ e. done (after_answers connect_failed e)
