-- ===== src/UnixSockets/Lifecycle.antt =====
-- How the servers of 7.1-Unix-Datagram and 7.1-Unix-Stream end, and what the next start of one finds.
use linux_programing_n_syste.Common.{
  ℕ, ltb, ◌≡◌, refl, true, false, some, none, List, [], ◌∷◌, ◌++◌, length, map, Option, replicate,
}
use linux_programing_n_syste.Common.Int.{is_negative, success}
use linux_programing_n_syste.Kernel.{Outcome, done}
use linux_programing_n_syste.UnixSockets.{buf_size}
use linux_programing_n_syste.UnixSockets.Datagram
use linux_programing_n_syste.UnixSockets.DatagramLaws.{AllShort, server_loop_lem}
use linux_programing_n_syste.UnixSockets.Stream
use linux_programing_n_syste.UnixSockets.Stream.{
  nothing_read, came, server_loop, server_round, Server,
}
use linux_programing_n_syste.UnixSockets.Loops.{
  nothing_read_again, datagram_loop-append, datagram_failed,
}
use linux_programing_n_syste.UnixSockets.Setup.{
  SocketFiles, Documented, sig_handler1, stream_client, asks, Interrupt, Answers, comes_before_bind,
  Life, serves, exited, setup, datagram_server, exit_failure, in_loop_or_interrupted,
  serve_datagrams,
}

-- A start that gets as far as `bind` with a socket.
pub record Starts (a : Answers) : Type 0 where
  pub signal : a.signal_failed ≡ false
  pub socket : is_negative a.fd ≡ false
  pub undisturbed : comes_before_bind a.interrupt ≡ false

-- The same start, with SIGINT to come in the loop.
abbrev pub interrupted : Answers → Answers
interrupted a = record a { interrupt = Interrupt.in_loop }

interrupted-Starts : (a : Answers) → Starts a → Starts (interrupted a)
interrupted-Starts a s = record { signal = s.signal; socket = s.socket; undisturbed = refl }

-- The same start, without SIGINT.
abbrev pub uninterrupted : Answers → Answers
uninterrupted a = record a { interrupt = Interrupt.not_at_all }

uninterrupted-Starts : (a : Answers) → Starts a → Starts (uninterrupted a)
uninterrupted-Starts a s = record { signal = s.signal; socket = s.socket; undisturbed = refl }

module _ (toupper : ℕ → ℕ) where
  module _ (k : SocketFiles) (doc : Documented k) where
    setup-free :
        {S : Type 0} (a : Answers) (f : k.State) (next : k.State → Outcome (Life k S))
        → Starts a
        → k.is_there f ≡ false
        → setup k a f next ≡ next (k.bind a.fd f).1
    unfolding setup
    setup-free a f next s free =
        rw s.signal (rw s.undisturbed (rw (doc.bind_free a.fd f s.socket free).0 refl))

    setup-there :
        {S : Type 0} (a : Answers) (f : k.State) (next : k.State → Outcome (Life k S))
        → a.signal_failed ≡ false
        → comes_before_bind a.interrupt ≡ false
        → k.is_there f ≡ true
        → setup k a f next ≡ done (exited exit_failure f)
    unfolding setup
    setup-there a f next signal undisturbed there =
        rw signal (rw undisturbed (rw (doc.bind_there a.fd f there) refl))

    datagrams_served :
        (a : Answers) (ms : List (List ℕ)) (f : k.State)
        → Starts a
        → AllShort ms
        → k.is_there f ≡ false
        → (t : Datagram.Server) × (datagram_server k toupper a (map some ms) f
            ≡ done (in_loop_or_interrupted k a.interrupt t (k.bind a.fd f).1))
          × (t.sent ≡ map (map toupper) ms)
          × (datagram_server k toupper a (map some ms ++ (none ∷ [])) f
              ≡ done (exited exit_failure (k.bind a.fd f).1))
    unfolding datagram_server serve_datagrams
    datagrams_served a ms f s short free =
        let (t, run, sent) = server_loop_lem toupper ms Datagram.bound short refl in
        (
          t,
          rw (setup-free a f (serve_datagrams k toupper a.interrupt (map some ms)) s free)
              (rw run refl),
          sent,
          rw
              (setup-free a f (serve_datagrams k toupper a.interrupt (map some ms ++ (none ∷ []))) s
                free)
              (rw (datagram_loop-append toupper (map some ms) (none ∷ []) Datagram.bound t run)
                (rw (datagram_failed toupper t) refl)),
        )

    there_after :
        (a : Answers) (f : k.State)
        → Starts a
        → k.is_there f ≡ false
        → k.is_there (k.bind a.fd f).1 ≡ true
    there_after a f s free = (doc.bind_free a.fd f s.socket free).1

    -- A datagram server that gets to `bind` with a socket, and whose name is free, sends the
    -- capitals of the messages of at most 29 bytes that come, in their order, and stays in its loop.
    -- SIGINT then ends it with status 0 and removes the name, so that the next such start gets to
    -- its loop and answers in its turn. A failed `recvfrom` instead ends it with status 1 and leaves
    -- the name, and the next start fails.
    pub next_datagram_server :
        (a again : Answers) (ms ms' : List (List ℕ)) (more : List (Option (List ℕ))) (f : k.State)
        → Starts a
        → Starts again
        → AllShort ms
        → AllShort ms'
        → k.is_there f ≡ false
        → let bound = (k.bind a.fd f).1 in
          let rebound = (k.bind again.fd (k.remove bound)).1 in
          ((t : Datagram.Server) × (datagram_server k toupper (uninterrupted a) (map some ms) f
              ≡ done (serves t bound))
            × (t.sent ≡ map (map toupper) ms))
          × (datagram_server k toupper (interrupted a) (map some ms) f
              ≡ done (exited success (k.remove bound)))
          × ((t : Datagram.Server) × (datagram_server k toupper
                  (uninterrupted again)
                  (map some ms')
                  (k.remove bound)
                ≡ done (serves t rebound))
              × (t.sent ≡ map (map toupper) ms'))
          × (datagram_server k toupper a (map some ms ++ (none ∷ [])) f
              ≡ done (exited exit_failure bound))
          × (datagram_server k toupper again more bound ≡ done (exited exit_failure bound))
    unfolding datagram_server sig_handler1
    next_datagram_server a again ms ms' more f s s' short short' free =
        let (t, run, sent, _) =
          datagrams_served (uninterrupted a) ms f (uninterrupted-Starts a s) short free in
        let (u, fails, w, failed) = datagrams_served a ms f s short free in
        let (x, runs, _, _) =
          datagrams_served (interrupted a) ms f (interrupted-Starts a s) short free in
        let (v, serves_again, sent_again, _) =
          datagrams_served (uninterrupted again) ms' (k.remove (k.bind a.fd f).1)
            (uninterrupted-Starts again s') short' (doc.remove_there (k.bind a.fd f).1) in
        (
          (t, run, sent),
          runs,
          (v, serves_again, sent_again),
          failed,
          setup-there again _ (serve_datagrams k toupper again.interrupt more) s'.signal
              s'.undisturbed (there_after a f s free),
        )

-- A stream client that found no server goes on reading: however often `read` gives nothing, it does not
-- end.
pub no_server_no_end :
    (n : ℕ) (argument : List ℕ)
    → ltb (length argument) buf_size ≡ false
    → stream_client false true argument (replicate n []) ≡ done (asks true)
unfolding stream_client Stream.client_main Stream.client_request
no_server_no_end n argument long = rw long (rw (nothing_read_again n (replicate buf_size 0)) refl)
