-- ===== src/UnixSockets/Loops.antt =====
-- The loops of the two servers of 7.1-Unix-Datagram and 7.1-Unix-Stream over what comes, one part after
-- the other.
use linux_programing_n_syste.Common.{
  ℕ, zero, suc, ◌≤◌, ◌≡◌, refl, ap, arith, none, List, [], ◌∷◌, ◌++◌, length, Option, replicate,
}
use linux_programing_n_syste.Kernel.{Outcome, done, buffer_overrun, null_access, and_then}
use linux_programing_n_syste.UnixSockets.{buf_size}
use linux_programing_n_syste.UnixSockets.Datagram
use linux_programing_n_syste.UnixSockets.DatagramLaws.{Terminated, Terminated-answer}
use linux_programing_n_syste.UnixSockets.Stream
use linux_programing_n_syste.UnixSockets.Stream.{
  Connection, not_accepted, nothing_read, came, server_loop, server_round, Server,
}
use linux_programing_n_syste.UnixSockets.StreamLaws.{
  answer_lem, nul_of_short, length-reply, answered, accepted,
}
use linux_programing_n_syste.UnixSockets.Setup.{exit_failure}

-- Connections of which each brings nothing, or a message of at most 29 bytes.
abbrev pub AllServed : List Connection → Type 0
AllServed [] = Unit
AllServed (not_accepted ∷ cs) = ⊥
AllServed (nothing_read ∷ cs) = AllServed cs
AllServed (came b bs ∷ cs) = (length (b ∷ bs) ≤ 29) × AllServed cs

pub nothing_read_again :
    (n : ℕ) (buf : List ℕ) → Stream.client_loop (replicate n []) buf ≡ done none
unfolding Stream.client_loop
nothing_read_again zero buf = refl
nothing_read_again (suc n) buf = nothing_read_again n buf

module _ (toupper : ℕ → ℕ) where
  pub stream_loop_lem :
      (cs : List Connection) (s : Server)
      → AllServed cs
      → Terminated s.buf
      → length s.buf ≡ buf_size
      → (t : Server) × (server_loop toupper cs s ≡ done (Stream.goes_on t))
  unfolding server_loop server_round
  stream_loop_lem [] s h e size = (s, refl)
  stream_loop_lem (not_accepted ∷ cs) s h e size = absurd h
  stream_loop_lem (nothing_read ∷ cs) s h e size = stream_loop_lem cs (accepted toupper s) h e size
  stream_loop_lem (came b bs ∷ cs) s (short, h) e size =
      let (t, run) =
        stream_loop_lem cs (answered toupper (b ∷ bs) (accepted toupper s)) h
          (Terminated-answer toupper (b ∷ bs) s.buf short e)
          (length-reply toupper (b ∷ bs) s.buf (omega arith) size) in
      (
        t,
        rw
            (answer_lem toupper (b ∷ bs) (accepted toupper s) (omega arith) size
              (nul_of_short toupper (b ∷ bs) s.buf short e))
            run,
      )

  -- A round that the loop survives is gone through with more to come as well.
  datagram_through :
      (o : Outcome Datagram.Ended) (f g : Datagram.Server → Outcome Datagram.Ended)
      (t : Datagram.Server) (r : Outcome Datagram.Ended)
      → ((u : Datagram.Server) → f u ≡ done (Datagram.goes_on t) → g u ≡ r)
      → and_then o (λ e. Datagram.follow toupper e f) ≡ done (Datagram.goes_on t)
      → and_then o (λ e. Datagram.follow toupper e g) ≡ r
  datagram_through (done (Datagram.goes_on u)) f g t r step e = step u e
  datagram_through (done (Datagram.returns status u)) f g t r step e = absurd (cc)
  datagram_through buffer_overrun f g t r step e = absurd (cc)
  datagram_through null_access f g t r step e = absurd (cc)

  pub datagram_loop-append :
      (ms more : List (Option (List ℕ))) (s t : Datagram.Server)
      → Datagram.server_loop toupper ms s ≡ done (Datagram.goes_on t)
      → Datagram.server_loop toupper (ms ++ more) s ≡ Datagram.server_loop toupper more t
  unfolding Datagram.server_loop
  datagram_loop-append [] more s t e = ap (Datagram.server_loop toupper more) (same e)
    where
      same : done (Datagram.goes_on s) ≡ done (Datagram.goes_on t) → s ≡ t
      same e = cc
  datagram_loop-append (m ∷ ms) more s t e =
      datagram_through (Datagram.server_round toupper m s) (Datagram.server_loop toupper ms)
        (Datagram.server_loop toupper (ms ++ more)) t (Datagram.server_loop toupper more t)
        (λ u h. datagram_loop-append ms more u t h) e

  stream_through :
      (o : Outcome Stream.Ended) (f g : Server → Outcome Stream.Ended) (t : Server)
      (r : Outcome Stream.Ended)
      → ((u : Server) → f u ≡ done (Stream.goes_on t) → g u ≡ r)
      → and_then o (λ e. Stream.follow toupper e f) ≡ done (Stream.goes_on t)
      → and_then o (λ e. Stream.follow toupper e g) ≡ r
  stream_through (done (Stream.goes_on u)) f g t r step e = step u e
  stream_through (done (Stream.exit_failure u)) f g t r step e = absurd (cc)
  stream_through buffer_overrun f g t r step e = absurd (cc)
  stream_through null_access f g t r step e = absurd (cc)

  pub stream_loop-append :
      (cs more : List Connection) (s t : Server)
      → server_loop toupper cs s ≡ done (Stream.goes_on t)
      → server_loop toupper (cs ++ more) s ≡ server_loop toupper more t
  unfolding server_loop
  stream_loop-append [] more s t e = ap (server_loop toupper more) (same e)
    where
      same : done (Stream.goes_on s) ≡ done (Stream.goes_on t) → s ≡ t
      same e = cc
  stream_loop-append (c ∷ cs) more s t e =
      stream_through (server_round toupper c s) (server_loop toupper cs)
        (server_loop toupper (cs ++ more)) t (server_loop toupper more t)
        (λ u h. stream_loop-append cs more u t h) e

  pub datagram_failed :
      (t : Datagram.Server)
      → Datagram.server_loop toupper (none ∷ []) t ≡ done (Datagram.returns exit_failure t)
  unfolding Datagram.server_loop
  datagram_failed t = refl

  pub stream_failed :
      (t : Server) → server_loop toupper (not_accepted ∷ []) t ≡ done (Stream.exit_failure t)
  unfolding server_loop
  stream_failed t = refl
