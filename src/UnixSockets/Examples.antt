-- ===== src/UnixSockets/Examples.antt =====
-- Runs of 7.1-Unix-Datagram and 7.1-Unix-Stream, with `toupper` for the letters of ASCII.
use linux_programing_n_syste.Common.{
  ℕ, zero, suc, ◌-◌, ◌<◌, ◌≡◌, refl, arith, ltb, ◌&&◌, if◌then◌else◌, some, none, Bool, true, false,
  List, [], ◌∷◌, ◌++◌, replicate, map,
}
use linux_programing_n_syste.Common.Int.{success, pos, is_negative}
use linux_programing_n_syste.Common.CString.{NoNul}
use linux_programing_n_syste.Kernel.{done, buffer_overrun}
use linux_programing_n_syste.UnixSockets.Datagram
use linux_programing_n_syste.UnixSockets.DatagramLaws.{capitals_answered}
use linux_programing_n_syste.UnixSockets.Stream
use linux_programing_n_syste.UnixSockets.Stream.{came, listening, goes_on}
use linux_programing_n_syste.UnixSockets.Setup.{
  SocketFiles, Documented, Answers, Interrupt, datagram_server, serves, exited, exit_failure,
}
use linux_programing_n_syste.UnixSockets.Lifecycle.{
  Starts, interrupted, uninterrupted, next_datagram_server,
}
use linux_programing_n_syste.UnixSockets.StreamLaws.{
  reply, reply_shows_previous, only_29_characters_fit,
}

abbrev upper : ℕ → ℕ
upper c = if ltb 96 c && ltb c 123 then c - 32 else c

upper-positive : (c : ℕ) → 0 < c → 0 < upper c
upper-positive c h = ground arith

abbrev hello : List ℕ
hello = b'h' ∷ b'e' ∷ b'l' ∷ b'l' ∷ b'o' ∷ []

abbrev hi : List ℕ
hi = b'h' ∷ b'i' ∷ []

hi-NoNul : NoNul hi
hi-NoNul = (omega arith, (omega arith, tt))

capitals_answered_example :
    (t : Datagram.Server) × (Datagram.server_loop upper (map some (hello ∷ hi ∷ [])) Datagram.bound
      ≡ done (Datagram.goes_on t))
    × (t.sent ≡ map (map upper) (hello ∷ hi ∷ []))
    × (Datagram.client_main (some (hi ++ (0 ∷ []))) 2 (some (map upper hi))
        ≡ done (record { status = success; response = some (map upper hi) }))
capitals_answered_example =
    capitals_answered upper (hello ∷ []) hi upper-positive (omega arith, tt) hi-NoNul (omega arith)

-- The second client sends `hi` and is answered `HILLO`.
reply_shows_previous_example :
    (t : Stream.Server) × (Stream.server_loop upper
        (came b'h' (b'e' ∷ b'l' ∷ b'l' ∷ b'o' ∷ []) ∷ came b'h' (b'i' ∷ []) ∷ [])
        listening
      ≡ done (goes_on t))
    × (t.sent
        ≡ ([] ++ (reply upper hello listening.buf ∷ []))
          ++ (reply upper hi (reply upper hello listening.buf) ∷ []))
    × (t.open_files ≡ suc (suc 0))
reply_shows_previous_example =
    reply_shows_previous upper b'h' (b'e' ∷ b'l' ∷ b'l' ∷ b'o' ∷ []) b'h' (b'i' ∷ []) listening
      (omega arith) (omega arith) refl refl

NoNul-replicate : (n c : ℕ) → 0 < c → NoNul (replicate n c)
NoNul-replicate zero c h = tt
NoNul-replicate (suc n) c h = (h, NoNul-replicate n c h)

abbrev a28 : List ℕ
a28 = replicate 28 b'a'

abbrev a29 : List ℕ
a29 = replicate 29 b'a'

only_29_characters_fit_example :
    (Stream.client_main (hi ++ (0 ∷ [])) [] ≡ buffer_overrun)
    × (t : Stream.Server) × (Stream.client_request ((b'a' ∷ a28) ++ (0 ∷ []))
        ≡ done ((b'a' ∷ a28) ++ (0 ∷ [])))
    × (Stream.server_round upper (came b'a' (a28 ++ (0 ∷ []))) listening ≡ done (goes_on t))
    × (t.sent ≡ [] ++ ((map upper (b'a' ∷ a28) ++ (0 ∷ [])) ∷ []))
    × (Stream.client_main ((b'a' ∷ a28) ++ (0 ∷ [])) ((map upper (b'a' ∷ a28) ++ (0 ∷ [])) ∷ [])
        ≡ done (some (map upper (b'a' ∷ a28))))
    × (Stream.client_request ((b'a' ∷ a29) ++ (0 ∷ [])) ≡ done (b'a' ∷ a29))
    × (Stream.server_round upper (came b'a' a29) listening ≡ buffer_overrun)
only_29_characters_fit_example =
    only_29_characters_fit upper hi b'a' a28 b'a' a29 (0 ∷ []) [] listening upper-positive refl
      (omega arith) (NoNul-replicate 29 b'a' (omega arith)) refl
      (NoNul-replicate 30 b'a' (omega arith)) refl refl

-- A directory that can be written to, by whether the name is there.
abbrev names : SocketFiles
names = record {
  State = Bool;
  is_there = λ f. f;
  bind = λ fd f. if f then (true, f) else if is_negative fd then (true, f) else (false, true);
  remove = λ f. false;
}

names-Documented : Documented names
names-Documented = record {
  bind_there = λ fd f there. rw there refl;
  bind_free = λ fd f socket free. rw free (rw socket (refl, refl));
  remove_there = λ f. refl;
}

abbrev well : Answers
well = record {
  signal_failed = false;
  fd = pos 3;
  listen_failed = false;
  interrupt = Interrupt.not_at_all;
}

well-Starts : Starts well
well-Starts = record { signal = refl; socket = refl; undisturbed = refl }

next_datagram_server_example :
    ((t : Datagram.Server) × (datagram_server names upper
          (uninterrupted well)
          (map some (hello ∷ []))
          false
        ≡ done (serves t true))
      × (t.sent ≡ map (map upper) (hello ∷ [])))
    × (datagram_server names upper (interrupted well) (map some (hello ∷ [])) false
        ≡ done (exited success false))
    × ((t : Datagram.Server) × (datagram_server names upper
            (uninterrupted well)
            (map some (hi ∷ []))
            false
          ≡ done (serves t true))
        × (t.sent ≡ map (map upper) (hi ∷ [])))
    × (datagram_server names upper well (map some (hello ∷ []) ++ (none ∷ [])) false
        ≡ done (exited exit_failure true))
    × (datagram_server names upper well (some hi ∷ []) true ≡ done (exited exit_failure true))
next_datagram_server_example =
    next_datagram_server upper names names-Documented well well (hello ∷ []) (hi ∷ [])
      (some hi ∷ []) false well-Starts well-Starts (omega arith, tt) (omega arith, tt) refl
