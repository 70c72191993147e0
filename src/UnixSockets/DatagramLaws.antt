-- ===== src/UnixSockets/DatagramLaws.antt =====
-- What the server and the client of 7.1-Unix-Datagram answer and print.
use linux_programing_n_syste.Common.{
  ℕ, ◌-◌, ◌≤◌, ◌<◌, ◌≡◌, refl, sym, ap, ◌∙◌, arith, true, some, List, [], ◌∷◌, ◌++◌, length, drop,
  get_or, replicate, map, take-all, take-exact, ==_iff, drop-replicate, ◌==◌,
}
use linux_programing_n_syste.Common.Int.{success}
use linux_programing_n_syste.Common.CString.{c_string, NoNul, c_string-append, c_string-replicate}
use linux_programing_n_syste.Kernel.{done}
use linux_programing_n_syste.UnixSockets.{
  buf_size, upcase-append, NoNul-map, length-map, get_or-overlay, has_nul_at,
}
use linux_programing_n_syste.UnixSockets.Datagram.{
  Server, goes_on, server_round, server_loop, client_request, client_main, bound,
}
use mathlib.Core.List.{append_assoc, append-nil}

-- The last byte of the buffer is NUL.
abbrev pub Terminated : List ℕ → Type 0
Terminated buf = get_or buf 29 1 ≡ 0

abbrev pub AllShort : List (List ℕ) → Type 0
AllShort [] = Unit
AllShort (m ∷ ms) = (length m ≤ 29) × AllShort ms

module _ (toupper : ℕ → ℕ) where
  pub Terminated-answer :
      (m buf : List ℕ)
      → length m ≤ 29
      → Terminated buf
      → Terminated (map toupper m ++ drop (length m) buf)
  Terminated-answer m buf h e =
      ap (λ n. get_or (map toupper m ++ drop n buf) 29 1) (sym (length-map toupper m))
      ∙ get_or-overlay (map toupper m) buf 29 1 (omega (arith, length-map toupper m))
      ∙ e

  -- The server after a message of at most 29 bytes.
  answered : List ℕ → Server → Server
  answered m s = record {
    buf = map toupper m ++ drop (length m) s.buf;
    shown = s.shown ++ (c_string (map toupper m ++ drop (length m) s.buf) ∷ []);
    sent = s.sent ++ (map toupper m ∷ []);
  }

  server_round_lem :
      (m : List ℕ) (s : Server)
      → length m ≤ 29
      → Terminated s.buf
      → server_round toupper (some m) s ≡ done (goes_on (answered m s))
  unfolding server_round answered
  server_round_lem m s h e = rw (take-all buf_size m (omega arith)) (
      rw (upcase-append toupper m (drop (length m) s.buf)) (
        rw (has_nul_at (map toupper m ++ drop (length m) s.buf) 29 (Terminated-answer m s.buf h e))
          (rw (take-exact (length m) (map toupper m) (drop (length m) s.buf) (length-map toupper m))
            refl)))

  pub server_loop_lem :
      (ms : List (List ℕ)) (s : Server)
      → AllShort ms
      → Terminated s.buf
      → (t : Server) × (server_loop toupper (map some ms) s ≡ done (goes_on t))
        × (t.sent ≡ s.sent ++ map (map toupper) ms)
  unfolding server_loop answered
  server_loop_lem [] s h e = (s, refl, sym (append-nil s.sent))
  server_loop_lem (m ∷ ms) s (h, hs) e =
      let (t, run, sent) = server_loop_lem ms (answered m s) hs (Terminated-answer m s.buf h e) in
      (
        t,
        rw (server_round_lem m s h e) run,
        sent ∙ append_assoc s.sent (map toupper m ∷ []) (map (map toupper) ms),
      )

  AllShort-append :
      (ms : List (List ℕ)) (m : List ℕ) → AllShort ms → length m ≤ 29 → AllShort (ms ++ (m ∷ []))
  AllShort-append [] m h short = (short, tt)
  AllShort-append (x ∷ ms) m (p, h) short = (p, AllShort-append ms m h short)

  same_length : (n : ℕ) → (n == n) ≡ true
  same_length n = (==_iff n n).1 refl

  client_main_lem :
      (argument : List ℕ)
      → ((c : ℕ) → 0 < c → 0 < toupper c)
      → NoNul argument
      → length argument ≤ 29
      → client_main (some (argument ++ (0 ∷ []))) (length argument) (some (map toupper argument))
        ≡ done (record { status = success; response = some (map toupper argument) })
  unfolding client_main client_request
  client_main_lem argument keeps h short =
      let answer = map toupper argument in
      rw (c_string-append argument (0 ∷ []) h ∙ append-nil argument) (
        rw (same_length (length argument)) (
          rw (take-all buf_size answer (omega (arith, length-map toupper argument))) (
            rw
              (has_nul_at (answer ++ drop (length answer) (replicate buf_size 0)) 29 (
                get_or-overlay answer (replicate buf_size 0) 29 1
                  (omega (arith, length-map toupper argument))))
              (rw
                (c_string-append answer (drop (length answer) (replicate buf_size 0))
                  (NoNul-map toupper argument keeps h))
                (rw (drop-replicate {A = ℕ} (length answer) buf_size 0) (
                  rw (c_string-replicate (buf_size - length answer))
                    (rw (append-nil answer) refl)))))))

  -- Where `toupper` makes no character NUL, a server that has just begun answers every message of at
  -- most 29 bytes in capitals, in their order, and a client whose argument is the last of them prints
  -- it in capitals and ends with status 0.
  pub capitals_answered :
      (ms : List (List ℕ)) (argument : List ℕ)
      → ((c : ℕ) → 0 < c → 0 < toupper c)
      → AllShort ms
      → NoNul argument
      → length argument ≤ 29
      → (t : Server) × (server_loop toupper (map some (ms ++ (argument ∷ []))) bound
          ≡ done (goes_on t))
        × (t.sent ≡ map (map toupper) (ms ++ (argument ∷ [])))
        × (client_main (some (argument ++ (0 ∷ []))) (length argument) (some (map toupper argument))
            ≡ done (record { status = success; response = some (map toupper argument) }))
  capitals_answered ms argument keeps short h h' =
      let (t, run, sent) =
        server_loop_lem (ms ++ (argument ∷ [])) bound (AllShort-append ms argument short h') refl in
      (t, run, sent, client_main_lem argument keeps h h')
