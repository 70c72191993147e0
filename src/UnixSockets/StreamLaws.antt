-- ===== src/UnixSockets/StreamLaws.antt =====
-- What the server of 7.1-Unix-Stream sends, and which arguments of its client are of a safe length.
use linux_programing_n_syste.Common.{
  ℕ, zero, suc, ◌≤◌, ◌<◌, ◌≡◌, refl, sym, ap, ◌∙◌, arith, true, false, ltb, some, List, [], ◌∷◌,
  ◌++◌, length, drop, replicate, map, take-all, take-exact, drop-all, length-append, length-drop,
}
use linux_programing_n_syste.Common.CString.{
  c_string, has_nul, NoNul, c_string-append, has_nul-append,
}
use linux_programing_n_syste.Kernel.{done, buffer_overrun}
use linux_programing_n_syste.UnixSockets.{
  buf_size, upcase-append, NoNul-map, length-map, has_nul_at,
}
use linux_programing_n_syste.UnixSockets.Stream.{
  Server, came, goes_on, answer, server_round, server_loop, client_request, print_answer,
  client_loop, client_main,
}
use linux_programing_n_syste.UnixSockets.DatagramLaws.{Terminated, Terminated-answer}
use mathlib.Core.List.{append-nil, map-append}

client_request-short :
    (argument : List ℕ) → length argument < buf_size → client_request argument ≡ buffer_overrun
unfolding client_request
client_request-short argument h = rw (ltb_below (length argument) h) refl
  where
    ltb_below : (n : ℕ) → n < 30 → ltb n 30 ≡ true
    ltb_below n h = ground arith

client_request-exact : (m more : List ℕ) → length m ≡ buf_size → client_request (m ++ more) ≡ done m
unfolding client_request
client_request-exact m more h =
    rw (not_below (length (m ++ more)) (omega (arith, length-append {0} m more, h)))
      (rw (take-exact buf_size m more h) refl)
  where
    not_below : (n : ℕ) → 30 ≤ n → ltb n 30 ≡ false
    not_below n h = ground arith

module _ (toupper : ℕ → ℕ) where
  -- A message in capitals over the buffer.
  abbrev pub reply : List ℕ → List ℕ → List ℕ
  reply m buf = map toupper m ++ drop (length m) buf

  pub length-reply :
      (m buf : List ℕ)
      → length m ≤ buf_size
      → length buf ≡ buf_size
      → length (reply m buf) ≡ buf_size
  length-reply m buf h size = omega (
    arith,
    length-append {0} (map toupper m) (drop (length m) buf),
    length-map toupper m,
    length-drop {0} (length m) buf,
  )

  -- The server after a message.
  abbrev pub answered : List ℕ → Server → Server
  answered m s = record s {
    buf = reply m s.buf;
    shown = s.shown ++ (c_string (reply m s.buf) ∷ []);
    sent = s.sent ++ (reply m s.buf ∷ []);
  }

  pub answer_lem :
      (m : List ℕ) (s : Server)
      → length m ≤ buf_size
      → length s.buf ≡ buf_size
      → has_nul (reply m s.buf) ≡ true
      → answer toupper m s ≡ done (goes_on (answered m s))
  unfolding answer
  answer_lem m s h size nul = rw (take-all buf_size m h) (
      rw (upcase-append toupper m (drop (length m) s.buf)) (
        rw nul (
          rw (take-all buf_size (reply m s.buf) (omega (arith, length-reply m s.buf h size)))
            refl)))

  abbrev pub accepted : Server → Server
  accepted s = record s { open_files = suc s.open_files }

  pub nul_of_short :
      (m buf : List ℕ) → length m ≤ 29 → Terminated buf → has_nul (reply m buf) ≡ true
  nul_of_short m buf h e = has_nul_at (reply m buf) 29 (Terminated-answer toupper m buf h e)

  -- For two messages of at most 29 bytes, one behind the other, the second answer is the second message
  -- in capitals and then what the first answer had behind it: a shorter message is answered with the
  -- end of the one before. Neither connection is closed.
  pub reply_shows_previous :
      (b : ℕ) (bs : List ℕ) (c : ℕ) (cs : List ℕ) (s : Server)
      → length (b ∷ bs) ≤ 29
      → length (c ∷ cs) ≤ 29
      → Terminated s.buf
      → length s.buf ≡ buf_size
      → (t : Server) × (server_loop toupper (came b bs ∷ came c cs ∷ []) s ≡ done (goes_on t))
        × (t.sent
            ≡ (s.sent ++ (reply (b ∷ bs) s.buf ∷ []))
              ++ (reply (c ∷ cs) (reply (b ∷ bs) s.buf) ∷ []))
        × (t.open_files ≡ suc (suc s.open_files))
  unfolding server_loop server_round
  reply_shows_previous b bs c cs s h h' e size =
      let s1 = answered (b ∷ bs) (accepted s) in
      let e1 = Terminated-answer toupper (b ∷ bs) s.buf h e in
      let size1 = length-reply (b ∷ bs) s.buf (omega arith) size in
      (
        answered (c ∷ cs) (accepted s1),
        rw (answer_lem (b ∷ bs) (accepted s) (omega arith) size (nul_of_short (b ∷ bs) s.buf h e)) (
            rw
              (answer_lem (c ∷ cs) (accepted s1) (omega arith) size1
                (nul_of_short (c ∷ cs) s1.buf h' e1))
              refl),
        refl,
        refl,
      )

  no_nul : (m : List ℕ) → NoNul m → has_nul m ≡ false
  no_nul [] h = refl
  no_nul (zero ∷ m) (p, h) = absurd (omega arith)
  no_nul (suc c ∷ m) (p, h) = no_nul m h

  -- Thirty bytes without NUL.
  answer-overrun :
      (m : List ℕ) (s : Server)
      → ((c : ℕ) → 0 < c → 0 < toupper c)
      → NoNul m
      → length m ≡ buf_size
      → length s.buf ≡ buf_size
      → answer toupper m s ≡ buffer_overrun
  unfolding answer
  answer-overrun m s keeps h full size = rw (take-all buf_size m (omega (arith, full))) (
      rw (upcase-append toupper m (drop (length m) s.buf)) (
        rw (drop-all (length m) s.buf (omega (arith, full, size))) (
          rw (append-nil (map toupper m))
            (rw (no_nul (map toupper m) (NoNul-map toupper m keeps h)) refl))))

  -- An answer in capitals, of 29 characters and a NUL, as the client prints it.
  print_answer_lem :
      (m : List ℕ)
      → ((c : ℕ) → 0 < c → 0 < toupper c)
      → NoNul m
      → length m ≡ 29
      → print_answer (map toupper m ++ (0 ∷ [])) (replicate buf_size 0)
        ≡ done (some (map toupper m))
  unfolding print_answer
  print_answer_lem m keeps h size =
      let capitals = map toupper m in
      let length-answer : length (capitals ++ (0 ∷ [])) ≡ buf_size =
        omega (arith, length-append {0} capitals (0 ∷ []), length-map toupper m, size) in
      rw (take-all buf_size (capitals ++ (0 ∷ [])) (omega (arith, length-answer))) (
        rw
          (drop-all {A = ℕ} (length (capitals ++ (0 ∷ []))) (replicate buf_size 0)
            (omega (arith, length-answer)))
          (rw (append-nil (capitals ++ (0 ∷ []))) (
            rw (has_nul-append capitals (0 ∷ []) refl) (
              rw (c_string-append capitals (0 ∷ []) (NoNul-map toupper m keeps h))
                (rw (append-nil capitals) refl)))))

  -- The server's answer to 29 characters and a NUL.
  answer-full :
      (m : List ℕ) (s : Server)
      → toupper 0 ≡ 0
      → length m ≡ 29
      → length s.buf ≡ buf_size
      → (t : Server) × (answer toupper (m ++ (0 ∷ [])) s ≡ done (goes_on t))
        × (t.sent ≡ s.sent ++ ((map toupper m ++ (0 ∷ [])) ∷ []))
  answer-full m s zero_kept size buf_length =
      let message = m ++ (0 ∷ []) in
      let full : length message ≡ buf_size = omega (arith, length-append {0} m (0 ∷ []), size) in
      let capitals : reply message s.buf ≡ map toupper m ++ (0 ∷ []) =
        rw (drop-all (length message) s.buf (omega (arith, full, buf_length))) (
          rw (append-nil (map toupper message))
            (rw (map-append toupper m (0 ∷ [])) (rw zero_kept refl))) in
      (
        answered message s,
        answer_lem message s (omega (arith, full)) buf_length
            (rw capitals (has_nul-append (map toupper m) (0 ∷ []) refl)),
        ap (λ r. s.sent ++ (r ∷ [])) capitals,
      )

  -- Only an argument of 29 characters is safe. Of a shorter one the client reads past its end. With one
  -- of 29 the server answers and the client prints it in capitals. Of a longer one the client sends 30
  -- characters without NUL, and the server reads past the end of its buffer.
  pub only_29_characters_fit :
      (short : List ℕ) (x : ℕ) (xs : List ℕ) (y : ℕ) (ys more : List ℕ) (answers : List (List ℕ))
      (s : Server)
      → ((c : ℕ) → 0 < c → 0 < toupper c)
      → toupper 0 ≡ 0
      → length short ≤ 28
      → NoNul (x ∷ xs)
      → length (x ∷ xs) ≡ 29
      → NoNul (y ∷ ys)
      → length (y ∷ ys) ≡ 30
      → length s.buf ≡ buf_size
      → (client_main (short ++ (0 ∷ [])) answers ≡ buffer_overrun)
        × (t : Server) × (client_request ((x ∷ xs) ++ (0 ∷ [])) ≡ done ((x ∷ xs) ++ (0 ∷ [])))
        × (server_round toupper (came x (xs ++ (0 ∷ []))) s ≡ done (goes_on t))
        × (t.sent ≡ s.sent ++ ((map toupper (x ∷ xs) ++ (0 ∷ [])) ∷ []))
        × (client_main ((x ∷ xs) ++ (0 ∷ [])) ((map toupper (x ∷ xs) ++ (0 ∷ [])) ∷ [])
            ≡ done (some (map toupper (x ∷ xs))))
        × (client_request ((y ∷ ys) ++ more) ≡ done (y ∷ ys))
        × (server_round toupper (came y ys) s ≡ buffer_overrun)
  unfolding server_round client_main client_loop
  only_29_characters_fit short x xs y ys more answers s keeps zero_kept h nx hx ny hy size =
      let (t, answers_x, sent) = answer-full (x ∷ xs) (accepted s) zero_kept hx size in
      let message : List ℕ = (x ∷ xs) ++ (0 ∷ []) in
      let asks : client_request message ≡ done message =
        ap client_request (sym (append-nil message))
        ∙ client_request-exact message []
            (omega (arith, length-append {0} (x ∷ xs) (0 ∷ []), hx)) in
      (
        rw
            (client_request-short (short ++ (0 ∷ []))
              (omega (arith, length-append {0} short (0 ∷ []))))
            refl,
        t,
        asks,
        answers_x,
        sent,
        rw asks (print_answer_lem (x ∷ xs) keeps nx hx),
        client_request-exact (y ∷ ys) more hy,
        answer-overrun (y ∷ ys) (accepted s) keeps ny hy size,
      )
