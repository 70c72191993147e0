-- ===== src/Pipes/Producer.antt =====
-- 8.3-Producer_Consumer/producer.c and consumer.c: two programs over one FIFO. The producer writes a
-- line and its NUL, the consumer reads up to 30 bytes and prints them up to the first NUL.
use linux_programing_n_syste.Common.{
  ℕ, ◌+◌, ◌≤◌, ◌≡◌, refl, ap, ◌∙◌, arith, not, if◌then◌else◌, List, [], ◌∷◌, ◌++◌, length, drop,
  overlay, length-append, take-all, drop-all,
}
use linux_programing_n_syste.Common.CString.{c_string, has_nul, c_string-append}
use linux_programing_n_syste.Common.Typed.{Fits, with_newline, Plain-NoNul}
use linux_programing_n_syste.Kernel.{Outcome, done, buffer_overrun, and_then, Returns}
use linux_programing_n_syste.Pipes.{Channel, Documented, buf_size, type_message}
use linux_programing_n_syste.Pipes.Messages.{type_message_lem, c_string-typed, has_nul-overlay}
use mathlib.Core.List.{append_assoc, append-nil}

module _ (k : Channel) where
  -- The producer's input and buffer, the FIFO, the consumer's buffer, and what it has printed, the
  -- oldest first.
  pub record Store : Type 0 where
    pub stdin : List ℕ
    pub producer_buf : List ℕ
    pub fifo : k.State
    pub consumer_buf : List ℕ
    pub printed : List (List ℕ)

  -- `strlen` reads past the end of a buffer without NUL.
  unfoldable pub produce : Store → Outcome Store
  unfolding type_message
  produce s =
      let (stdin, buf) = type_message s.stdin s.producer_buf in
      if not (has_nul buf)
      then buffer_overrun
      else done (record s {
        stdin = stdin;
        producer_buf = buf;
        fifo = k.write (c_string buf ++ (0 ∷ [])) s.fifo;
      })

  -- What `read` answers is not looked at, and `printf` reads past the end of a buffer without NUL.
  unfoldable pub consume : Store → Outcome Store
  consume s =
      let (bytes, fifo) = k.read buf_size s.fifo in
      let buf = overlay bytes s.consumer_buf in
      if not (has_nul buf)
      then buffer_overrun
      else done
          (record s { fifo = fifo; consumer_buf = buf; printed = s.printed ++ (c_string buf ∷ []) })

module _ (k : Channel) (documented : Documented k) where
  -- One typed line: where the producer stands afterwards, and what the FIFO holds.
  pub produce_lem :
      (text rest : List ℕ) (s : Store k)
      → Fits text
      → produce k (record s { stdin = with_newline text ++ rest })
        ≡ done (record s {
          stdin = rest;
          producer_buf = overlay (with_newline text ++ (0 ∷ [])) s.producer_buf;
          fifo = k.write (with_newline text ++ (0 ∷ [])) s.fifo;
        })
  unfolding produce
  produce_lem text rest s h = rw (type_message_lem text rest s.producer_buf h) (
      rw (has_nul-overlay (with_newline text) [] s.producer_buf)
        (rw (c_string-typed text s.producer_buf h) refl))

  shown_first :
      (text more old : List ℕ)
      → Fits text
      → c_string (overlay (with_newline text ++ (0 ∷ more)) old) ≡ with_newline text
  shown_first text more old h =
      rw
        (append_assoc (with_newline text) (0 ∷ more)
          (drop (length (with_newline text ++ (0 ∷ more))) old))
        (c_string-append (with_newline text) _ (Plain-NoNul text h.plain)
          ∙ append-nil (with_newline text))

  -- A read that empties the FIFO, of a text, its NUL, and what stands behind it.
  consume_lem :
      (text more : List ℕ) (s : Store k)
      → Fits text
      → k.bytes s.fifo ≡ with_newline text ++ (0 ∷ more)
      → length (with_newline text ++ (0 ∷ more)) ≤ buf_size
      → Returns
          (consume k s)
          (λ u. (u.printed ≡ s.printed ++ (with_newline text ∷ [])) × (k.bytes u.fifo ≡ []))
  unfolding consume
  consume_lem text more s h content short = rw (documented.read_takes buf_size s.fifo) (
      rw content (
        rw (take-all buf_size (with_newline text ++ (0 ∷ more)) short) (
          rw (has_nul-overlay (with_newline text) more s.consumer_buf) (
            ap (λ t. s.printed ++ (t ∷ [])) (shown_first text more s.consumer_buf h),
            rw (documented.bytes_read buf_size s.fifo)
                (rw content (drop-all buf_size (with_newline text ++ (0 ∷ more)) short)),
          ))))

  produced_once :
      (text rest : List ℕ) (s : Store k)
      → Fits text
      → k.bytes s.fifo ≡ []
      → Returns (produce k (record s { stdin = with_newline text ++ rest })) (λ t.
        Returns
          (consume k t)
          (λ u. (u.printed ≡ s.printed ++ (with_newline text ∷ [])) × (k.bytes u.fifo ≡ [])))
  produced_once text rest s h empty = rw (produce_lem text rest s h) (
      consume_lem text [] _ h
        (rw (documented.bytes_write (with_newline text ++ (0 ∷ [])) s.fifo) (rw empty refl))
        (omega (
          arith,
          h.short,
          length-append {0} (with_newline text) (0 ∷ []),
          length-append {0} text (10 ∷ []),
        )))

  -- Two lines, one behind the other.
  both :
      (a b : List ℕ)
      → (with_newline a ++ (0 ∷ [])) ++ (with_newline b ++ (0 ∷ []))
        ≡ with_newline a ++ (0 ∷ (with_newline b ++ (0 ∷ [])))
  both a b = append_assoc (with_newline a) (0 ∷ []) (with_newline b ++ (0 ∷ []))

  length-both :
      (a b : List ℕ)
      → length (with_newline a ++ (0 ∷ (with_newline b ++ (0 ∷ [])))) ≡ length a + length b + 4
  length-both a b = omega (
    arith,
    length-append {0} (with_newline a) (0 ∷ (with_newline b ++ (0 ∷ []))),
    length-append {0} a (10 ∷ []),
    length-append {0} (with_newline b) (0 ∷ []),
    length-append {0} b (10 ∷ []),
  )

  -- The producer once the first of two lines is written.
  abbrev after_first : (a b rest : List ℕ) → Store k → Store k
  after_first a b rest s = record s {
    stdin = with_newline b ++ rest;
    producer_buf = overlay (with_newline a ++ (0 ∷ [])) s.producer_buf;
    fifo = k.write (with_newline a ++ (0 ∷ [])) s.fifo;
  }

  produced_twice :
      (a b rest : List ℕ) (s : Store k)
      → Fits a
      → Fits b
      → length a + length b ≤ 26
      → k.bytes s.fifo ≡ []
      → Returns
          (and_then
            (produce k (record s { stdin = with_newline a ++ (with_newline b ++ rest) }))
            λ t. produce k t)
          (λ t.
            Returns
              (consume k t)
              (λ u. (u.printed ≡ s.printed ++ (with_newline a ∷ [])) × (k.bytes u.fifo ≡ [])))
  produced_twice a b rest s fits_a fits_b short empty =
      rw (produce_lem a (with_newline b ++ rest) s fits_a) (
        rw (produce_lem b rest (after_first a b rest s) fits_b) (
          consume_lem a (with_newline b ++ (0 ∷ [])) _ fits_a
            (rw
              (documented.bytes_write (with_newline b ++ (0 ∷ []))
                (k.write (with_newline a ++ (0 ∷ [])) s.fifo))
              (rw (documented.bytes_write (with_newline a ++ (0 ∷ [])) s.fifo)
                (rw empty (both a b))))
            (omega (arith, length-both a b))))

  -- Where one line was typed and the FIFO was empty, the consumer prints that line and leaves the
  -- FIFO empty. Where two lines, of 26 characters together at most, were typed before it reads, it
  -- prints the first and leaves the FIFO empty as well: the second line is lost. In neither case is
  -- a buffer read past its end.
  pub consume-produce :
      (a b rest : List ℕ) (s : Store k)
      → Fits a
      → Fits b
      → length a + length b ≤ 26
      → k.bytes s.fifo ≡ []
      → Returns (produce k (record s { stdin = with_newline a ++ rest })) (λ t.
        Returns
          (consume k t)
          (λ u. (u.printed ≡ s.printed ++ (with_newline a ∷ [])) × (k.bytes u.fifo ≡ [])))
        × Returns
            (and_then
              (produce k (record s { stdin = with_newline a ++ (with_newline b ++ rest) }))
              λ t. produce k t)
            (λ t.
              Returns
                (consume k t)
                (λ u. (u.printed ≡ s.printed ++ (with_newline a ∷ [])) × (k.bytes u.fifo ≡ [])))
  consume-produce a b rest s fits_a fits_b short empty =
      (produced_once a rest s fits_a empty, produced_twice a b rest s fits_a fits_b short empty)
