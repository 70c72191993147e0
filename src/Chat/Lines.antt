-- ===== src/Chat/Lines.antt =====
-- What a typed line becomes on its way into the buffer and out of it.
use linux_programing_n_syste.Common.{
  ℕ, ◌≡◌, refl, ◌∙◌, arith, false, List, [], ◌∷◌, ◌++◌, length, drop, drop-exact, overlay,
}
use linux_programing_n_syste.Common.CString.{c_string, NoNul, c_string-append}
use linux_programing_n_syste.Kernel.{Outcome}
use linux_programing_n_syste.Chat.{filled, is_exit, exit_word, starts, type_line, Side, Ended}
use linux_programing_n_syste.Common.Typed.{
  line, line_lem, Plain, Plain-NoNul, with_newline, Fits, ==_ne,
}
use mathlib.Core.List.{append_assoc, append-nil}

-- Such a line that does not end the chat.
pub record Says (text : List ℕ) : Type 0 where
  pub fits : Fits text
  pub no_exit : is_exit (with_newline text) ≡ false

-- A text and its NUL in the buffer are read back.
pub c_string-buffer :
    (text : List ℕ) → NoNul text → c_string (overlay (text ++ (0 ∷ [])) filled) ≡ text
c_string-buffer text h =
    rw (append_assoc text (0 ∷ []) (drop (length (text ++ (0 ∷ []))) filled))
      (c_string-append text (0 ∷ drop (length (text ++ (0 ∷ []))) filled) h ∙ append-nil text)

-- Whether a text begins with a word is settled by its newline.
starts-newline :
    (word text rest : List ℕ)
    → Plain word
    → starts word (with_newline text ++ rest) ≡ starts word (with_newline text)
unfolding starts
starts-newline [] text rest h = refl
starts-newline (p ∷ ps) [] rest (_, q, h) = rw (==_ne p 10 q) refl
starts-newline (p ∷ ps) (c ∷ cs) rest (_, q, h) = rw (starts-newline ps cs rest h) refl

exit_word-Plain : Plain exit_word
exit_word-Plain = (
  omega arith,
  λ e. omega arith,
  (
    omega arith,
    λ e. omega arith,
    (omega arith, λ e. omega arith, (omega arith, λ e. omega arith, tt)),
  ),
)

pub is_exit-buffer :
    (text old : List ℕ)
    → is_exit (overlay (with_newline text ++ (0 ∷ [])) old) ≡ is_exit (with_newline text)
is_exit-buffer text old =
    rw
      (append_assoc (with_newline text) (0 ∷ [])
        (drop (length (with_newline text ++ (0 ∷ []))) old))
      (starts-newline exit_word text _ exit_word-Plain)

pub is_exit-received :
    (text old : List ℕ) → is_exit (overlay (with_newline text) old) ≡ is_exit (with_newline text)
is_exit-received text old = starts-newline exit_word text _ exit_word-Plain

-- What `type_line` hands on of an input that begins with such a line.
pub type_line_lem :
    (text rest : List ℕ) (s : Side) (k : List ℕ → List ℕ → Side → Outcome Ended)
    → Fits text
    → type_line (with_newline text ++ rest) s k
      ≡ k
          (overlay (with_newline text ++ (0 ∷ [])) filled)
          (with_newline text)
          (record s { stdin = rest })
unfolding type_line
type_line_lem text rest s k h = rw (by_input text) (
    rw (line_lem 29 text rest h.plain (omega (arith, h.short))) (
      rw (c_string-buffer (with_newline text) (Plain-NoNul text h.plain))
        (rw (drop-exact (length (with_newline text)) (with_newline text) rest refl) refl)))
  where
    cut : List ℕ → Outcome Ended
    cut cs =
        let t = line 29 cs in
        let buf = overlay (t ++ (0 ∷ [])) filled in
        k buf (c_string buf) (record s { stdin = drop (length t) cs })

    by_input : (t : List ℕ) → type_line (with_newline t ++ rest) s k ≡ cut (with_newline t ++ rest)
    by_input [] = refl
    by_input (c ∷ cs) = refl
