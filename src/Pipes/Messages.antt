-- ===== src/Pipes/Messages.antt =====
-- The buffers of 8.1-Pipeline: their size, and the line in them.
use linux_programing_n_syste.Common.{
  ℕ, zero, suc, ◌≤◌, ◌≡◌, ◌≢◌, ◌⊎◌, inl, inr, true, refl, ◌∙◌, arith, List, [], ◌∷◌, ◌++◌, length,
  drop, overlay, length-append, length-overlay, drop-exact,
}
use linux_programing_n_syste.Common.CString.{c_string, c_string-append, has_nul, has_nul-append}
use linux_programing_n_syste.Common.Typed.{line, line_lem, Fits, with_newline, Plain-NoNul}
use linux_programing_n_syste.Pipes.{buf_size, type_message}
use mathlib.Core.List.{append_assoc, append-nil}

length-line : (n : ℕ) (cs : List ℕ) → length (line n cs) ≤ n
unfolding line
length-line zero cs = omega arith
length-line (suc n) [] = omega arith
length-line (suc n) (c ∷ cs) = ground (arith, length-line n cs)

pub length-type_message :
    (stdin msg : List ℕ) → length msg ≡ buf_size → length (type_message stdin msg).1 ≡ buf_size
unfolding type_message
length-type_message [] msg size = size
length-type_message (c ∷ cs) msg size = omega (
  arith,
  length-append {0} (line 29 (c ∷ cs)) (0 ∷ []),
  length-line 29 (c ∷ cs),
  length-overlay {0} (line 29 (c ∷ cs) ++ (0 ∷ [])) msg,
)

-- A buffer that is filled from its start is what it is filled with.
pub overlay_all : (bytes msg : List ℕ) → length bytes ≡ length msg → overlay bytes msg ≡ bytes
overlay_all bytes msg same = rw same (rw (drop_all msg) (append-nil bytes))
  where
    drop_all : (xs : List ℕ) → drop (length xs) xs ≡ []
    drop_all [] = refl
    drop_all (x ∷ xs) = drop_all xs

-- What `type_message` makes of an input that is not empty.
typed : List ℕ → List ℕ → List ℕ × List ℕ
typed input msg = (drop (length (line 29 input)) input, overlay (line 29 input ++ (0 ∷ [])) msg)

type_message-typed :
    (text rest msg : List ℕ)
    → type_message (with_newline text ++ rest) msg ≡ typed (with_newline text ++ rest) msg
unfolding type_message typed
type_message-typed [] rest msg = refl
type_message-typed (c ∷ cs) rest msg = refl

-- A typed line stands in the buffer, and the input goes on behind it.
pub type_message_lem :
    (text rest msg : List ℕ)
    → Fits text
    → type_message (with_newline text ++ rest) msg
      ≡ (rest, overlay (with_newline text ++ (0 ∷ [])) msg)
unfolding typed
type_message_lem text rest msg h = rw (type_message-typed text rest msg) (
    rw (line_lem 29 text rest h.plain (omega (arith, h.short)))
      (rw (drop-exact (length (with_newline text)) (with_newline text) rest refl) refl))

pub c_string-typed :
    (text msg : List ℕ)
    → Fits text
    → c_string (overlay (with_newline text ++ (0 ∷ [])) msg) ≡ with_newline text
c_string-typed text msg h =
    rw
      (append_assoc (with_newline text) (0 ∷ [])
        (drop (length (with_newline text ++ (0 ∷ []))) msg))
      (c_string-append (with_newline text) (0 ∷ drop (length (with_newline text ++ (0 ∷ []))) msg)
          (Plain-NoNul text h.plain)
        ∙ append-nil (with_newline text))

-- A text and its NUL, copied to a buffer.
pub has_nul-overlay : (text more old : List ℕ) → has_nul (overlay (text ++ (0 ∷ more)) old) ≡ true
has_nul-overlay text more old =
    rw (append_assoc text (0 ∷ more) (drop (length (text ++ (0 ∷ more))) old))
      (has_nul-append text _ refl)

-- Behind `fgets` the buffer has a NUL, if a line came or it had one before.
pub has_nul-type_message :
    (stdin msg : List ℕ)
    → (stdin ≢ []) ⊎ (has_nul msg ≡ true)
    → has_nul (type_message stdin msg).1 ≡ true
unfolding type_message
has_nul-type_message [] msg (inl some_line) = absurd (some_line refl)
has_nul-type_message [] msg (inr nul) = nul
has_nul-type_message (c ∷ cs) msg h = has_nul-overlay (line 29 (c ∷ cs)) [] msg
