-- ===== src/Students/Records.antt =====
-- One field of a student in 5.2-Thread-management: what is scanned, and the record of 30 bytes it becomes.
use linux_programing_n_syste.Common.{
  ℕ, ◌+◌, ◌≤◌, ◌≡◌, ◌∙◌, ap, refl, arith, List, [], ◌∷◌, ◌++◌, ltb, length, take, drop, overlay,
  length-append, length-take, length-overlay, take-all,
}
use linux_programing_n_syste.Common.{Bool-cases, inl, inr}
use mathlib.Core.List.{append_assoc, append-nil}
use linux_programing_n_syste.Common.CString.{
  c_string, NoNul, NoNul-append, c_string-append, c_string-take,
}
use linux_programing_n_syste.Kernel.{done, Returns}
use linux_programing_n_syste.Students.{
  max_buf, field_size, scan_field, Open, write, print_line, write_field,
}

-- A word that the program can take: no NUL, and at most 29 characters.
pub record Fits (word : List ℕ) : Type 0 where
  pub clean : NoNul word
  pub short : length word ≤ 29

-- A word and its newline.
abbrev pub line : List ℕ → List ℕ
line word = word ++ (10 ∷ [])

-- The 30 bytes that are written of a buffer.
pub record IsRecord (word bytes : List ℕ) : Type 0 where
  pub size : length bytes ≡ max_buf
  pub text : (rest : List ℕ) → c_string (bytes ++ (0 ∷ rest)) ≡ line word

string_over :
    (word field : List ℕ) → NoNul word → c_string (overlay (word ++ (0 ∷ [])) field) ≡ word
string_over word field h =
    rw (append_assoc word (0 ∷ []) (drop (length (word ++ (0 ∷ []))) field))
      (c_string-append word _ h ∙ append-nil word)

pub scanned :
    (word field : List ℕ)
    → Fits word
    → length field ≡ field_size
    → Returns (scan_field word field) (λ f. (length f ≡ field_size) × (c_string f ≡ word))
unfolding scan_field
scanned word field h e = ground (
  arith,
  h.short,
  string_over word field h.clean,
  length-append {0} word (0 ∷ []),
  length-overlay {0} (word ++ (0 ∷ [])) field,
)

regroup : (word rest : List ℕ) → (word ++ (10 ∷ 0 ∷ [])) ++ rest ≡ line word ++ (0 ∷ rest)
regroup [] rest = refl
regroup (c ∷ word) rest = ap (λ t. c ∷ t) (regroup word rest)

NoNul-line : (word : List ℕ) → NoNul word → NoNul (line word)
NoNul-line word h = NoNul-append word (10 ∷ []) h (omega arith, tt)

abbrev pub printed : List ℕ → List ℕ → List ℕ
printed word buf = overlay (word ++ (10 ∷ 0 ∷ [])) buf

length-printed :
    (word buf : List ℕ)
    → Fits word
    → length buf ≡ field_size
    → length (printed word buf) ≡ field_size
length-printed word buf h e = omega (
  arith,
  h.short,
  length-append {0} word (10 ∷ 0 ∷ []),
  length-overlay {0} (word ++ (10 ∷ 0 ∷ [])) buf,
)

printed-text :
    (word buf rest : List ℕ)
    → Fits word
    → c_string (take max_buf (printed word buf) ++ (0 ∷ rest)) ≡ line word
printed-text word buf rest h = rw (regroup word (drop (length (word ++ (10 ∷ 0 ∷ []))) buf)) (
    c_string-take max_buf (line word) _ (0 ∷ rest) (NoNul-line word h.clean) refl
    ∙ take-all max_buf (line word) (omega (arith, h.short, length-append {0} word (10 ∷ []))))

printed-IsRecord :
    (word buf : List ℕ)
    → Fits word
    → length buf ≡ field_size
    → IsRecord word (take max_buf (printed word buf))
printed-IsRecord word buf h e = record {
  size = omega (arith, length-take {0} max_buf (printed word buf), length-printed word buf h e);
  text = λ rest. printed-text word buf rest h;
}

-- What writing one field does: a record of 30 bytes goes to the file.
abbrev Written : List ℕ → Open → List ℕ × Open → Type 0
Written word f s =
    (bytes : List ℕ) × (length s.0 ≡ field_size) × IsRecord word bytes × (s.1 ≡ write bytes f)

print_line-eq_done :
    (word field buf : List ℕ)
    → Fits word
    → c_string field ≡ word
    → print_line field buf ≡ done (printed word buf)
unfolding print_line
print_line-eq_done word field buf h e = elim (Bool-cases (ltb field_size (length word + 2))) [
  | inl over ↦ absurd (ground (arith, h.short))
  | inr fits ↦ rw (e, fits)
]

pub field-Written :
    (word field buf : List ℕ) (f : Open)
    → Fits word
    → c_string field ≡ word
    → length buf ≡ field_size
    → Returns (write_field field (buf, f)) (Written word f)
unfolding write_field
field-Written word field buf f h e l = rw (print_line-eq_done word field buf h e) (
  take max_buf (printed word buf),
  length-printed word buf h l,
  printed-IsRecord word buf h l,
  refl,
)
