-- ===== src/Sysfs/Requests.antt =====
-- Any sequence of writes to the files of gpio-sysfs.c.
use linux_programing_n_syste.Common.{
  ℕ, ◌+◌, ◌≤◌, ◌≡◌, ◌⊎◌, inl, inr, refl, arith, Bool-cases, List, [], ◌∷◌, ◌++◌, length, ltb, ap,
  ◌==◌, ==_iff, length-append, length-overlay, if◌then◌else◌, Option, none, some, ◌^◌, ◌-◌, ◌%◌,
  Bool, true, false,
}
use linux_programing_n_syste.Common.Int.{ℤ, pos, negsuc, minus_one}
use linux_programing_n_syste.Common.Decimal.{format_u32, length-format_u32}
use linux_programing_n_syste.Kernel.{Outcome, done, and_then, Returns, Returns-and_then}
use linux_programing_n_syste.Sysfs.{
  State, Answers, Call, text_size, export_store, create_control, unexport_store, direction_store,
  scan_direct, value_store, set_level, level_of, stored, gpio_numb, as_unsigned, out_of_range, call,
}

-- A write of a text to one of the files; its length is the count.
pub data Request : Type 0 where
  write_export write_unexport write_direction write_value : List ℕ → Request

-- The kernel passes a page at most.
abbrev pub page_size : ℕ
page_size = 4096

module _ (scan_int : List ℕ → Option ℤ) (scan_word : List ℕ → Option (List ℕ)) where
  unfoldable pub serve : Answers → Request → State → Outcome (ℤ × State)
  serve a (Request.write_export buf) s = export_store scan_int a buf (length buf) s
  serve a (Request.write_unexport buf) s = done (unexport_store (length buf) s)
  serve a (Request.write_direction buf) s = direction_store scan_word a buf (length buf) s
  serve a (Request.write_value buf) s = done (value_store scan_int buf (length buf) s)

  unfoldable pub serve_all : List (Answers × Request) → State → Outcome State
  serve_all [] s = done s
  serve_all ((a, r) ∷ rest) s = and_then (serve a r s) λ q. serve_all rest q.1

-- The stored value is 0 or 1, the pin one of those that may be exported, and the buffer is whole.
pub record Sound (s : State) : Type 0 where
  pub binary : (s.value ≡ pos 0) ⊎ (s.value ≡ pos 1)
  pub pin : s.gpio_led ≤ 65
  pub whole : length s.direct ≡ text_size

-- A word that `sscanf` finds is not longer than the text.
abbrev pub ScansWithin : (List ℕ → Option (List ℕ)) → Type 0
ScansWithin scan_word = (buf word : List ℕ) → scan_word buf ≡ some word → length word ≤ length buf

pub length-gpio_numb : (n : ℕ) → n ≤ 65 → length (gpio_numb n) ≤ text_size
unfolding gpio_numb
length-gpio_numb n h = omega (
  arith,
  length-append {0} (format_u32 n) (0 ∷ []),
  length-format_u32 2 n (omega arith) (omega arith),
)

create_control-Sound :
    (a : Answers) (n count : ℕ) (s : State)
    → n ≤ 65
    → Sound s
    → Sound (create_control a n count s).1
unfolding create_control
create_control-Sound a n count s small h = elim (Bool-cases a.group_failed) [
  | inl e ↦ rw e (record { binary = h.binary; pin = small; whole = h.whole })
  | inr e ↦ rw e (record { binary = h.binary; pin = small; whole = h.whole })
]

in_range : (z : ℤ) → out_of_range z ≡ false → as_unsigned z ≤ 65
in_range (pos n) h = ground arith
in_range (negsuc n) h = ground arith

export_store-Sound :
    (scan_int : List ℕ → Option ℤ) (a : Answers) (buf : List ℕ) (count : ℕ) (s : State)
    → Sound s
    → Returns (export_store scan_int a buf count s) (λ q. Sound q.1)
unfolding export_store
export_store-Sound scan_int a buf count s h =
    let numb = stored (scan_int buf) (pos 0) in
    elim (Bool-cases (out_of_range numb)) [
      | inl out ↦ rw out h
      | inr within ↦ rw within (
          ground (
            arith,
            h,
            in_range numb within,
            length-gpio_numb (as_unsigned numb),
            create_control-Sound a (as_unsigned numb) count s,
          ))
    ]

scan_direct-Sound :
    (found : Option (List ℕ)) (count : ℕ) (s : State)
    → ((word : List ℕ) → found ≡ some word → length word + 1 ≤ text_size)
    → Sound s
    → Returns (scan_direct found count s) (λ q. Sound q.1)
unfolding scan_direct
scan_direct-Sound none count s short h = h
scan_direct-Sound (some word) count s short h =
    elim (Bool-cases (ltb text_size (length word + 1))) [
      | inl long ↦ absurd (ground (arith, short word refl))
      | inr fits ↦ rw fits (record {
        binary = h.binary;
        pin = h.pin;
        whole = omega (
          arith,
          h.whole,
          short word refl,
          length-append {0} word (0 ∷ []),
          length-overlay {0} (word ++ (0 ∷ [])) s.direct,
        );
      })
    ]

level-Sound :
    (found : Option ℤ) (count : ℕ) (s : State)
    → Sound s
    → Sound (set_level (level_of (stored found (pos 0))) found count s).1
unfolding set_level
level-Sound none count s h = record { binary = h.binary; pin = h.pin; whole = h.whole }
level-Sound (some (pos n)) count s h = elim (Bool-cases (n == 0)) [
  | inl off ↦
      rw off (record { binary = inl (ap pos ((==_iff n 0).0 off)); pin = h.pin; whole = h.whole })
  | inr on ↦ rw on (elim (Bool-cases (n == 1)) [
    | inl one ↦
        rw one (record { binary = inr (ap pos ((==_iff n 1).0 one)); pin = h.pin; whole = h.whole })
    | inr more ↦ rw more h
  ])
]
level-Sound (some (negsuc n)) count s h = h

record-call-Sound : (c : Call) (s : State) → Sound s → Sound (call c s)
record-call-Sound c s h = record { binary = h.binary; pin = h.pin; whole = h.whole }

-- One of the two directions, whichever call sets it.
directed-Sound :
    (failed : Bool) (c : Call) (found : Option (List ℕ)) (count : ℕ) (s : State)
    → ((word : List ℕ) → found ≡ some word → length word + 1 ≤ text_size)
    → Sound s
    → Returns
        (if failed then done (minus_one, call c s) else scan_direct found count (call c s))
        (λ q. Sound q.1)
directed-Sound true c found count s short h = record-call-Sound c s h
directed-Sound false c found count s short h =
    scan_direct-Sound found count (call c s) short (record-call-Sound c s h)

direction_store-Sound :
    (scan_word : List ℕ → Option (List ℕ)) (a : Answers) (buf : List ℕ) (s : State)
    → ScansWithin scan_word
    → length buf ≤ page_size
    → Sound s
    → Returns (direction_store scan_word a buf (length buf) s) (λ q. Sound q.1)
unfolding direction_store
direction_store-Sound scan_word a buf s within small h =
    let c = (length buf + 2 ^ 32 - 1) % 2 ^ 32 in
    elim (Bool-cases (c == 2)) [
      | inl two ↦ rw two (
          directed-Sound a.direction_failed _ (scan_word buf) (length buf) s
            (λ word e. ground (arith, within buf word e)) h)
      | inr other ↦ rw other (elim (Bool-cases (c == 3)) [
        | inl three ↦ rw three (
            directed-Sound a.direction_failed _ (scan_word buf) (length buf) s
              (λ word e. ground (arith, within buf word e)) h)
        | inr none_of ↦ rw none_of h
      ])
    ]

abbrev pub text_of : Request → List ℕ
text_of (Request.write_export buf) = buf
text_of (Request.write_unexport buf) = buf
text_of (Request.write_direction buf) = buf
text_of (Request.write_value buf) = buf

serve-Sound :
    (scan_int : List ℕ → Option ℤ) (scan_word : List ℕ → Option (List ℕ)) (a : Answers)
    (r : Request) (s : State)
    → ScansWithin scan_word
    → length (text_of r) ≤ page_size
    → Sound s
    → Returns (serve scan_int scan_word a r s) (λ q. Sound q.1)
unfolding serve unexport_store value_store
serve-Sound scan_int scan_word a (Request.write_export buf) s within small h =
    export_store-Sound scan_int a buf (length buf) s h
serve-Sound scan_int scan_word a (Request.write_unexport buf) s within small h =
    record-call-Sound _ (call _ s) (record-call-Sound _ s h)
serve-Sound scan_int scan_word a (Request.write_direction buf) s within small h =
    direction_store-Sound scan_word a buf s within small h
serve-Sound scan_int scan_word a (Request.write_value buf) s within small h =
    level-Sound (scan_int buf) (length buf) s h

abbrev pub InPage : List (Answers × Request) → Type 0
InPage [] = Unit
InPage ((_, r) ∷ rest) = (length (text_of r) ≤ page_size) × InPage rest

-- Whatever is written to the files, page by page, and whatever the kernel answers: no buffer is
-- overrun, the stored value stays 0 or 1, and the pin stays one of those that may be exported.
pub serve_all-Sound :
    (scan_int : List ℕ → Option ℤ) (scan_word : List ℕ → Option (List ℕ))
    (requests : List (Answers × Request)) (s : State)
    → ScansWithin scan_word
    → InPage requests
    → Sound s
    → Returns (serve_all scan_int scan_word requests s) Sound
unfolding serve_all
serve_all-Sound scan_int scan_word [] s within small h = h
serve_all-Sound scan_int scan_word ((a, r) ∷ rest) s within (small, others) h =
    Returns-and_then Sound (serve scan_int scan_word a r s) _
      (serve-Sound scan_int scan_word a r s within small h)
      λ q k. serve_all-Sound scan_int scan_word rest q.1 within others k
