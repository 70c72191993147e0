-- ===== src/Students/Storage.antt =====
-- A student's fields through the file of 5.2-Thread-management: what is entered is what is read back.
use linux_programing_n_syste.Common.{ℕ, ◌≡◌, ◌∙◌, List, [], ◌∷◌, ◌++◌, length, drop}
use linux_programing_n_syste.Common.{take-exact, drop-exact}
use mathlib.Core.List.{append_assoc}
use linux_programing_n_syste.Common.CString.{c_string}
use linux_programing_n_syste.Kernel.{
  Outcome, done, buffer_overrun, Returns, Returns-and_then, and_then,
}
use linux_programing_n_syste.Students.{
  Human, max_buf, field_size, scan_field, enter_human, Open, open_file, print_line, write_field,
  store_human, read_field, load_human,
}
use linux_programing_n_syste.Students.Records.{Fits, line, IsRecord, scanned, field-Written}

-- A file whose first three records hold the three words.
record Holds (n b c : List ℕ) (file : List ℕ) : Type 0 where
  first : List ℕ
  second : List ℕ
  third : List ℕ
  rest : List ℕ
  first_record : IsRecord n first
  second_record : IsRecord b second
  third_record : IsRecord c third
  layout : file ≡ ((first ++ second) ++ third) ++ rest

human_stored :
    (n b c : List ℕ) (h : Human) (buf file : List ℕ)
    → Fits n
    → Fits b
    → Fits c
    → c_string h.name ≡ n
    → c_string h.birthyear ≡ b
    → c_string h.country ≡ c
    → length buf ≡ field_size
    → Returns (store_human h buf file) (λ r. (length r.0 ≡ field_size) × Holds n b c r.1)
unfolding store_human
human_stored n b c h buf file fn fb fc en eb ec l =
    Returns-and_then _ (write_field h.name (buf, open_file file)) _
      (field-Written n h.name buf (open_file file) fn en l)
      λ s1 w1.
        Returns-and_then _ (write_field h.birthyear s1) _
          (field-Written b h.birthyear s1.0 s1.1 fb eb w1.1)
          λ s2 w2.
            Returns-and_then _ (write_field h.country s2) _
              (field-Written c h.country s2.0 s2.1 fc ec w2.1)
              λ s3 w3. (
                w3.1,
                record {
                  first = w1.0;
                  second = w2.0;
                  third = w3.0;
                  rest = s3.1.behind;
                  first_record = w1.2;
                  second_record = w2.2;
                  third_record = w3.2;
                  layout = cc (w1.3, w2.3, w3.3);
                },
              )

read_back :
    (word bytes field more : List ℕ) (f : Open)
    → IsRecord word bytes
    → f.behind ≡ bytes ++ more
    → (c_string (read_field field f).0 ≡ line word) × ((read_field field f).1.behind ≡ more)
unfolding read_field
read_back word bytes field more f h e = (
  rw (e, take-exact max_buf bytes more h.size)
      (rw (append_assoc bytes (0 ∷ []) (drop (length (bytes ++ (0 ∷ []))) field)) (h.text _)),
  rw (e, drop-exact max_buf bytes more h.size),
)

human_loaded :
    (n b c : List ℕ) (h : Human) (file : List ℕ)
    → Holds n b c file
    → let h' = load_human h file in
      (c_string h'.name ≡ line n)
      × (c_string h'.birthyear ≡ line b)
      × (c_string h'.country ≡ line c)
unfolding load_human
human_loaded n b c h file k =
    let f1 = (read_field h.name (open_file file)).1 in
    let f2 = (read_field h.birthyear f1).1 in
    let e1 =
      read_back n k.first h.name (k.second ++ (k.third ++ k.rest)) (open_file file) k.first_record (
        k.layout
        ∙ (append_assoc (k.first ++ k.second) k.third k.rest
            ∙ append_assoc k.first k.second (k.third ++ k.rest))) in
    let e2 = read_back b k.second h.birthyear (k.third ++ k.rest) f1 k.second_record e1.1 in
    let e3 = read_back c k.third h.country k.rest f2 k.third_record e2.1 in (e1.0, e2.0, e3.0)

-- The fields of the global `human` and the local buffer of a thread have their declared sizes.
pub record Sized (h : Human) (buf : List ℕ) : Type 0 where
  pub name : length h.name ≡ field_size
  pub birthyear : length h.birthyear ≡ field_size
  pub country : length h.country ≡ field_size
  pub buffer : length buf ≡ field_size

record Entered (n b c : List ℕ) (h : Human) : Type 0 where
  name : c_string h.name ≡ n
  birthyear : c_string h.birthyear ≡ b
  country : c_string h.country ≡ c

human-Entered :
    (n b c : List ℕ) (h : Human) (buf : List ℕ)
    → Fits n
    → Fits b
    → Fits c
    → Sized h buf
    → Returns (enter_human n b c h) (Entered n b c)
unfolding enter_human
human-Entered n b c h buf fn fb fc z =
    Returns-and_then _ (scan_field n h.name) _ (scanned n h.name fn z.name) λ n' en.
      Returns-and_then _ (scan_field b h.birthyear) _ (scanned b h.birthyear fb z.birthyear)
        λ b' eb.
          Returns-and_then _ (scan_field c h.country) _ (scanned c h.country fc z.country)
            λ c' ec. record { name = en.1; birthyear = eb.1; country = ec.1 }

-- One round of the three threads: what is entered is stored, and what is stored is loaded.
abbrev pub one_round : (n b c : List ℕ) (h : Human) (buf file : List ℕ) → Outcome Human
one_round n b c h buf file =
    and_then (enter_human n b c h)
      λ h1. and_then (store_human h1 buf file) λ r. done (load_human h1 r.1)

-- Three words of at most 29 characters, entered, written over any file and read back, are printed as
-- they were entered, each with a newline; whatever the buffers held before, nothing is written past
-- the end of one.
pub one_round-lines :
    (n b c : List ℕ) (h : Human) (buf file : List ℕ)
    → Fits n
    → Fits b
    → Fits c
    → Sized h buf
    → Returns (one_round n b c h buf file) (λ h'.
      (c_string h'.name ≡ line n)
      × (c_string h'.birthyear ≡ line b)
      × (c_string h'.country ≡ line c))
one_round-lines n b c h buf file fn fb fc z =
    Returns-and_then _ (enter_human n b c h) _ (human-Entered n b c h buf fn fb fc z) λ h1 e.
      Returns-and_then _ (store_human h1 buf file) _
        (human_stored n b c h1 buf file fn fb fc e.name e.birthyear e.country z.buffer)
        λ r k. human_loaded n b c h1 r.1 k.1

-- A word of 30 characters fits its field, and then overruns the buffer in which its line is made.
pub thirty_characters_overrun :
    (word : List ℕ) (h : Human) (buf file : List ℕ)
    → c_string h.name ≡ word
    → length word ≡ 30
    → store_human h buf file ≡ buffer_overrun
unfolding store_human write_field print_line
thirty_characters_overrun word h buf file e l = rw e (rw l)
