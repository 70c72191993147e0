-- ===== src/SharedMemory/Posix.antt =====
-- Posix-shared-memory/writter.c, file-mapping/writter.c and file-mapping/reader.c of
-- Linux-Programing-N-System/9-shared-memory. The writers map the object privately, so their text stays
-- with them.
use linux_programing_n_syste.Common.{
  ℕ, ◌≤◌, ◌≡◌, ◌≢◌, refl, ap, ◌∙◌, arith, Bool, true, false, if◌then◌else◌, Option, none, some,
  List, [], ◌∷◌, ◌++◌, length, take, drop, replicate, length-take, length-append, take-all,
  take-append,
}
use linux_programing_n_syste.Common.Int.{is_negative, minus_one, success}
use linux_programing_n_syste.Common.CString.{c_string, c_string-append, NoNul}
use mathlib.Core.List.{append_assoc, append-nil}
use linux_programing_n_syste.SharedMemory.{
  Objects, Documented, Working, Ends, exits, accessed, or_empty,
}

abbrev pub shared_mem_size : ℕ
shared_mem_size = 100

abbrev pub hello_phonglt9 : List ℕ
hello_phonglt9 =
    b'h' ∷ b'e' ∷ b'l' ∷ b'l' ∷ b'o' ∷ b' ' ∷ b'p' ∷ b'h' ∷ b'o' ∷ b'n' ∷ b'g' ∷ b'l' ∷ b't' ∷ b'9'
    ∷ b'!' ∷ []

abbrev pub mmap_hello_world : List ℕ
mmap_hello_world =
    b'M' ∷ b'M' ∷ b'A' ∷ b'P' ∷ b' ' ∷ b'H' ∷ b'e' ∷ b'l' ∷ b'l' ∷ b'o' ∷ b' ' ∷ b'w' ∷ b'o' ∷ b'r'
    ∷ b'l' ∷ b'd' ∷ b' ' ∷ b'!' ∷ []

module _ (k : Objects) where
  -- `strcpy` into a mapping.
  abbrev pub strcpy : k.Mapping → List ℕ → k.State → k.State
  strcpy memory text s = k.store memory (text ++ (0 ∷ [])) s

  -- Posix-shared-memory/writter.c.
  unfoldable pub writter : k.State → Ends k.State
  writter s =
      let (shm_fd, s1) = k.shm_open true s in
      let s2 = k.ftruncate shared_mem_size s1 in
      let (mapping, s3) = k.mmap false shared_mem_size s2 in
      if is_negative shm_fd
      then exits minus_one [] s1
      else accessed mapping s3 λ memory.
        let s4 = strcpy memory hello_phonglt9 s3 in
        exits success (c_string (k.seen memory s4) ∷ []) s4

  -- file-mapping/writter.c, with a second mapping, a shared one.
  unfoldable pub file_writter : k.State → Ends k.State
  file_writter s =
      let (shm_fd, s1) = k.shm_open true s in
      let s2 = k.ftruncate shared_mem_size s1 in
      let (mapping, s3) = k.mmap false shared_mem_size s2 in
      if is_negative shm_fd
      then exits minus_one [] s1
      else accessed mapping s3 λ memory.
        let s4 = strcpy memory mmap_hello_world s3 in
        let (mapping1, s5) = k.mmap true shared_mem_size s4 in
        accessed mapping1 s5 λ memory1.
          exits success (c_string (k.seen memory s4) ∷ (c_string (k.seen memory1 s5) ∷ [])) s5

  -- file-mapping/reader.c.
  unfoldable pub reader : k.State → Ends k.State
  reader s =
      let (fd, s1) = k.shm_open false s in
      let s2 = k.ftruncate shared_mem_size s1 in
      let (mapping, s3) = k.mmap true shared_mem_size s2 in
      if is_negative fd
      then exits minus_one [] s1
      else accessed mapping s3
          λ memory. exits success (c_string (k.seen memory s3) ∷ []) (k.shm_unlink s3)

-- An object of 100 bytes: what it held, cut or filled with zeros.
abbrev pub sized : List ℕ → List ℕ
sized bytes = take shared_mem_size (bytes ++ replicate shared_mem_size 0)

length-sized : (bytes : List ℕ) → length (sized bytes) ≡ shared_mem_size
length-sized bytes = omega (
  arith,
  length-take {0} shared_mem_size (bytes ++ replicate shared_mem_size 0),
  length-append {0} bytes (replicate shared_mem_size 0),
)

sized_again : (bytes : List ℕ) → sized (sized bytes) ≡ sized bytes
sized_again bytes =
    let same = length-sized bytes in
    take-append shared_mem_size (sized bytes) (replicate shared_mem_size 0) (omega (arith, same))
    ∙ take-all shared_mem_size (sized bytes) (omega (arith, same))

some_mapping : {B : Type 0} (answer : Option B) → answer ≢ none → (m : B) × (answer ≡ some m)
some_mapping none h = absurd (h refl)
some_mapping (some m) h = (m, refl)

module _ (k : Objects) (documented : Documented k) (working : Working k) where
  -- A mapping of an object that `ftruncate` has given its size.
  mapping :
      (shared : Bool) (s : k.State) (bytes : List ℕ)
      → k.content s ≡ some (sized bytes)
      → (m : k.Mapping) × ((k.mmap shared shared_mem_size s).0 ≡ some m)
        × (k.is_shared m ≡ shared)
        × (k.seen m (k.mmap shared shared_mem_size s).1 ≡ sized bytes)
        × (k.content (k.mmap shared shared_mem_size s).1 ≡ some (sized bytes))
  mapping shared s bytes e =
      let (m, maps) =
        some_mapping (k.mmap shared shared_mem_size s).0 (working.maps shared shared_mem_size s) in
      let (flag, shows, keeps) = documented.mapped shared shared_mem_size s m maps in
      (
        m,
        maps,
        flag,
        shows
            ∙ ap (λ c. take shared_mem_size (or_empty c)) e
            ∙ take-all shared_mem_size (sized bytes) (omega (arith, length-sized bytes)),
        keeps ∙ e,
      )

  -- The object as a writer has opened and sized it.
  opened : k.State → k.State
  opened s = k.ftruncate shared_mem_size (k.shm_open true s).1

  content-opened : (s : k.State) → k.content (opened s) ≡ some (sized (or_empty (k.content s)))
  unfolding opened
  content-opened s =
      documented.resized shared_mem_size _ _ (documented.open_creates s (working.creates s))

  fits_mapping : (n : ℕ) (seen bytes : List ℕ) → seen ≡ sized bytes → n ≤ 100 → n ≤ length seen
  fits_mapping n seen bytes e few = omega (arith, ap length e, length-sized bytes)

  -- What is read through a mapping behind a text that was copied to it.
  seen-strcpy :
      (memory : k.Mapping) (text held : List ℕ) (s : k.State)
      → NoNul text
      → length (text ++ (0 ∷ [])) ≤ length (k.seen memory s)
      → k.seen memory s ≡ held
      → c_string (k.seen memory (strcpy k memory text s)) ≡ text
  seen-strcpy memory text held s plain fits e =
      ap c_string (documented.store_seen memory (text ++ (0 ∷ [])) s fits)
      ∙ ap c_string
          (append_assoc text (0 ∷ []) (drop (length (text ++ (0 ∷ []))) (k.seen memory s)))
      ∙ c_string-append text _ plain
      ∙ append-nil text

  writter_lem :
      (s : k.State)
      → (t : k.State) × (writter k s ≡ exits success (hello_phonglt9 ∷ []) t)
        × (k.content t ≡ some (sized (or_empty (k.content s))))
  unfolding writter opened
  writter_lem s =
      let (memory, maps, flag, shows, keeps) =
        mapping false (opened s) (or_empty (k.content s)) (content-opened s) in
      let s3 = (k.mmap false shared_mem_size (opened s)).1 in
      let text = hello_phonglt9 ++ (0 ∷ []) in
      let fits : length text ≤ length (k.seen memory s3) =
        fits_mapping 16 _ _ shows (omega arith) in
      (
        k.store memory text s3,
        rw (working.creates s)
            (rw maps (rw (seen-strcpy memory hello_phonglt9 _ s3 (omega arith) fits shows) refl)),
        documented.store_private memory text s3 fits flag ∙ keeps,
      )

  file_writter_lem :
      (s : k.State)
      → (t : k.State) × (file_writter k s
          ≡ exits success (mmap_hello_world ∷ (c_string (sized (or_empty (k.content s))) ∷ [])) t)
        × (k.content t ≡ some (sized (or_empty (k.content s))))
  unfolding file_writter opened
  file_writter_lem s =
      let held = or_empty (k.content s) in
      let (memory, maps, flag, shows, keeps) = mapping false (opened s) held (content-opened s) in
      let s3 = (k.mmap false shared_mem_size (opened s)).1 in
      let text = mmap_hello_world ++ (0 ∷ []) in
      let fits : length text ≤ length (k.seen memory s3) =
        fits_mapping 19 _ _ shows (omega arith) in
      let s4 = k.store memory text s3 in
      let (memory1, maps1, flag1, shows1, keeps1) =
        mapping true s4 held (documented.store_private memory text s3 fits flag ∙ keeps) in
      (
        (k.mmap true shared_mem_size s4).1,
        rw (working.creates s) (
            rw maps (
              rw maps1 (
                rw (seen-strcpy memory mmap_hello_world _ s3 (omega arith) fits shows)
                  (rw shows1 refl)))),
        keeps1,
      )

  reader_lem :
      (s : k.State) (bytes : List ℕ)
      → k.content s ≡ some (sized bytes)
      → (t : k.State) × (reader k s ≡ exits success (c_string (sized bytes) ∷ []) t)
        × (k.content t ≡ none)
  unfolding reader
  reader_lem s bytes e =
      let opens = working.opens s (λ missing. cc) in
      let s2 = k.ftruncate shared_mem_size (k.shm_open false s).1 in
      let content : k.content s2 ≡ some (sized bytes) =
        documented.resized shared_mem_size _ _ (documented.open_keeps s opens ∙ e)
        ∙ ap some (sized_again bytes) in
      let (memory, maps, flag, shows, keeps) = mapping true s2 bytes content in
      let s3 = (k.mmap true shared_mem_size s2).1 in
      (k.shm_unlink s3, rw opens (rw maps (rw shows refl)), documented.unlinked s3)

  -- Where no call fails, the writer of file-mapping prints its text and then, from a shared mapping,
  -- what the object held before, and the reader after it prints that too and removes the object: the
  -- text does not come to the object. Nor does the text of the other writer, which leaves the object with
  -- what it held, in 100 bytes.
  pub text_stays_private :
      (s : k.State)
      → (t u v : k.State) × (file_writter k s
          ≡ exits success (mmap_hello_world ∷ (c_string (sized (or_empty (k.content s))) ∷ [])) t)
        × (reader k t ≡ exits success (c_string (sized (or_empty (k.content s))) ∷ []) u)
        × (k.content u ≡ none)
        × (writter k s ≡ exits success (hello_phonglt9 ∷ []) v)
        × (k.content v ≡ some (sized (or_empty (k.content s))))
  text_stays_private s =
      let (t, writes, leaves) = file_writter_lem s in
      let (u, reads, gone) = reader_lem t (or_empty (k.content s)) leaves in
      let (v, writes', leaves') = writter_lem s in (t, u, v, writes, reads, gone, writes', leaves')

-- Where `shm_open` fails, a writer prints no text of the memory, ends with -1 and leaves the object as
-- it was; and so does the reader where there is no object.
pub failed_open_ends :
    (k : Objects) (documented : Documented k) (s r : k.State)
    → is_negative (k.shm_open true s).0 ≡ true
    → k.content r ≡ none
    → (t u : k.State) × (writter k s ≡ exits minus_one [] t)
      × (file_writter k s ≡ exits minus_one [] t)
      × (k.content t ≡ k.content s)
      × (reader k r ≡ exits minus_one [] u)
      × (k.content u ≡ none)
unfolding writter file_writter reader
failed_open_ends k documented s r failed missing =
    let unopened = documented.open_missing r missing in
    (
      (k.shm_open true s).1,
      (k.shm_open false r).1,
      rw failed refl,
      rw failed refl,
      documented.open_failed true s failed,
      rw unopened refl,
      documented.open_failed false r unopened ∙ missing,
    )
