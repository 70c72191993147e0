-- ===== src/SharedMemory/Examples.antt =====
-- Concrete runs of 9-shared-memory, over one object, or segment, that is there or not.
use linux_programing_n_syste.Common.{
  ℕ, ◌≡◌, ◌≢◌, refl, ap, arith, Bool, true, false, Option, none, some, List, [], ◌∷◌, ◌++◌, take,
  replicate, overlay,
}
use linux_programing_n_syste.Common.Int.{ℤ, pos, is_negative, minus_one, success}
use linux_programing_n_syste.Common.CString.{c_string}
use linux_programing_n_syste.Common.Typed.{Plain, with_newline}
use linux_programing_n_syste.SharedMemory.{Objects, Documented, Working, or_empty, exits}
use linux_programing_n_syste.SharedMemory.Posix.{
  writter, file_writter, reader, text_stays_private, mmap_hello_world, hello_phonglt9, sized,
}
use linux_programing_n_syste.SharedMemory.SystemV
use linux_programing_n_syste.SharedMemory.SystemV.{Segments, bytes_of, writter-reader}

-- The object, which is there or not, and the memory of the mappings.
abbrev Object : Type 0
Object = Option (List ℕ)

record Memory : Type 0 where
  object : Object
  memory : List ℕ

abbrev resized_content : ℕ → Object → Object
resized_content n none = none
resized_content n (some bytes) = some (take n (bytes ++ replicate n 0))

abbrev opened : Bool → Object → ℤ × Object
opened true s = (pos 3, some (or_empty s))
opened false none = (minus_one, none)
opened false (some bytes) = (pos 3, some bytes)

abbrev stored : Bool → List ℕ → Object → Object
stored true bytes (some held) = some (overlay bytes held)
stored _ bytes s = s

abbrev one_object : Objects
one_object = record {
  State = Memory;
  Mapping = Bool;
  content = λ s. s.object;
  is_shared = λ m. m;
  seen = λ m s. s.memory;
  shm_open =
      λ create s. ((opened create s.object).0, record s { object = (opened create s.object).1 });
  ftruncate = λ n s. record s { object = resized_content n s.object };
  mmap = λ shared n s. (some shared, record s { memory = take n (or_empty s.object) });
  store =
      λ m bytes s. record s { object = stored m bytes s.object; memory = overlay bytes s.memory };
  shm_unlink = λ s. record s { object = none };
}

opened-keeps : (s : Object) → is_negative (opened false s).0 ≡ false → (opened false s).1 ≡ s
opened-keeps none e = refl
opened-keeps (some bytes) e = refl

opened-missing : (s : Object) → s ≡ none → is_negative (opened false s).0 ≡ true
opened-missing none e = refl
opened-missing (some bytes) e = absurd (cc)

opened-failed :
    (create : Bool) (s : Object) → is_negative (opened create s).0 ≡ true → (opened create s).1 ≡ s
opened-failed true s e = absurd (cc)
opened-failed false none e = refl
opened-failed false (some bytes) e = refl

stored-shared :
    (m : Bool) (bytes held : List ℕ) (s : Object)
    → m ≡ true
    → s ≡ some held
    → stored m bytes s ≡ some (overlay bytes held)
stored-shared true bytes held s m e = ap (stored true bytes) e
stored-shared false bytes held s m e = absurd (cc)

stored-private : (m : Bool) (bytes : List ℕ) (s : Object) → m ≡ false → stored m bytes s ≡ s
stored-private true bytes s m = absurd (cc)
stored-private false bytes s m = refl

one_object-Documented : Documented one_object
one_object-Documented = record {
  open_creates = λ s e. refl;
  open_keeps = λ s. opened-keeps s.object;
  open_missing = λ s. opened-missing s.object;
  open_failed = λ create s. opened-failed create s.object;
  resized = λ n s bytes e. ap (resized_content n) e;
  mapped = λ shared n s m e. (cc, refl, refl);
  store_seen = λ m bytes s fits. refl;
  store_shared = λ m bytes held s fits. stored-shared m bytes held s.object;
  store_private = λ m bytes s fits. stored-private m bytes s.object;
  unlinked = λ s. refl;
}

opens_found : (s : Object) → s ≢ none → is_negative (opened false s).0 ≡ false
opens_found none h = absurd (h refl)
opens_found (some bytes) h = refl

one_object-Working : Working one_object
one_object-Working = record {
  creates = λ s. refl;
  opens = λ s. opens_found s.object;
  maps = λ shared n s e. cc;
}

abbrev old_bytes : List ℕ
old_bytes = b'o' ∷ b'l' ∷ b'd' ∷ []

abbrev old : Memory
old = record { object = some old_bytes; memory = [] }

text_stays_private_example :
    (t u v : Memory) × (file_writter one_object old
      ≡ exits success (mmap_hello_world ∷ (c_string (sized old_bytes) ∷ [])) t)
    × (reader one_object t ≡ exits success (c_string (sized old_bytes) ∷ []) u)
    × (u.object ≡ none)
    × (writter one_object old ≡ exits success (hello_phonglt9 ∷ []) v)
    × (v.object ≡ some (sized old_bytes))
text_stays_private_example =
    text_stays_private one_object one_object-Documented one_object-Working old

abbrev one_segment : Segments
one_segment = record {
  State = Option (List ℕ);
  content = λ s. s;
  shmget = λ size s. (pos 5, some (bytes_of s));
  shmat = λ id s. some (bytes_of s);
  store = λ bytes s. some bytes;
  remove = λ s. none;
}

one_segment-Working : SystemV.Working one_segment
one_segment-Working = record {
  gets = λ s. refl;
  attaches = λ s. refl;
  stores = λ bytes s. refl;
  removes = λ s. refl;
}

abbrev hi : List ℕ
hi = b'h' ∷ b'i' ∷ []

hi-Plain : Plain hi
hi-Plain = (omega arith, λ e. omega arith, (omega arith, λ e. omega arith, tt))

writter-reader_example :
    (t u v : Option (List ℕ)) × (SystemV.writter one_segment (with_newline hi ++ []) none
      ≡ exits success [] t)
    × (SystemV.reader one_segment t ≡ exits success (with_newline hi ∷ []) u)
    × (u ≡ none)
    × (SystemV.reader one_segment none ≡ exits success ([] ∷ []) v)
    × (v ≡ none)
writter-reader_example =
    writter-reader one_segment one_segment-Working hi [] none none hi-Plain (omega arith) refl
