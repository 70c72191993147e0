-- ===== src/Students.antt =====
-- Linux-Programing-N-System/5-Thread/5.2-Thread-management/main.c: three threads that take turns. The
-- first asks for a student's three fields, the second writes them to a file as records of 30 bytes,
-- the third reads them back and prints them. Here: what each thread does while it holds the mutex.
-- `Threads` has the interleavings of the three.
pub mod Records
pub mod Storage
pub mod Threads
pub mod Turns
mod Examples
pub mod Order
use linux_programing_n_syste.Common.{
  ℕ, suc, ◌+◌, Bool, true, false, List, [], ◌∷◌, ◌++◌, if◌then◌else◌, ltb, length, take, drop,
  overlay,
}
use linux_programing_n_syste.Common.CString.{c_string}
use linux_programing_n_syste.Kernel.{Outcome, done, buffer_overrun, and_then}

abbrev pub max_buf : ℕ
max_buf = 30

-- The size of each field and of the local buffer.
abbrev pub field_size : ℕ
field_size = max_buf + 1

-- `human_t`.
pub record Human : Type 0 where
  pub name : List ℕ
  pub birthyear : List ℕ
  pub country : List ℕ

-- `scanf("%s", field)`: the word typed and its NUL.
unfoldable pub scan_field : List ℕ → List ℕ → Outcome (List ℕ)
scan_field word field =
    if ltb field_size (length word + 1)
    then buffer_overrun
    else done (overlay (word ++ (0 ∷ [])) field)

-- The work of thread 1.
unfoldable pub enter_human : List ℕ → List ℕ → List ℕ → Human → Outcome Human
enter_human name birthyear country h = and_then (scan_field name h.name) λ n.
    and_then (scan_field birthyear h.birthyear) λ b.
      and_then (scan_field country h.country)
        λ c. done (record { name = n; birthyear = b; country = c })

-- An open file: the bytes before the offset and those behind it.
pub record Open : Type 0 where
  pub before : List ℕ
  pub behind : List ℕ

abbrev pub contents : Open → List ℕ
contents f = f.before ++ f.behind

-- `open`, with the offset at the start; `lseek(fd, 0, SEEK_SET)` then and `lseek(fd, 0, SEEK_CUR)`
-- later leave it where it is.
abbrev pub open_file : List ℕ → Open
open_file file = record { before = []; behind = file }

abbrev pub write : List ℕ → Open → Open
write bytes f = record { before = f.before ++ bytes; behind = drop (length bytes) f.behind }

-- `sprintf(buf, "%s\n", field)`.
unfoldable pub print_line : List ℕ → List ℕ → Outcome (List ℕ)
print_line field buf =
    if ltb field_size (length (c_string field) + 2)
    then buffer_overrun
    else done (overlay (c_string field ++ (10 ∷ 0 ∷ [])) buf)

-- One field: the line into the buffer, and 30 bytes of the buffer to the file.
unfoldable pub write_field : List ℕ → List ℕ × Open → Outcome (List ℕ × Open)
write_field field (buf, f) =
    and_then (print_line field buf) λ buf'. done (buf', write (take max_buf buf') f)

-- The work of thread 2 on an opened file: its buffer and the file afterwards.
unfoldable pub store_human : Human → List ℕ → List ℕ → Outcome (List ℕ × List ℕ)
store_human h buf file = and_then (write_field h.name (buf, open_file file)) λ s1.
    and_then (write_field h.birthyear s1)
      λ s2. and_then (write_field h.country s2) λ s3. done (s3.0, contents s3.1)

-- `numRead = read(fd, field, MAX_BUF)` and `field[numRead] = '\0'`.
unfoldable pub read_field : List ℕ → Open → List ℕ × Open
read_field field f = (
  overlay (take max_buf f.behind ++ (0 ∷ [])) field,
  record { before = f.before ++ take max_buf f.behind; behind = drop max_buf f.behind },
)

-- The work of thread 3 on an opened file.
unfoldable pub load_human : Human → List ℕ → Human
load_human h file =
    let (name, f1) = read_field h.name (open_file file) in
    let (birthyear, f2) = read_field h.birthyear f1 in
    let (country, f3) = read_field h.country f2 in
    record { name = name; birthyear = birthyear; country = country }
