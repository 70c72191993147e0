-- ===== src/HumanThread.antt =====
-- Linux-Programing-N-System/5-Thread/5.1-Thread/main.c: two threads, of which the second is given a
-- record that `main` has filled. The steps of `main` and of the threads interleave: `pthread_create` may
-- start a thread before it has stored its ID, and `sleep` promises no order.
pub mod Printing
pub mod Compares
pub mod Safety
pub mod Silence
mod Examples
use linux_programing_n_syste.Common.{
  ℕ, ◌-◌, ◌≡◌, ◌≢◌, Bool, true, false, ◌==◌, if◌then◌else◌, Option, none, some, List, [], ◌∷◌, ◌++◌,
  length, drop, replicate,
}
use linux_programing_n_syste.Common.CString.{c_string, has_nul}
use linux_programing_n_syste.Kernel.{Outcome, done, null_access, buffer_overrun}

pub record Human : Type 0 where
  pub name : List ℕ
  pub birthyear : ℕ
  pub phone : List ℕ
  pub country : List ℕ

pub data Line : Type 0 where
  this_is_thread_1 this_is_thread_2 : Line
  ho_va_ten : List ℕ → Line
  sdt : List ℕ → Line
  nam_sinh : ℕ → Line
  quoc_tich : List ℕ → Line

-- What the thread is to print of its argument.
abbrev pub print_human : Option Human → Outcome (List Line)
print_human none = null_access
print_human (some h) = done (
    this_is_thread_2
    ∷ ho_va_ten (c_string h.name)
    ∷ sdt (c_string h.phone)
    ∷ nam_sinh h.birthyear
    ∷ quoc_tich (c_string h.country)
    ∷ [])

-- A line is read from the record when it is printed; a text without NUL is read past its end.
unfoldable pub reads : Human → Line → Outcome Line
reads h this_is_thread_1 = done this_is_thread_1
reads h this_is_thread_2 = done this_is_thread_2
reads h (ho_va_ten _) =
    if has_nul h.name then done (ho_va_ten (c_string h.name)) else buffer_overrun
reads h (sdt _) = if has_nul h.phone then done (sdt (c_string h.phone)) else buffer_overrun
reads h (nam_sinh _) = done (nam_sinh h.birthyear)
reads h (quoc_tich _) =
    if has_nul h.country then done (quoc_tich (c_string h.country)) else buffer_overrun

-- `thread_handle` of the thread with the ID `thread_id`, by the two variables as they stand when it
-- compares: the lines that it is to print.
unfoldable pub thread_handle : ℕ → ℕ → ℕ → Option Human → Outcome (List Line)
thread_handle thread_id thread_id1 thread_id2 arg =
    if thread_id == thread_id1
    then done (this_is_thread_1 ∷ [])
    else if thread_id == thread_id2
    then print_human arg
    else done []

-- `strncpy(field, text, size)` of a text shorter than the field: the rest is filled with NUL.
abbrev pub filled : ℕ → List ℕ → List ℕ
filled size text = text ++ replicate (size - length text) 0

abbrev pub tran_the_hung : List ℕ
tran_the_hung =
    b'T' ∷ b'r' ∷ b'a' ∷ b'n' ∷ b' ' ∷ b'T' ∷ b'h' ∷ b'e' ∷ b' ' ∷ b'H' ∷ b'u' ∷ b'n' ∷ b'g' ∷ []

abbrev pub phone_number : List ℕ
phone_number = b'0' ∷ b'1' ∷ b'2' ∷ b'3' ∷ b'4' ∷ b'5' ∷ b'6' ∷ b'7' ∷ b'8' ∷ []

abbrev pub viet_nam : List ℕ
viet_nam = b'V' ∷ b'i' ∷ b'e' ∷ b't' ∷ b' ' ∷ b'N' ∷ b'a' ∷ b'm' ∷ []

-- `human1` as it is declared, and as `main` fills it.
abbrev pub zeroed : Human
zeroed = record {
  name = replicate 30 0;
  birthyear = 0;
  phone = replicate 10 0;
  country = replicate 10 0;
}

abbrev pub human1 : Human
human1 = record {
  name = filled 30 tran_the_hung;
  birthyear = 1998;
  phone = filled 10 phone_number;
  country = filled 10 viet_nam;
}

-- Where `main` stands: before each call, in it with the thread started and its ID not stored, or behind;
-- or it has returned, and the process is ending or has ended.
pub data MainPc : Type 0 where
  before_first in_first sleeping before_second in_second returning exiting ended : MainPc

pub data ThreadPc : Type 0 where
  absent begun faulted : ThreadPc
  prints : List Line → ThreadPc

-- The two variables, the record, and what each thread has printed, the oldest line first.
pub record State : Type 0 where
  pub main : MainPc
  pub thread_id1 : ℕ
  pub thread_id2 : ℕ
  pub human : Human
  pub first : ThreadPc
  pub second : ThreadPc
  pub printed1 : List Line
  pub printed2 : List Line

abbrev pub handled : Outcome (List Line) → ThreadPc
handled (done ls) = prints ls
handled _ = faulted

-- The second thread prints a line, as it reads it.
abbrev pub prints_line : Outcome Line → List Line → State → State
prints_line (done l) ls s = record s { second = prints ls; printed2 = s.printed2 ++ (l ∷ []) }
prints_line _ ls s = record s { second = faulted }

-- The threads have the IDs `self1` and `self2`. A failed creation of the first thread ends the process,
-- and so does the return of `main`, but until the process has ended the threads run on. The record is a
-- local variable of `main`: once that has returned, it may hold anything.
module _ (self1 self2 : ℕ) where
  pub data Step (s : State) : State → Type 0 where
    first_fails : s.main ≡ before_first → Step s (record s { main = ended })
    first_starts : s.main ≡ before_first → Step s (record s { main = in_first; first = begun })
    first_stored : s.main ≡ in_first → Step s (record s { main = sleeping; thread_id1 = self1 })
    fills : s.main ≡ sleeping → Step s (record s { main = before_second; human = human1 })
    second_fails : s.main ≡ before_second → Step s (record s { main = returning })
    second_starts : s.main ≡ before_second → Step s (record s { main = in_second; second = begun })
    second_stored : s.main ≡ in_second → Step s (record s { main = returning; thread_id2 = self2 })
    returns : s.main ≡ returning → Step s (record s { main = exiting })
    record_lost : (h : Human) → s.main ≡ exiting → Step s (record s { human = h })
    exits : s.main ≡ exiting → Step s (record s { main = ended })
    first_compares :
        s.main ≢ ended
        → s.first ≡ begun
        → Step s (record s { first = handled (thread_handle self1 s.thread_id1 s.thread_id2 none) })
    second_compares :
        s.main ≢ ended
        → s.second ≡ begun
        → Step s (record s {
          second = handled (thread_handle self2 s.thread_id1 s.thread_id2 (some s.human));
        })
    first_prints :
        (l : Line) (ls : List Line)
        → s.main ≢ ended
        → s.first ≡ prints (l ∷ ls)
        → Step s (record s { first = prints ls; printed1 = s.printed1 ++ (l ∷ []) })
    second_prints :
        (l : Line) (ls : List Line)
        → s.main ≢ ended
        → s.second ≡ prints (l ∷ ls)
        → Step s (prints_line (reads s.human l) ls s)

  pub data Reach (s : State) : State → Type 0 where
    here : Reach s s
    later : {t u : State} → Reach s t → Step t u → Reach s u

-- As the process begins.
abbrev pub started : State
started = record {
  main = before_first;
  thread_id1 = 0;
  thread_id2 = 0;
  human = zeroed;
  first = absent;
  second = absent;
  printed1 = [];
  printed2 = [];
}
