-- ===== src/HumanThread/Printing.antt =====
-- What `main` of 5.1-Thread has prepared, and how far a thread has come with its lines.
use linux_programing_n_syste.Common.{
  ◌≡◌, ◌≢◌, ◌⊎◌, inl, inr, refl, sym, ap, subst, List, [], ◌∷◌, ◌++◌,
}
use linux_programing_n_syste.HumanThread.{
  Human, Line, this_is_thread_1, this_is_thread_2, ho_va_ten, sdt, nam_sinh, quoc_tich,
  tran_the_hung, phone_number, viet_nam, human1, MainPc, before_first, in_first, sleeping,
  before_second, in_second, returning, exiting, ended, reads, ThreadPc, absent, begun, faulted,
  prints,
}
use linux_programing_n_syste.Kernel.{done}
use mathlib.Core.List.{append_assoc}

abbrev pub first_lines : List Line
first_lines = this_is_thread_1 ∷ []

abbrev pub second_lines : List Line
second_lines =
    this_is_thread_2
    ∷ ho_va_ten tran_the_hung
    ∷ sdt phone_number
    ∷ nam_sinh 1998
    ∷ quoc_tich viet_nam
    ∷ []

-- What `main` has done: no thread begins before it is created, and the record is filled first.
abbrev pub Prepared : MainPc → Human → ThreadPc → ThreadPc → Type 0
Prepared before_first h one two = (one ≡ absent) × (two ≡ absent)
Prepared in_first h one two = two ≡ absent
Prepared sleeping h one two = two ≡ absent
Prepared before_second h one two = (h ≡ human1) × (two ≡ absent)
Prepared in_second h one two = h ≡ human1
Prepared returning h one two = h ≡ human1
Prepared exiting h one two = Unit
Prepared ended h one two = Unit

-- `main` has returned, or the process has ended otherwise.
abbrev pub Returned : MainPc → Type 0
Returned before_first = ⊥
Returned in_first = ⊥
Returned sleeping = ⊥
Returned before_second = ⊥
Returned in_second = ⊥
Returned returning = ⊥
Returned exiting = Unit
Returned ended = Unit

-- What is so until `main` returns, where it stands before that.
pub until_return : {P : Type 0} (m m' : MainPc) → ¬ Returned m' → m ≡ m' → Returned m ⊎ P → P
until_return m m' lives e (inl gone) = absurd (lives (subst Returned e gone))
until_return m m' lives e (inr p) = p

-- A second thread that has begun has the record filled, until `main` returns.
pub Prepared-filled :
    (m : MainPc) (h : Human) (one two : ThreadPc)
    → two ≢ absent
    → Prepared m h one two
    → Returned m ⊎ (h ≡ human1)
Prepared-filled before_first h one two begins p = absurd (begins p.1)
Prepared-filled in_first h one two begins p = absurd (begins p)
Prepared-filled sleeping h one two begins p = absurd (begins p)
Prepared-filled before_second h one two begins p = inr p.0
Prepared-filled in_second h one two begins p = inr p
Prepared-filled returning h one two begins p = inr p
Prepared-filled exiting h one two begins p = inl tt
Prepared-filled ended h one two begins p = inl tt

-- Lines that are read from the filled record as they stand.
abbrev pub AllKept : List Line → Type 0
AllKept [] = Unit
AllKept (l ∷ ls) = (reads human1 l ≡ done l) × AllKept ls

pub AllKept-lines : AllKept second_lines
unfolding reads
AllKept-lines = (refl, (refl, (refl, (refl, (refl, tt)))))

pub AllKept-middle :
    (out : List Line) (l : Line) (ls : List Line)
    → AllKept (out ++ (l ∷ ls))
    → reads human1 l ≡ done l
AllKept-middle [] l ls h = h.0
AllKept-middle (o ∷ out) l ls h = AllKept-middle out l ls h.1

-- A thread that has begun goes on.
pub Prepared-first :
    (m : MainPc) (h : Human) (one two one' : ThreadPc)
    → one ≢ absent
    → Prepared m h one two
    → Prepared m h one' two
Prepared-first before_first h one two one' begins p = absurd (begins p.0)
Prepared-first in_first h one two one' begins p = p
Prepared-first sleeping h one two one' begins p = p
Prepared-first before_second h one two one' begins p = p
Prepared-first in_second h one two one' begins p = p
Prepared-first returning h one two one' begins p = p
Prepared-first exiting h one two one' begins p = p
Prepared-first ended h one two one' begins p = p

pub Prepared-second :
    (m : MainPc) (h : Human) (one two two' : ThreadPc)
    → two ≢ absent
    → Prepared m h one two
    → Prepared m h one two'
Prepared-second before_first h one two two' begins p = absurd (begins p.1)
Prepared-second in_first h one two two' begins p = absurd (begins p)
Prepared-second sleeping h one two two' begins p = absurd (begins p)
Prepared-second before_second h one two two' begins p = absurd (begins p.1)
Prepared-second in_second h one two two' begins p = p
Prepared-second returning h one two two' begins p = p
Prepared-second exiting h one two two' begins p = p
Prepared-second ended h one two two' begins p = p

-- A thread that prints has the record as `ready` says; all its lines, or none, are those that it has
-- printed and those that are left.
abbrev pub Prints : List Line → Type 0 → ThreadPc → List Line → Type 0
Prints all ready absent out = out ≡ []
Prints all ready begun out = (out ≡ []) × ready
Prints all ready faulted out = ⊥
Prints all ready (prints ls) out = (out ++ ls ≡ []) ⊎ (out ++ ls ≡ all)

module _ (all : List Line) (ready : Type 0) where
  pub Prints-absent :
      (pc : ThreadPc) (out : List Line) → pc ≡ absent → Prints all ready pc out → out ≡ []
  Prints-absent absent out e p = p
  Prints-absent begun out e p = p.0
  Prints-absent faulted out e p = absurd p
  Prints-absent (prints ls) out e p = absurd (cc)

  pub Prints-begun :
      (pc : ThreadPc) (out : List Line) → pc ≡ begun → Prints all ready pc out → (out ≡ []) × ready
  Prints-begun absent out e p = absurd (cc)
  Prints-begun begun out e p = p
  Prints-begun faulted out e p = absurd p
  Prints-begun (prints ls) out e p = absurd (cc)

  -- Another line is printed.
  pub Prints-prints :
      (pc : ThreadPc) (l : Line) (ls out : List Line)
      → pc ≡ prints (l ∷ ls)
      → Prints all ready pc out
      → Prints all ready (prints ls) (out ++ (l ∷ []))
  Prints-prints absent l ls out e p = absurd (cc)
  Prints-prints begun l ls out e p = absurd (cc)
  Prints-prints faulted l ls out e p = absurd p
  Prints-prints (prints ms) l ls out e p =
      let same : ms ≡ l ∷ ls = cc in
      rw (append_assoc out (l ∷ []) ls) (subst (λ ns. (out ++ ns ≡ []) ⊎ (out ++ ns ≡ all)) same p)

  -- The line that is next is one of all.
  pub Prints-kept :
      (pc : ThreadPc) (l : Line) (ls out : List Line)
      → AllKept all
      → pc ≡ prints (l ∷ ls)
      → Prints all ready pc out
      → reads human1 l ≡ done l
  Prints-kept absent l ls out k e p = absurd (cc)
  Prints-kept begun l ls out k e p = absurd (cc)
  Prints-kept faulted l ls out k e p = absurd p
  Prints-kept (prints ms) l ls out k e p =
      let same : ms ≡ l ∷ ls = cc in
      kept out (subst (λ ns. (out ++ ns ≡ []) ⊎ (out ++ ns ≡ all)) same p)
    where
      kept :
          (out : List Line)
          → (out ++ (l ∷ ls) ≡ []) ⊎ (out ++ (l ∷ ls) ≡ all)
          → reads human1 l ≡ done l
      kept [] (inl e) = absurd (cc)
      kept (o ∷ out) (inl e) = absurd (cc)
      kept out (inr e) = AllKept-middle out l ls (subst AllKept (sym e) k)

  pub Prints-ready :
      (now : Type 0) (pc : ThreadPc) (out : List Line)
      → now
      → Prints all ready pc out
      → Prints all now pc out
  Prints-ready now absent out r p = p
  Prints-ready now begun out r p = (p.0, r)
  Prints-ready now faulted out r p = p
  Prints-ready now (prints ls) out r p = p

  pub Prints-faultless : (pc : ThreadPc) (out : List Line) → Prints all ready pc out → pc ≢ faulted
  Prints-faultless absent out p e = cc
  Prints-faultless begun out p e = cc
  Prints-faultless faulted out p e = p
  Prints-faultless (prints ls) out p e = cc

  pub Prints-start :
      (pc : ThreadPc) (out : List Line)
      → Prints all ready pc out
      → (rest : List Line) × (out ++ rest ≡ all)
  Prints-start absent out p = (all, ap (λ o. o ++ all) p)
  Prints-start begun out p = (all, ap (λ o. o ++ all) p.0)
  Prints-start faulted out p = absurd p
  Prints-start (prints ls) [] (inl p) = (all, refl)
  Prints-start (prints ls) (l ∷ out) (inl p) = absurd (cc)
  Prints-start (prints ls) out (inr p) = (ls, p)
