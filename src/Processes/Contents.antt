-- ===== src/Processes/Contents.antt =====
-- What 4.2-child-process-management leaves in the file.
use linux_programing_n_syste.Common.{
  ℕ, zero, suc, ◌+◌, ◌≤◌, ◌≡◌, refl, ap, subst, ◌∙◌, arith, List, [], ◌∷◌, ◌++◌, length, take, drop,
  length-append, length-take, length-drop, take-all, Bool, true, false, if◌then◌else◌,
}
use linux_programing_n_syste.Processes.{
  Process, a, b, b2, c, c2, Pc, unborn, forking, waits, seeks, writes, exited, State, Step, fork_b,
  fork_c, fork_b2, fork_c2, reap, seek, write, Run, here, later, started, update, after_wait,
  after_write, write_at, line, same,
}

length-write_at :
    (offset : ℕ) (text file : List ℕ)
    → offset ≤ length file
    → length file ≤ length (write_at offset text file)
length-write_at offset text file h = omega (
  arith,
  length-append {0} (take offset file) (text ++ drop (offset + length text) file),
  length-append {0} text (drop (offset + length text) file),
  length-take {0} offset file,
  length-drop {0} (offset + length text) file,
)

take-write :
    (n offset : ℕ) (file tail : List ℕ)
    → n ≤ offset
    → offset ≤ length file
    → take n (take offset file ++ tail) ≡ take n file
take-write zero offset file tail h h' = refl
take-write (suc n) zero file tail h h' = absurd (omega arith)
take-write (suc n) (suc offset) [] tail h h' = absurd (omega arith)
take-write (suc n) (suc offset) (x ∷ file) tail h h' =
    ap (λ xs. x ∷ xs) (take-write n offset file tail (omega arith) (omega arith))

-- An offset to write at is past the bytes that stood there, and not past the end.
abbrev InRange : ℕ → ℕ → Pc → Type 0
InRange low high (writes offset) = (low ≤ offset) × (offset ≤ high)
InRange low high _ = Unit

InRange-more : (p : Pc) (low high more : ℕ) → high ≤ more → InRange low high p → InRange low more p
InRange-more (writes offset) low high more h (l, u) = (l, omega arith)
InRange-more unborn low high more h r = tt
InRange-more (forking _) low high more h r = tt
InRange-more (waits _) low high more h r = tt
InRange-more seeks low high more h r = tt
InRange-more exited low high more h r = tt

InRange-if :
    (t : Bool) (p q : Pc) (low high : ℕ)
    → InRange low high p
    → InRange low high q
    → InRange low high (if t then p else q)
InRange-if true p q low high h h' = h
InRange-if false p q low high h h' = h'

InRange-after_wait : (i j : Process) (low high : ℕ) → InRange low high (after_wait i j)
InRange-after_wait a a low high = tt
InRange-after_wait a b low high = tt
InRange-after_wait a b2 low high = tt
InRange-after_wait a c low high = tt
InRange-after_wait a c2 low high = tt
InRange-after_wait b j low high = tt
InRange-after_wait b2 j low high = tt
InRange-after_wait c j low high = tt
InRange-after_wait c2 j low high = tt

InRange-after_write : (i : Process) (low high : ℕ) → InRange low high (after_write i)
InRange-after_write a low high = tt
InRange-after_write b low high = tt
InRange-after_write b2 low high = tt
InRange-after_write c low high = tt
InRange-after_write c2 low high = tt

abbrev AllInRange : ℕ → ℕ → (Process → Pc) → Type 0
AllInRange low high pc = (i : Process) → InRange low high (pc i)

AllInRange-update :
    (pc : Process → Pc) (i : Process) (p : Pc) (low high : ℕ)
    → InRange low high p
    → AllInRange low high pc
    → AllInRange low high (update pc i p)
AllInRange-update pc i p low high h all j = InRange-if (same i j) p (pc j) low high h (all j)

-- What the processes leave alone: the bytes that stood in the file.
record Kept (file : List ℕ) (s : State) : Type 0 where
  same_bytes : take (length file) s.file ≡ file
  longer : length file ≤ length s.file
  offsets : AllInRange (length file) (length s.file) s.pc

-- A step that leaves the file alone and has no offset past its end.
moves_on :
    {file : List ℕ} {s : State} (i : Process) (p : Pc)
    → InRange (length file) (length s.file) p
    → Kept file s
    → Kept file (record s { pc = update s.pc i p })
moves_on {file} {s} i p h kept = record {
  same_bytes = kept.same_bytes;
  longer = kept.longer;
  offsets = AllInRange-update s.pc i p (length file) (length s.file) h kept.offsets;
}

offset-InRange :
    (pc : Process → Pc) (i : Process) (low high offset : ℕ)
    → AllInRange low high pc
    → pc i ≡ writes offset
    → InRange low high (writes offset)
offset-InRange pc i low high offset h e = subst (InRange low high) e (h i)

Step-Kept : {file : List ℕ} {s t : State} → Step s t → Kept file s → Kept file t
Step-Kept (fork_b e e') h = moves_on b (forking 0) tt (moves_on a (forking 1) tt h)
Step-Kept (fork_c e e') h = moves_on c (forking 0) tt (moves_on a (waits b) tt h)
Step-Kept (fork_b2 e e') h = moves_on b2 seeks tt (moves_on b (waits b2) tt h)
Step-Kept (fork_c2 e e') h = moves_on c2 seeks tt (moves_on c (waits c2) tt h)
Step-Kept {file} {s} (reap i j e e') h =
    moves_on i (after_wait i j) (InRange-after_wait i j (length file) (length s.file)) h
Step-Kept {s = s} (seek i e) h = moves_on i (writes (length s.file)) (h.longer, omega arith) h
Step-Kept {file} {s} (write i offset e) h =
    let (low, high) = offset-InRange s.pc i (length file) (length s.file) offset h.offsets e in
    let more : length s.file ≤ length (write_at offset (line i) s.file) =
      length-write_at offset (line i) s.file high in
    record {
      same_bytes = take-write (length file) offset s.file _ low high ∙ h.same_bytes;
      longer = omega (arith, more, h.longer);
      offsets =
          AllInRange-update s.pc i (after_write i) (length file) _
            (InRange-after_write i (length file) _)
            (λ j. InRange-more (s.pc j) (length file) (length s.file) _ more (h.offsets j));
    }

at_start : (file : List ℕ) → AllInRange (length file) (length file) (started file).pc
at_start file a = tt
at_start file b = tt
at_start file b2 = tt
at_start file c = tt
at_start file c2 = tt

Run-Kept : {file : List ℕ} {t : State} {n : ℕ} → Run (started file) n t → Kept file t
Run-Kept {file} here = record {
  same_bytes = take-all (length file) file (omega arith);
  longer = omega arith;
  offsets = at_start file;
}
Run-Kept (later r st) = Step-Kept st (Run-Kept r)

-- In whatever order the five processes write, what stood in the file before they ran still begins it.
pub file_kept :
    {file : List ℕ} {t : State} {n : ℕ} → Run (started file) n t → take (length file) t.file ≡ file
file_kept r = (Run-Kept r).same_bytes
