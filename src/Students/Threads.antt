-- ===== src/Students/Threads.antt =====
-- The three threads of 5.2-Thread-management, interleaved in any order: the mutex `mtx` and the
-- variable `running_thread`, on which each thread spins when its work is done. What a thread does
-- under the mutex is one step, since only the threads touch `human` and the file, and only under it.
use linux_programing_n_syste.Common.{
  ◌≡◌, ◌≢◌, Bool, true, false, if◌then◌else◌, List, [], ◌∷◌, Option, none, some,
}

pub data Thread : Type 0 where
  t1 t2 t3 : Thread

-- Whom a thread names in `running_thread` when it is done.
abbrev pub next : Thread → Thread
next t1 = t2
next t2 = t3
next t3 = t1

abbrev pub same : Thread → Thread → Bool
same t1 t1 = true
same t2 t2 = true
same t3 t3 = true
same _ _ = false

-- Where a thread stands: before `pthread_mutex_lock`, under the mutex, before the assignment to
-- `running_thread`, or in the loop behind it.
pub data Pc : Type 0 where
  acquire critical announce spin : Pc

-- `running` is none for the initial 0. `works` lists who has worked, the last first.
pub record State : Type 0 where
  pub pc : Thread → Pc
  pub owner : Option Thread
  pub running : Option Thread
  pub works : List Thread

abbrev pub update : (Thread → Pc) → Thread → Pc → Thread → Pc
update f i p j = if same i j then p else f j

pub data Step (s : State) : State → Type 0 where
  lock :
      (i : Thread)
      → s.pc i ≡ acquire
      → s.owner ≡ none
      → Step s (record s { pc = update s.pc i critical; owner = some i })
  work :
      (i : Thread)
      → s.pc i ≡ critical
      → Step s (record s { pc = update s.pc i announce; owner = none; works = i ∷ s.works })
  hand_over :
      (i : Thread)
      → s.pc i ≡ announce
      → Step s (record s { pc = update s.pc i spin; running = some (next i) })
  wait : (i : Thread) → s.pc i ≡ spin → s.running ≢ some i → Step s s
  leave :
      (i : Thread)
      → s.pc i ≡ spin
      → s.running ≡ some i
      → Step s (record s { pc = update s.pc i acquire })

-- The threads as `main` creates them.
abbrev pub init : State
init = record { pc = λ _. acquire; owner = none; running = none; works = [] }

pub data Reach (s : State) : State → Type 0 where
  here : Reach s s
  later : {t u : State} → Reach s t → Step t u → Reach s u
