-- ===== src/Students/Turns.antt =====
-- The order in which the threads of 5.2-Thread-management work.
use linux_programing_n_syste.Common.{◌≡◌, ◌≢◌, ◌⊎◌, inl, inr, refl, arith, true, Option, none, some}
use linux_programing_n_syste.Students.Threads.{
  Thread, t1, same, Pc, acquire, critical, announce, spin, State, Step, lock, work, hand_over, wait,
  leave, init, Reach, here, later,
}

-- The mutex is held by the thread that is under it, and a thread spins only on a name.
record Inv (s : State) : Type 0 where
  held : (i : Thread) → s.pc i ≡ critical → s.owner ≡ some i
  owned : (i : Thread) → s.owner ≡ some i → s.pc i ≡ critical
  named : (i : Thread) → s.pc i ≡ spin → s.running ≢ none

same_eq : (i j : Thread) → same i j ≡ true → i ≡ j
same_eq i j h = ground arith

module _ {s : State} (v : Inv s) where
  Step-held : {t : State} → Step s t → (i : Thread) → t.pc i ≡ critical → t.owner ≡ some i
  Step-held (lock j p o) i h = ground (arith, same_eq j i, v.held i)
  Step-held (work j p) i h = ground (arith, same_eq j i, v.held i, v.held j)
  Step-held (hand_over j p) i h = ground (arith, same_eq j i, v.held i)
  Step-held (wait j p q) i h = v.held i h
  Step-held (leave j p q) i h = ground (arith, same_eq j i, v.held i)

  Step-owned : {t : State} → Step s t → (i : Thread) → t.owner ≡ some i → t.pc i ≡ critical
  Step-owned (lock j p o) i h = ground (arith, same_eq j i)
  Step-owned (work j p) i h = cc
  Step-owned (hand_over j p) i h = ground (arith, same_eq j i, v.owned i)
  Step-owned (wait j p q) i h = v.owned i h
  Step-owned (leave j p q) i h = ground (arith, same_eq j i, v.owned i)

  Step-named : {t : State} → Step s t → (i : Thread) → t.pc i ≡ spin → t.running ≢ none
  Step-named (lock j p o) i h = ground (arith, v.named i)
  Step-named (work j p) i h = ground (arith, v.named i)
  Step-named (hand_over j p) i h = λ e. cc
  Step-named (wait j p q) i h = v.named i h
  Step-named (leave j p q) i h = ground (arith, v.named i)

Reach-Inv : {s : State} → Reach init s → Inv s
Reach-Inv here = record { held = λ i h. cc; owned = λ i h. cc; named = λ i h. cc }
Reach-Inv (later r st) =
    let v = Reach-Inv r in
    record { held = Step-held v st; owned = Step-owned v st; named = Step-named v st }

-- In every state that the threads can reach, at most one of them is under the mutex.
pub mutual_exclusion :
    {s : State} → Reach init s → (i j : Thread) → s.pc i ≡ critical → s.pc j ≡ critical → i ≡ j
mutual_exclusion r i j p q = let v = Reach-Inv r in ground (arith, v.held i, v.held j)

-- A thread that can go on: any but one that waits for the mutex or spins in vain.
abbrev pub CanMove : State → Thread → Type 0
CanMove s i =
    ((s.pc i ≡ acquire) × (s.owner ≡ none))
    ⊎ (s.pc i ≡ critical)
    ⊎ (s.pc i ≡ announce)
    ⊎ ((s.pc i ≡ spin) × (s.running ≡ some i))

CanMove-of :
    (s : State) (i : Thread) (p : Pc)
    → s.pc i ≡ p
    → s.owner ≡ none
    → (s.pc i ≡ spin → s.running ≡ some i)
    → CanMove s i
CanMove-of s i acquire e o h = inl (e, o)
CanMove-of s i critical e o h = inr (inl e)
CanMove-of s i announce e o h = inr (inr (inl e))
CanMove-of s i spin e o h = inr (inr (inr (e, h e)))

-- No deadlock: in every state that the threads can reach, one of them can go on.
pub no_deadlock : {s : State} → Reach init s → (i : Thread) × CanMove s i
no_deadlock {s} r = by_owner s (Reach-Inv r) s.owner s.running refl refl
  where
    by_owner :
        (s : State)
        → Inv s
        → (o n : Option Thread) → s.owner ≡ o
        → s.running ≡ n
        → (i : Thread) × CanMove s i
    by_owner s v (some i) n e f = (i, inr (inl (v.owned i e)))
    by_owner s v none none e f =
        (t1, CanMove-of s t1 (s.pc t1) refl e (λ q. absurd (v.named t1 q f)))
    by_owner s v none (some i) e f = (i, CanMove-of s i (s.pc i) refl e (λ q. f))
