-- ===== src/Students/Order.antt =====
-- Once the threads of 5.2-Thread-management are in step they work in turn; at the start they are not.
use linux_programing_n_syste.Common.{
  Bool-cases, ◌≡◌, ◌≢◌, ◌⊎◌, inl, inr, refl, arith, Bool, true, false, List, [], ◌∷◌, none, some,
}
use mathlib.Core.Path.{subst, sym}
use linux_programing_n_syste.Students.Threads.{
  Thread, t1, t2, t3, next, same, Pc, acquire, critical, announce, spin, State, update, Step, lock,
  work, hand_over, wait, leave, init, Reach, here, later,
}

-- One thread is named and may be anywhere; the two others spin.
pub record InStep (s : State) (i : Thread) : Type 0 where
  pub named : s.running ≡ some i
  pub others : (j : Thread) → same i j ≡ false → s.pc j ≡ spin

-- Who is to work after whom: the one who enters, the one who stores, the one who reads.
pub data Follows : Thread → Thread → Type 0 where
  one_two : Follows t1 t2
  two_three : Follows t2 t3
  three_one : Follows t3 t1

-- The list of works, the last first: `i` was the first, and each follows the one before.
abbrev pub InOrder : Thread → List Thread → Type 0
InOrder i [] = Unit
InOrder i (w ∷ []) = w ≡ i
InOrder i (w ∷ v ∷ ws) = Follows v w × InOrder i (v ∷ ws)

-- The list of works goes backwards through the threads from the one before `n` to `first`.
abbrev InTurn : Thread → Thread → List Thread → Type 0
InTurn first n [] = first ≡ n
InTurn first n (w ∷ ws) = (next w ≡ n) × InTurn first w ws

next-Follows : (i : Thread) → Follows i (next i)
next-Follows t1 = one_two
next-Follows t2 = two_three
next-Follows t3 = three_one

InTurn-InOrder : (first n : Thread) (ws : List Thread) → InTurn first n ws → InOrder first ws
InTurn-InOrder first n [] h = tt
InTurn-InOrder first n (w ∷ []) (_, e) = sym e
InTurn-InOrder first n (w ∷ v ∷ ws) (_, (e, rest)) =
    (subst (λ x. Follows v x) e (next-Follows v), InTurn-InOrder first w (v ∷ ws) (e, rest))

-- Who works next: the named thread, or the one behind it if the named thread has just worked.
abbrev pub upcoming : Pc → Thread → Thread
upcoming announce i = next i
upcoming _ i = i

record Ordered (first : Thread) (s : State) (i : Thread) : Type 0 where
  in_step : InStep s i
  in_turn : InTurn first (upcoming (s.pc i) i) s.works

same_self : (i : Thread) → same i i ≡ true
same_self t1 = refl
same_self t2 = refl
same_self t3 = refl

same_eq : (i j : Thread) → same i j ≡ true → i ≡ j
same_eq i j h = ground arith

-- A thread that does not spin is the named one.
mover : {s : State} {i : Thread} → InStep s i → (j : Thread) → s.pc j ≢ spin → i ≡ j
mover {s} {i} h j p = by_same (same i j) refl
  where
    by_same : (b : Bool) → same i j ≡ b → i ≡ j
    by_same true e = same_eq i j e
    by_same false e = absurd (p (h.others j e))

InTurn-at :
    (first : Thread) {n m : Thread} (ws : List Thread)
    → n ≡ m
    → InTurn first n ws
    → InTurn first m ws
InTurn-at first ws e h = subst (λ n. InTurn first n ws) e h

next-ne : (i : Thread) → same i (next i) ≡ false
next-ne t1 = refl
next-ne t2 = refl
next-ne t3 = refl

module _ {first : Thread} {s : State} {i : Thread} (h : Ordered first s i) (j : Thread)
    (is_mover : i ≡ j) where
  -- The mover goes anywhere, and the others spin on.
  others_spin : (p : Pc) (k : Thread) → same i k ≡ false → update s.pc j p k ≡ spin
  others_spin p k e = ground (arith, same_eq j k, h.in_step.others k)

  moved : (p : Pc) → update s.pc j p i ≡ p
  moved p = ground (arith, same_self j)

  lock-Ordered :
      s.pc j ≡ acquire → Ordered first (record s { pc = update s.pc j critical; owner = some j }) i
  lock-Ordered p = record {
    in_step = record { named = h.in_step.named; others = others_spin critical };
    in_turn = InTurn-at first s.works (ground (arith, moved critical)) h.in_turn;
  }

  work-Ordered :
      s.pc j ≡ critical
      → Ordered first
          (record s { pc = update s.pc j announce; owner = none; works = j ∷ s.works })
          i
  work-Ordered p = record {
    in_step = record { named = h.in_step.named; others = others_spin announce };
    in_turn = (
      ground (arith, moved announce),
      InTurn-at first {n = upcoming (s.pc i) i} {m = j} s.works (ground arith) h.in_turn,
    );
  }

  leave-Ordered : s.pc j ≡ spin → Ordered first (record s { pc = update s.pc j acquire }) i
  leave-Ordered p = record {
    in_step = record { named = h.in_step.named; others = others_spin acquire };
    in_turn = InTurn-at first s.works (ground (arith, moved acquire)) h.in_turn;
  }

  all_spin : (k : Thread) → update s.pc j spin k ≡ spin
  all_spin k = elim (Bool-cases (same j k)) [
    | inl e ↦ rw e
    | inr e ↦ rw e (h.in_step.others k (ground arith))
  ]

  hand_over-Ordered :
      s.pc j ≡ announce
      → Ordered first (record s { pc = update s.pc j spin; running = some (next j) }) (next i)
  hand_over-Ordered p = record {
    in_step = record { named = ground arith; others = λ k e. all_spin k };
    in_turn = InTurn-at first s.works (ground (arith, all_spin (next i))) h.in_turn;
  }

Step-Ordered :
    {first : Thread} {s t : State} {i : Thread}
    → Step s t
    → Ordered first s i
    → Ordered first t i ⊎ Ordered first t (next i)
Step-Ordered (lock j p o) h = inl (lock-Ordered h j (mover h.in_step j (λ q. cc)) p)
Step-Ordered (work j p) h = inl (work-Ordered h j (mover h.in_step j (λ q. cc)) p)
Step-Ordered (hand_over j p) h = inr (hand_over-Ordered h j (mover h.in_step j (λ q. cc)) p)
Step-Ordered (wait j p q) h = inl h
Step-Ordered (leave j p q) h = inl (leave-Ordered h j (ground (arith, h.in_step.named)) p)

Reach-Ordered :
    {first : Thread} {s t : State} {i : Thread}
    → Reach s t
    → Ordered first s i
    → (k : Thread) × Ordered first t k
Reach-Ordered {i = i} here h = (i, h)
Reach-Ordered (later r st) h =
    let (k, at_k) = Reach-Ordered r h in
    elim (Step-Ordered st at_k) [ inl same_k ↦ (k, same_k) | inr next_k ↦ (next k, next_k) ]

-- From a state in which one thread is named in `running_thread` and stands before the mutex while
-- the others spin, the works of any run from there begin with that thread and follow one another in
-- the order 1, 2, 3, 1; afterwards again one thread is named and the others spin.
pub works-InOrder :
    {s t : State} {i : Thread}
    → InStep s i
    → s.pc i ≡ acquire
    → s.works ≡ []
    → Reach s t
    → InOrder i t.works × (k : Thread) × InStep t k
works-InOrder {s} {t} {i} h p none_yet r =
    let (k, at_k) = Reach-Ordered r (record { in_step = h; in_turn = rw none_yet (rw p refl) }) in
    (InTurn-InOrder _ _ t.works at_k.in_turn, k, at_k.in_step)

-- At the start the order is open: each of the three threads can be the first to work, the one that
-- reads the file too.
pub any_thread_first : (i : Thread) → (s : State) × Reach init s × (s.works ≡ i ∷ [])
any_thread_first i =
    (_, later (later here (lock i refl refl)) (work i (ground (arith, same_self i))), refl)
