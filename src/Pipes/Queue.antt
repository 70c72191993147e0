-- ===== src/Pipes/Queue.antt =====
-- A queue of messages: what the two processes of 8.1-Pipeline promise each other.
use linux_programing_n_syste.Common.{ℕ, ◌≡◌, refl, sym, ◌∙◌, Bool, true, false, List, [], ◌∷◌, ◌++◌}
use mathlib.Core.List.{append_assoc}

-- Messages that were sent, that wait, and that were shown, the oldest first; the last one that came,
-- and whether the sender has closed.
pub record Queue : Type 0 where
  pub sent : List (List ℕ)
  pub waiting : List (List ℕ)
  pub shown : List (List ℕ)
  pub last : List ℕ
  pub closed : Bool

-- A message is sent, or the oldest that waits is shown; once the sender has closed and none waits, the
-- last one is shown again and again.
pub data Move (q : Queue) : Queue → Type 0 where
  send :
      (m : List ℕ)
      → q.closed ≡ false
      → Move q (record q { sent = q.sent ++ (m ∷ []); waiting = q.waiting ++ (m ∷ []) })
  close : q.closed ≡ false → Move q (record q { closed = true })
  deliver :
      (m : List ℕ) (rest : List (List ℕ))
      → q.waiting ≡ m ∷ rest
      → Move q (record q { waiting = rest; shown = q.shown ++ (m ∷ []); last = m })
  repeat : q.closed ≡ true → q.waiting ≡ [] → Move q (record q { shown = q.shown ++ (q.last ∷ []) })

pub data Moves (q : Queue) : Queue → Type 0 where
  none_yet : Moves q q
  and_then : {r t : Queue} → Moves q r → Move r t → Moves q t

abbrev pub empty_queue : List ℕ → Queue
empty_queue last = record { sent = []; waiting = []; shown = []; last = last; closed = false }

-- Until the sender closes, what was sent is what was shown and then what waits.
pub Moves-InOrder :
    {last : List ℕ} {q : Queue}
    → Moves (empty_queue last) q
    → q.closed ≡ false
    → q.sent ≡ q.shown ++ q.waiting
Moves-InOrder none_yet e = refl
Moves-InOrder (and_then {r} run (send m e')) e =
    rw (Moves-InOrder run e') (append_assoc r.shown r.waiting (m ∷ []))
Moves-InOrder (and_then run (close e')) e = absurd (cc)
Moves-InOrder (and_then {r} run (deliver m rest w)) e =
    Moves-InOrder run e ∙ rw w (sym (append_assoc r.shown (m ∷ []) rest))
Moves-InOrder (and_then run (repeat e' w)) e = absurd (cc)
