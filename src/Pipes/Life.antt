-- ===== src/Pipes/Life.antt =====
-- The two processes of 8.1-Pipeline behind `fork`, and what the handlers of SIGINT and SIGCHLD do to them.
-- The kernel sends SIGCHLD to the parent when its child ends, and also when it is stopped or continued; one
-- that comes before the parent has asked for it is dropped.
use linux_programing_n_syste.Common.{
  ◌≡◌, ◌≢◌, ◌⊎◌, inl, inr, refl, ap, Bool, true, false, if◌then◌else◌,
}
use linux_programing_n_syste.Common.Int.{ℤ, success}
use linux_programing_n_syste.Pipes.Mains.{exit_failure}

-- The parent before it asks for SIGCHLD, in its loop, in the `wait` of its handler, ended with a status,
-- or killed by SIGPIPE.
pub data Parent : Type 0 where
  preparing : Parent
  in_loop : Parent
  waits : Parent
  ended : ℤ → Parent
  killed : Parent

pub data Child : Type 0 where
  running : Child
  stopped : Child
  dead : Child

-- `pending` says that SIGCHLD waits to be taken, and `disturbed` that the child was stopped once.
pub record Life : Type 0 where
  pub parent : Parent
  pub child : Child
  pub pending : Bool
  pub disturbed : Bool

abbrev pub started : Life
started = record { parent = preparing; child = running; pending = false; disturbed = false }

-- Whether a SIGCHLD is kept for the parent.
unfoldable pub keeps_signal : Parent → Bool
keeps_signal preparing = false
keeps_signal in_loop = true
keeps_signal waits = true
keeps_signal (ended status) = false
keeps_signal killed = false

unfoldable pub notify : Life → Life
unfolding keeps_signal
notify l = record l { pending = if keeps_signal l.parent then true else l.pending }

-- The handlers in the parent; `wait` returns when the child has ended.
unfoldable pub sig_handler1 : Life → Life
sig_handler1 l = record l { parent = ended success }

unfoldable pub wait_child : Life → Life
wait_child l = record l { parent = waits; pending = false }

unfoldable pub wait_returns : Life → Life
wait_returns l = record l { parent = ended success }

-- The child ends by its handler of SIGINT or by a failed call. A write to a pipe without a reader kills
-- the parent.
pub data Step (l : Life) : Life → Type 0 where
  parent_prepared : l.parent ≡ preparing → Step l (record l { parent = in_loop })
  parent_fails : l.parent ≡ preparing → Step l (record l { parent = ended exit_failure })
  write_fails : l.parent ≡ in_loop → Step l (record l { parent = ended exit_failure })
  write_kills : l.parent ≡ in_loop → l.child ≡ dead → Step l (record l { parent = killed })
  interrupt_preparing : l.parent ≡ preparing → Step l (sig_handler1 l)
  interrupt_loop : l.parent ≡ in_loop → Step l (sig_handler1 l)
  interrupt_wait : l.parent ≡ waits → Step l (sig_handler1 l)
  takes_signal : l.parent ≡ in_loop → l.pending ≡ true → Step l (wait_child l)
  reaps : l.parent ≡ waits → l.child ≡ dead → Step l (wait_returns l)
  child_ends : l.child ≡ running → Step l (notify (record l { child = dead }))
  child_stops : l.child ≡ running → Step l (notify (record l { child = stopped; disturbed = true }))
  child_continues : l.child ≡ stopped → Step l (notify (record l { child = running }))

pub data Reach (l : Life) : Life → Type 0 where
  here : Reach l l
  later : {m n : Life} → Reach l m → Step m n → Reach l n

-- Where the child was never stopped, SIGCHLD and the `wait` of its handler mean that it has ended.
Sound : Life → Type 0
Sound l =
    (l.disturbed ≡ true)
    ⊎ ((l.child ≢ stopped)
        × ((l.pending ≡ false) ⊎ (l.child ≡ dead))
        × ((l.parent ≢ waits) ⊎ (l.child ≡ dead)))

Sound-parent : (l : Life) (p : Parent) → p ≢ waits → Sound l → Sound (record l { parent = p })
unfolding Sound
Sound-parent l p leaves (inl d) = inl d
Sound-parent l p leaves (inr (n, q, w)) = inr (n, q, inl leaves)

-- Once the child has ended, all is sound.
Sound-dead : (l : Life) → l.child ≡ dead → Sound l
unfolding Sound
Sound-dead l e = inr (λ q. cc, inr e, inr e)

Step-Sound : {l m : Life} → Step l m → Sound l → Sound m
unfolding Sound notify sig_handler1 wait_child wait_returns
Step-Sound {l} (parent_prepared e) s = Sound-parent l _ (λ q. cc) s
Step-Sound {l} (parent_fails e) s = Sound-parent l _ (λ q. cc) s
Step-Sound {l} (write_fails e) s = Sound-parent l _ (λ q. cc) s
Step-Sound {l} (write_kills e f) s = Sound-parent l _ (λ q. cc) s
Step-Sound {l} (interrupt_preparing e) s = Sound-parent l _ (λ q. cc) s
Step-Sound {l} (interrupt_loop e) s = Sound-parent l _ (λ q. cc) s
Step-Sound {l} (interrupt_wait e) s = Sound-parent l _ (λ q. cc) s
Step-Sound (takes_signal e f) (inl d) = inl d
Step-Sound (takes_signal e f) (inr (n, inl p, w)) = absurd (cc)
Step-Sound (takes_signal e f) (inr (n, inr p, w)) = Sound-dead _ p
Step-Sound {l} (reaps e f) s = Sound-parent l _ (λ q. cc) s
Step-Sound (child_ends e) s = Sound-dead _ refl
Step-Sound (child_stops e) s = inl refl
Step-Sound (child_continues e) (inl d) = inl d
Step-Sound (child_continues e) (inr (n, p, w)) = absurd (n e)

Reach-Sound : {l m : Life} → Reach l m → Sound l → Sound m
Reach-Sound here s = s
Reach-Sound (later r t) s = Step-Sound t (Reach-Sound r s)

-- Where the child was never stopped, the handler of SIGCHLD does not hang: the child has ended when the
-- parent comes to `wait`, which can return at once and end the parent.
pub wait-Returns :
    (l : Life)
    → Reach started l
    → l.parent ≡ waits
    → l.disturbed ≡ false
    → (l.child ≡ dead) × Step l (wait_returns l) × ((wait_returns l).parent ≡ ended success)
unfolding Sound wait_returns
wait-Returns l r e d = elim (Reach-Sound r (inr (λ q. cc, inl refl, inl (λ q. cc)))) [
  | inl f ↦ absurd (cc)
  | inr (n, p, inl f) ↦ absurd (f e)
  | inr (n, p, inr f) ↦ (f, reaps e f, refl)
]

-- The parent does not come back to its loop from `wait`, nor from its end.
Left : Parent → Type 0
Left p = (p ≢ preparing) × (p ≢ in_loop)

Step-Left : {l m : Life} → Step l m → Left l.parent → Left m.parent
unfolding Left notify sig_handler1 wait_child wait_returns
Step-Left (parent_prepared e) (n, q) = absurd (n e)
Step-Left (parent_fails e) (n, q) = absurd (n e)
Step-Left (write_fails e) (n, q) = absurd (q e)
Step-Left (write_kills e f) (n, q) = absurd (q e)
Step-Left (interrupt_preparing e) (n, q) = absurd (n e)
Step-Left (interrupt_loop e) (n, q) = absurd (q e)
Step-Left (interrupt_wait e) (n, q) = (λ x. cc, λ x. cc)
Step-Left (takes_signal e f) (n, q) = absurd (q e)
Step-Left (reaps e f) (n, q) = (λ x. cc, λ x. cc)
Step-Left (child_ends e) (n, q) = (n, q)
Step-Left (child_stops e) (n, q) = (n, q)
Step-Left (child_continues e) (n, q) = (n, q)

Reach-Left : {l m : Life} → Reach l m → Left l.parent → Left m.parent
Reach-Left here h = h
Reach-Left (later r t) h = Step-Left t (Reach-Left r h)

-- While the parent is in its loop and the child runs, the child can be stopped and continued so that the
-- parent takes the SIGCHLD for the child's end: it waits for a child that runs, and never comes back to
-- its loop.
pub stop_silences :
    (l : Life)
    → l.parent ≡ in_loop
    → l.child ≡ running
    → (m : Life) × Reach l m
      × (m.parent ≡ waits)
      × (m.child ≡ running)
      × ((n : Life) → Reach m n → n.parent ≢ in_loop)
unfolding Left notify keeps_signal wait_child
stop_silences l e f =
    let kept : keeps_signal l.parent ≡ true = ap keeps_signal e in
    let stop = later here (child_stops f) in
    let continue = later stop (child_continues refl) in
    (
      _,
      later continue (takes_signal e (rw kept refl)),
      refl,
      refl,
      λ n r. (Reach-Left r (λ x. cc, λ x. cc)).1,
    )

-- The child has ended, and no SIGCHLD is kept.
Untold : Life → Type 0
Untold l = (l.parent ≢ waits) × (l.child ≡ dead) × (l.pending ≡ false)

Step-Untold : {l m : Life} → Step l m → Untold l → Untold m
unfolding Untold notify sig_handler1 wait_child wait_returns
Step-Untold (parent_prepared e) (n, d, p) = (λ x. cc, d, p)
Step-Untold (parent_fails e) (n, d, p) = (λ x. cc, d, p)
Step-Untold (write_fails e) (n, d, p) = (λ x. cc, d, p)
Step-Untold (write_kills e f) (n, d, p) = (λ x. cc, d, p)
Step-Untold (interrupt_preparing e) (n, d, p) = (λ x. cc, d, p)
Step-Untold (interrupt_loop e) (n, d, p) = (λ x. cc, d, p)
Step-Untold (interrupt_wait e) (n, d, p) = (λ x. cc, d, p)
Step-Untold (takes_signal e f) (n, d, p) = absurd (cc)
Step-Untold (reaps e f) (n, d, p) = absurd (n e)
Step-Untold (child_ends e) (n, d, p) = absurd (cc)
Step-Untold (child_stops e) (n, d, p) = absurd (cc)
Step-Untold (child_continues e) (n, d, p) = absurd (cc)

Reach-Untold : {l m : Life} → Reach l m → Untold l → Untold m
Reach-Untold here h = h
Reach-Untold (later r t) h = Step-Untold t (Reach-Untold r h)

-- Where the child ends before the parent asked for SIGCHLD, the parent is never told: it does not come
-- to `wait`.
pub early_end_untold :
    (m : Life)
    → Reach (notify (record started { child = dead })) m
    → (m.parent ≢ waits) × (m.child ≡ dead)
unfolding Untold notify keeps_signal
early_end_untold m r = let (n, d, p) = Reach-Untold r (λ q. cc, refl, refl) in (n, d)
