-- ===== src/Processes/Zombies.antt =====
-- Linux-Programing-N-System/4-Process-Management/4.3-safe-fork-zombie/main.c: a parent forks 5000
-- children, which end at once, and its handler of SIGCHLD waits for one child. A signal that is raised
-- while it is pending is merged with it, and the signal is blocked while its handler runs. When `main`
-- returns, the children that were not waited for pass to init, which waits for them.
use linux_programing_n_syste.Common.{
  ℕ, zero, suc, ◌+◌, ◌≡◌, refl, subst, ◌∙◌, arith, Bool, true, false,
}

abbrev pub children : ℕ
children = 5000

-- How many children are still to be forked, run, are zombies, and have been waited for; whether
-- SIGCHLD is pending, and whether its handler runs; whether `main` has returned, and how many children
-- init has waited for.
pub record Parent : Type 0 where
  pub to_fork : ℕ
  pub alive : ℕ
  pub zombies : ℕ
  pub reaped : ℕ
  pub pending : Bool
  pub handling : Bool
  pub returned : Bool
  pub adopted : ℕ

-- `fork` succeeds. `wait` waits while children run, and fails at once where there is none.
pub data Step (s : Parent) : Parent → Type 0 where
  forks :
      (n : ℕ)
      → s.returned ≡ false
      → s.handling ≡ false
      → s.to_fork ≡ suc n
      → Step s (record s { to_fork = n; alive = suc s.alive })
  child_ends :
      (n : ℕ)
      → s.returned ≡ false
      → s.alive ≡ suc n
      → Step s (record s { alive = n; zombies = suc s.zombies; pending = true })
  enters_handler :
      s.returned ≡ false
      → s.pending ≡ true
      → s.handling ≡ false
      → Step s (record s { pending = false; handling = true })
  waits_for_one :
      (n : ℕ)
      → s.returned ≡ false
      → s.handling ≡ true
      → s.zombies ≡ suc n
      → Step s (record s { zombies = n; reaped = suc s.reaped; handling = false })
  has_no_child :
      s.returned ≡ false
      → s.handling ≡ true
      → s.zombies ≡ 0
      → s.alive ≡ 0
      → Step s (record s { handling = false })
  main_returns :
      s.returned ≡ false
      → s.handling ≡ false
      → s.to_fork ≡ 0
      → Step s (record s { returned = true; zombies = 0; adopted = s.zombies + s.adopted })
  orphan_ends :
      (n : ℕ)
      → s.returned ≡ true
      → s.alive ≡ suc n
      → Step s (record s { alive = n; adopted = suc s.adopted })

pub data Run (s : Parent) : Parent → Type 0 where
  here : Run s s
  later : {t u : Parent} → Run s t → Step t u → Run s u

abbrev pub before : ℕ → Parent
before n = record {
  to_fork = n;
  alive = 0;
  zombies = 0;
  reaped = 0;
  pending = false;
  handling = false;
  returned = false;
  adopted = 0;
}

abbrev pub all_children : Parent → ℕ
all_children s = s.to_fork + s.alive + s.zombies + s.reaped + s.adopted

Step-all_children : {s t : Parent} → Step s t → all_children t ≡ all_children s
Step-all_children (forks n g h e) = omega (arith, e)
Step-all_children (child_ends n g e) = omega (arith, e)
Step-all_children (enters_handler g p h) = refl
Step-all_children (waits_for_one n g h e) = omega (arith, e)
Step-all_children (has_no_child g h z e) = refl
Step-all_children (main_returns g h f) = omega arith
Step-all_children (orphan_ends n g e) = omega (arith, e)

Run-all_children : {s t : Parent} → Run s t → all_children t ≡ all_children s
Run-all_children here = refl
Run-all_children (later r st) = Step-all_children st ∙ Run-all_children r

-- A number of children that were forked, and as many zombies.
abbrev forked : ℕ → ℕ → Parent
forked n m = record {
  to_fork = n;
  alive = m;
  zombies = 0;
  reaped = 0;
  pending = false;
  handling = false;
  returned = false;
  adopted = 0;
}

forks_all : (n m k : ℕ) (s : Parent) → n + m ≡ k → Run s (forked n m) → Run s (forked 0 k)
forks_all zero m k s e r = subst (λ a. Run s (forked 0 a)) (omega (arith, e)) r
forks_all (suc n) m k s e r =
    forks_all n (suc m) k s (omega (arith, e)) (later r (forks n refl refl refl))

abbrev ended : ℕ → ℕ → Bool → Parent
ended n m p = record {
  to_fork = 0;
  alive = n;
  zombies = m;
  reaped = 0;
  pending = p;
  handling = false;
  returned = false;
  adopted = 0;
}

all_end :
    (n m k : ℕ) (p : Bool) (s : Parent)
    → suc n + m ≡ k
    → Run s (ended (suc n) m p)
    → Run s (ended 0 k true)
all_end zero m k p s e r =
    subst (λ z. Run s (ended 0 z true)) (omega (arith, e)) (later r (child_ends 0 refl refl))
all_end (suc n) m k p s e r =
    all_end n (suc m) k true s (omega (arith, e)) (later r (child_ends (suc n) refl refl))

-- Nothing is left to run but the end of `main`: no child, no signal.
abbrev pub Idle : Parent → Type 0
Idle s = (s.to_fork ≡ 0) × (s.alive ≡ 0) × (s.pending ≡ false) × (s.handling ≡ false)

Idle-returns :
    {s t : Parent}
    → Idle s
    → Step s t
    → s.returned ≡ false
    → (t.returned ≡ true) × (t.zombies ≡ 0) × (t.adopted ≡ s.zombies + s.adopted)
Idle-returns (f, a, p, h) (forks n g h' e) lives = absurd (omega (arith, f, e))
Idle-returns (f, a, p, h) (child_ends n g e) lives = absurd (omega (arith, a, e))
Idle-returns (f, a, p, h) (enters_handler g p' h') lives = absurd (cc)
Idle-returns (f, a, p, h) (waits_for_one n g h' e) lives = absurd (cc)
Idle-returns (f, a, p, h) (has_no_child g h' z e) lives = absurd (cc)
Idle-returns (f, a, p, h) (main_returns g h' e) lives = (refl, refl, refl)
Idle-returns (f, a, p, h) (orphan_ends n g e) lives = absurd (cc)

abbrev at_rest : ℕ → Parent
at_rest m = record {
  to_fork = 0;
  alive = 0;
  zombies = m;
  reaped = 1;
  pending = false;
  handling = false;
  returned = false;
  adopted = 0;
}

one_signal : (m : ℕ) → Run (before (suc m)) (at_rest m)
one_signal m =
    let born = forks_all (suc m) 0 (suc m) (before (suc m)) (omega arith) here in
    let dead = all_end m 0 (suc m) false (before (suc m)) (omega arith) born in
    later (later dead (enters_handler refl refl refl)) (waits_for_one m refl refl refl)

-- However many children are forked, they can all end before the handler runs, and then it waits for one
-- of them only: the others stay zombies as long as the parent lives, for the only step left is that `main`
-- returns, and then all of them pass to init. In every run, the children still to be forked, those that
-- run, the zombies and those waited for by the parent or by init are together all the children.
pub zombies_remain :
    (m : ℕ) {t : Parent}
    → Run (before (suc m)) t
    → (all_children t ≡ suc m)
      × (u : Parent) × Run (before (suc m)) u
      × (u.returned ≡ false)
      × (u.zombies ≡ m)
      × ((v : Parent) → Step u v → (v.returned ≡ true) × (v.zombies ≡ 0) × (v.adopted ≡ m))
zombies_remain m r = (
  omega (arith, Run-all_children r),
  at_rest m,
  one_signal m,
  refl,
  refl,
  λ v st.
      let (gone, none, all) = Idle-returns (refl, refl, refl, refl) st refl in
      (gone, none, omega (arith, all)),
)
