-- ===== src/PrrExercise/Laws.antt =====
-- What the probe function of prr_exercise.c comes to, and what the module's start and end leave held.
use linux_programing_n_syste.Common.{
  ℕ, zero, suc, ◌≡◌, refl, ◌⊎◌, inl, inr, Bool, true, false, List, [], ◌∷◌,
}
use linux_programing_n_syste.Common.Int.{ℤ, pos, negsuc, is_negative, success}
use linux_programing_n_syste.Kernel.{Outcome, done, buffer_overrun, null_access, Event, Log}
use linux_programing_n_syste.Kernel.Ledger.{held, nothing}
use linux_programing_n_syste.PrrExercise.{
  State, Answers, InitAnswers, Returned, returns, no_value, probe, probe_private, get_property_data,
  init, cleanup, loaded, pointer_size,
}

-- Allocations of the size of a pointer, the newest first.
abbrev pub allocations : List ℕ → Log → Log
allocations [] log = log
allocations (p ∷ ps) log = Event.kzalloc pointer_size p ∷ allocations ps log

-- A call that comes back has an error, and the only calls that it made are allocations.
abbrev pub FailsHolding : Log → Outcome Returned → Type 0
FailsHolding log (done (returns r t)) =
    (is_negative r ≡ true) × (allocated : List ℕ) × (t.log ≡ allocations allocated log)
FailsHolding log (done (no_value t)) = ⊥
FailsHolding log buffer_overrun = ⊥
FailsHolding log null_access = Unit

abbrev answers : Bool → ℕ → ℤ → ℕ → Answers → Answers
answers m p r d a = record a { matched = m; plat_ptr = p; property_ret = r; dev_ptr = d }

probe_cases :
    (m : Bool) (p : ℕ) (r : ℤ) (d : ℕ) (a : Answers) (s : State)
    → FailsHolding s.log (probe (answers m p r d a) s)
unfolding probe get_property_data probe_private
probe_cases true zero r d a s = (refl, 0 ∷ [], refl)
probe_cases true (suc p) (negsuc e) d a s = (refl, suc p ∷ [], refl)
probe_cases true (suc p) (pos n) zero a s = (refl, 0 ∷ suc p ∷ [], refl)
probe_cases true (suc p) (pos n) (suc d) a s = tt
probe_cases false p r zero a s = (refl, 0 ∷ [], refl)
probe_cases false p r (suc d) a s = tt

-- No device is ever probed with success, whatever the kernel answers: the call returns an error and
-- keeps what it allocated, or it goes through `platform_private`, which is NULL.
pub probe-FailsHolding : (a : Answers) (s : State) → FailsHolding s.log (probe a s)
probe-FailsHolding a s = probe_cases a.matched a.plat_ptr a.property_ret a.dev_ptr a s

-- What the start and then the end of the module come to.
abbrev pub StartsAndEnds : ℤ × State → Type 0
StartsAndEnds (ret, s) =
    ((is_negative ret ≡ true) × (held s.log ≡ nothing) × (s.registered ≡ false))
    ⊎ ((is_negative ret ≡ false) × (held s.log ≡ nothing) × (s.registered ≡ false))
    ⊎ ((ret ≡ success)
        × (s.registered ≡ true)
        × (held (cleanup s).log ≡ record nothing { misuses = 1 }))

init_cases :
    (r : ℤ) (num class_ptr : ℕ)
    → StartsAndEnds (init (record { alloc_ret = r; dev_num = num; class_ptr = class_ptr }) loaded)
unfolding init cleanup held
init_cases (negsuc e) num c = inl (refl, refl, refl)
init_cases (pos n) num zero = inr (inl (refl, refl, refl))
init_cases (pos n) num (suc c) = inr (inr (refl, refl, refl))

-- Whatever the kernel answers, the start of the module fails with nothing held; or, where the class
-- could not be made, is reported as no failure with nothing held and no driver registered; or succeeds,
-- and then the end of the module gives back all that the start took, and one device that it did not.
pub init-StartsAndEnds : (a : InitAnswers) → StartsAndEnds (init a loaded)
init-StartsAndEnds a = init_cases a.alloc_ret a.dev_num a.class_ptr
