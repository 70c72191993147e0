-- ===== src/Kernel/Ledger.antt =====
-- What a log of kernel calls leaves held, by the documented pairing of the calls that acquire a
-- resource and those that release it, and how often it releases what is not held.
use linux_programing_n_syste.Common.{
  ℕ, ◌+◌, ◌≤◌, length, ◌≡◌, arith, List, [], ◌∷◌, Bool, true, false, ◌||◌, ◌==◌, if◌then◌else◌,
  is_null,
}
use linux_programing_n_syste.Common.Int.{is_negative}
use linux_programing_n_syste.Kernel.{Event, is_err, Log}
use mathlib.Core.Bool.{not}

pub record Held : Type 0 where
  pub region : Bool
  pub class : Bool
  pub device : Bool
  pub cdev : Bool
  pub irq : Bool
  pub memory : List ℕ
  pub mapped : List ℕ
  pub misuses : ℕ

abbrev pub nothing : Held
nothing = record {
  region = false;
  class = false;
  device = false;
  cdev = false;
  irq = false;
  memory = [];
  mapped = [];
  misuses = 0;
}

unfoldable pub elem : ℕ → List ℕ → Bool
elem p [] = false
elem p (q ∷ qs) = p == q || elem p qs

unfoldable pub remove : ℕ → List ℕ → List ℕ
remove p [] = []
remove p (q ∷ qs) = if p == q then qs else q ∷ remove p qs

-- What was acquired last is found and taken out.
pub elem_head : (p : ℕ) (qs : List ℕ) → elem p (p ∷ qs) ≡ true
unfolding elem
elem_head p qs = ground arith

pub remove_head : (p : ℕ) (qs : List ℕ) → remove p (p ∷ qs) ≡ qs
unfolding remove
remove_head p qs = ground arith

pub ruleset heads = (elem_head, remove_head)

abbrev miss : Bool → ℕ → ℕ
miss true n = n
miss false n = n + 1

-- One call. `kfree` and `iounmap` of NULL, and an allocation of no bytes, hold and release nothing.
unfoldable pub settle : Event → Held → Held
settle (Event.alloc_chrdev_region r) h = record h { region = h.region || not (is_negative r) }
settle (Event.unregister_chrdev_region _) h = record h {
  region = false;
  misuses = miss h.region h.misuses;
}
settle (Event.class_create p) h = record h { class = h.class || not (is_null p) }
settle (Event.class_destroy _) h = record h { class = false; misuses = miss h.class h.misuses }
settle (Event.device_create d) h = record h { device = h.device || not (is_err d) }
settle (Event.device_destroy _ _) h = record h { device = false; misuses = miss h.device h.misuses }
settle (Event.cdev_alloc p) h = record h { cdev = h.cdev || not (is_null p) }
settle (Event.cdev_del _) h = record h { cdev = false; misuses = miss h.cdev h.misuses }
settle (Event.kzalloc n p) h =
    if is_null n || is_null p then h else record h { memory = p ∷ h.memory }
settle (Event.kfree p) h =
    if is_null p
    then h
    else record h { memory = remove p h.memory; misuses = miss (elem p h.memory) h.misuses }
settle (Event.ioremap _ _ p) h = if is_null p then h else record h { mapped = p ∷ h.mapped }
settle (Event.iounmap p) h =
    if is_null p
    then h
    else record h { mapped = remove p h.mapped; misuses = miss (elem p h.mapped) h.misuses }
settle (Event.request_irq _ r) h = record h { irq = h.irq || not (is_negative r) }
settle (Event.free_irq _) h = record h { irq = false; misuses = miss h.irq h.misuses }
settle _ h = h

unfoldable pub held : Log → Held
unfolding settle
held [] = nothing
held (e ∷ log) = settle e (held log)

pub length-remove : (p : ℕ) (qs : List ℕ) → length qs ≤ length (remove p qs) + 1
unfolding remove
length-remove p [] = omega arith
length-remove p (q ∷ qs) = ground (arith, length-remove p qs)
