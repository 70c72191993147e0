-- ===== src/Sysfs/Objects.antt =====
-- The directories that gpio-sysfs.c creates and gives back.
use linux_programing_n_syste.Common.{
  ℕ, zero, suc, ◌≤◌, ◌≡◌, ◌≢◌, ◌⊎◌, inl, inr, refl, sym, ◌∙◌, arith, false, Bool-cases, List, [],
  ◌∷◌, if◌then◌else◌, is_null, Option, some,
}
use linux_programing_n_syste.Common.Int.{ℤ, pos, success, minus_one}
use linux_programing_n_syste.Kernel.{done, and_then, Returns}
use linux_programing_n_syste.Kernel.Ledger.{remove, heads}
use linux_programing_n_syste.Sysfs.{
  State, Answers, Call, loaded, export_store, create_control, unexport_store, gpio_sysfs_init,
  gpio_sysfs_exit,
}
use linux_programing_n_syste.Sysfs.Requests.{length-gpio_numb}

-- The directories that were created and not given back.
unfoldable pub live : List Call → List ℕ
live [] = []
live (Call.kobject_create_and_add _ p ∷ log) = if is_null p then live log else p ∷ live log
live (Call.kobject_put p ∷ log) = if is_null p then live log else remove p (live log)
live (_ ∷ log) = live log

-- A directory that is given back right after its creation, with calls for its files between.
put_back :
    (p : ℕ) (name : List ℕ) (log : List Call)
    → live (Call.kobject_put p ∷ Call.kobject_create_and_add name p ∷ log) ≡ live log
unfolding live
put_back zero name log = refl
put_back (suc p) name log = simp heads

-- The module's end takes back what its start created; a start that fails gives it back itself.
pub init-exit_live :
    (a : Answers)
    → ((gpio_sysfs_init a loaded).0 ≡ minus_one × (live (gpio_sysfs_init a loaded).1.log ≡ []))
      ⊎ ((gpio_sysfs_init a loaded).0 ≡ success
          × (live (gpio_sysfs_exit (gpio_sysfs_init a loaded).1).log ≡ []))
unfolding gpio_sysfs_init gpio_sysfs_exit live
init-exit_live a = elim (Bool-cases a.group_failed) [
  | inl failed ↦ inl (rw failed (refl, put_back a.kobj [] []))
  | inr created ↦ inr (rw created (refl, put_back a.kobj [] []))
]

-- An export of a pin other than the last one.
export_new :
    (scan_int : List ℕ → Option ℤ) (a : Answers) (buf : List ℕ) (count n : ℕ) (s : State)
    → scan_int buf ≡ some (pos n)
    → n ≤ 65
    → s.gpio_led ≢ n
    → export_store scan_int a buf count s ≡ done (create_control a n count s)
unfolding export_store
export_new scan_int a buf count n s e small other = rw e (ground (arith, length-gpio_numb n))

-- Where the files of the new directory cannot be created it is given back, and where they can, an
-- unexport gives it back.
pub export-unexport_live :
    (scan_int : List ℕ → Option ℤ) (a : Answers) (buf : List ℕ) (count n : ℕ) (s : State)
    → scan_int buf ≡ some (pos n)
    → n ≤ 65
    → s.gpio_led ≢ n
    → Returns
        (export_store scan_int a buf count s)
        (λ q. live (if a.group_failed then q.1 else (unexport_store count q.1).1).log ≡ live s.log)
unfolding create_control unexport_store live
export-unexport_live scan_int a buf count n s e small other =
    rw (export_new scan_int a buf count n s e small other) (elim (Bool-cases a.group_failed) [
      | inl failed ↦ rw failed (put_back a.kobj [] s.log)
      | inr created ↦ rw created (put_back a.kobj [] s.log)
    ])

created_live :
    (p : ℕ) (name : List ℕ) (log : List Call)
    → is_null p ≡ false
    → live (Call.kobject_create_and_add name p ∷ log) ≡ p ∷ live log
unfolding live
created_live p name log e = rw e

create_control-gpio_led :
    (a : Answers) (n count : ℕ) (s : State) → (create_control a n count s).1.gpio_led ≡ n
unfolding create_control
create_control-gpio_led a n count s = ground arith

-- Two exports of different pins, and an unexport: the directory of the first pin stays for ever.
pub second_export_leaks :
    (scan_int : List ℕ → Option ℤ) (a1 a2 : Answers) (buf1 buf2 : List ℕ) (count n1 n2 : ℕ)
    (s : State)
    → scan_int buf1 ≡ some (pos n1)
    → scan_int buf2 ≡ some (pos n2)
    → n1 ≤ 65
    → n2 ≤ 65
    → s.gpio_led ≢ n1
    → n1 ≢ n2
    → a1.group_failed ≡ false
    → a2.group_failed ≡ false
    → is_null a1.kobj ≡ false
    → Returns
        (and_then
          (export_store scan_int a1 buf1 count s)
          λ q. export_store scan_int a2 buf2 count q.1)
        (λ q. live (unexport_store count q.1).1.log ≡ a1.kobj ∷ live s.log)
unfolding create_control unexport_store live
second_export_leaks scan_int a1 a2 buf1 buf2 count n1 n2 s e1 e2 small1 small2 other differ made1
      made2 real =
    rw (export_new scan_int a1 buf1 count n1 s e1 small1 other) (
      rw
        (export_new scan_int a2 buf2 count n2 (create_control a1 n1 count s).1 e2 small2
          (λ e. differ (sym (create_control-gpio_led a1 n1 count s) ∙ e)))
        (rw made2 (
          rw made1 (
            put_back a2.kobj [] (Call.kobject_create_and_add [] a1.kobj ∷ s.log)
            ∙ created_live a1.kobj [] s.log real))))

-- After an unexport the pin counts as exported still: a new export of it says that all was
-- written, and creates nothing.
pub export_again :
    (scan_int : List ℕ → Option ℤ) (a : Answers) (buf : List ℕ) (count : ℕ) (s : State)
    → scan_int buf ≡ some (pos s.gpio_led)
    → s.gpio_led ≤ 65
    → export_store scan_int a buf count (unexport_store count s).1
      ≡ done (pos count, (unexport_store count s).1)
unfolding export_store unexport_store
export_again scan_int a buf count s e small = rw e (ground arith)
