-- ===== src/Iomodule/InitLaws.antt =====
-- What `read_write_IOmodule_init` of 02-device-file/hello.c leaves held when it ends, on each way
-- through its cleanup chain, what it returns, and what the module's end then does.
use linux_programing_n_syste.Common.{ℕ, zero, suc, ◌≡◌, refl, ◌⊎◌, ◌≢◌, true, false, arith}
use linux_programing_n_syste.Common.Int.{ℤ, pos, negsuc, success, is_negative}
use linux_programing_n_syste.Kernel.{
  DevicePtr, device, err_ptr, is_err, Outcome, null_access, Returns,
}
use linux_programing_n_syste.Kernel.Ledger.{nothing, held, heads}
use linux_programing_n_syste.Iomodule.Init.{
  Answers, Result, loaded, read_write_iomodule_init, read_write_iomodule_cleanup,
}

-- Every call of the init function up to the `cdev_add` succeeds.
pub record DeviceCreated (a : Answers) : Type 0 where
  pub region : is_negative a.alloc_ret ≡ false
  pub class : a.class_ptr ≢ 0
  pub device : is_err a.device_ptr ≡ false
  pub cdev : a.cdev_ptr ≢ 0

-- Some call fails that the function tests, other than `cdev_add`.
abbrev pub Fails : Answers → Type 0
Fails a =
    (is_negative a.alloc_ret ≡ true)
    ⊎ (a.class_ptr ≡ 0)
    ⊎ (is_err a.device_ptr ≡ true)
    ⊎ (a.mem_ptr ≡ 0)
    ⊎ (a.input_ptr ≡ 0)

-- The load of the module: the init function over the globals of a module just loaded.
abbrev pub load : Answers → Outcome Result
load a = read_write_iomodule_init a loaded

-- The answers, one by one, so that the cases are clauses.
abbrev answers : ℤ → ℕ → DevicePtr → ℕ → ℤ → ℕ → ℕ → (num ioaddr register : ℕ) → Answers
answers r c d p k m i num ioaddr register = record {
  alloc_ret = r;
  dev_num = num;
  class_ptr = c;
  device_ptr = d;
  cdev_ptr = p;
  cdev_add_ret = k;
  mem_ptr = m;
  input_ptr = i;
  ioaddr = ioaddr;
  register = register;
}

module _ (num ioaddr register : ℕ) where
  failure_cases :
      (r : ℤ) (c : ℕ) (d : DevicePtr) (p : ℕ) (k : ℤ) (m i : ℕ)
      → let a = answers r c d p k m i num ioaddr register in
        p ≢ 0 → is_negative k ≡ false → Fails a → Returns (load a) (λ r. held r.1.log ≡ nothing)
  unfolding read_write_iomodule_init held
  failure_cases (negsuc e) c d p k m i q h f = refl
  failure_cases (pos n) zero d p k m i q h f = refl
  failure_cases (pos n) (suc c) (err_ptr e) p k m i q h f = refl
  failure_cases (pos n) (suc c) (device d) zero k m i q h f = absurd (q refl)
  failure_cases (pos n) (suc c) (device d) (suc p) (negsuc k) m i q h f = cc
  failure_cases (pos n) (suc c) (device d) (suc p) (pos k) zero i q h f = refl
  failure_cases (pos n) (suc c) (device d) (suc p) (pos k) (suc m) zero q h f = simp heads
  failure_cases (pos n) (suc c) (device d) (suc p) (pos k) (suc m) (suc i) q h f = ground arith

  leak_cases :
      (r : ℤ) (c : ℕ) (d : DevicePtr) (p : ℕ) (k : ℤ) (m i : ℕ)
      → let a = answers r c d p k m i num ioaddr register in
        DeviceCreated a
        → is_negative k ≡ true
        → Returns (load a) (λ r. (r.0 ≡ k) × (held r.1.log ≡ record nothing { cdev = true }))
  unfolding read_write_iomodule_init held
  leak_cases (negsuc e) c d p k m i q h = ground arith
  leak_cases (pos n) zero d p k m i q h = absurd (q.class refl)
  leak_cases (pos n) (suc c) (err_ptr e) p k m i q h = ground arith
  leak_cases (pos n) (suc c) (device d) zero k m i q h = absurd (q.cdev refl)
  leak_cases (pos n) (suc c) (device d) (suc p) (pos k) m i q h = cc
  leak_cases (pos n) (suc c) (device d) (suc p) (negsuc k) m i q h = (refl, refl)

  false_success_cases :
      (r : ℤ) (c : ℕ) (d : DevicePtr) (p : ℕ) (k : ℤ) (m i : ℕ)
      → let a = answers r c d p k m i num ioaddr register in
        r ≡ success
        → (c ≡ 0) ⊎ (is_err d ≡ true)
        → Returns (load a) (λ r.
          (r.0 ≡ success)
          × (held r.1.log ≡ nothing)
          × (read_write_iomodule_cleanup r.1 ≡ null_access))
  unfolding read_write_iomodule_init read_write_iomodule_cleanup held
  false_success_cases (negsuc e) c d p k m i q h = cc
  false_success_cases (pos n) zero d p k m i q h = (q, refl, refl)
  false_success_cases (pos n) (suc c) (err_ptr e) p k m i q h = (q, refl, refl)
  false_success_cases (pos n) (suc c) (device d) p k m i q h = ground arith

full_load :
    (num register n c d p k m i x : ℕ)
    → let a =
        answers (pos n) (suc c) (device d) (suc p) (pos k) (suc m) (suc i) num (suc x) register in
      Returns (load a) (λ r.
        (r.0 ≡ success) × Returns (read_write_iomodule_cleanup r.1) (λ s. held s.log ≡ nothing))
unfolding read_write_iomodule_init read_write_iomodule_cleanup held
full_load num register n c d p k m i x = (refl, simp heads)

full_cases :
    (num register : ℕ) (r : ℤ) (c : ℕ) (d : DevicePtr) (p : ℕ) (k : ℤ) (m i ioaddr : ℕ)
    → let a = answers r c d p k m i num ioaddr register in
      DeviceCreated a
      → is_negative k ≡ false
      → m ≢ 0
      → i ≢ 0
      → ioaddr ≢ 0
      → Returns (load a) (λ r.
        (r.0 ≡ success) × Returns (read_write_iomodule_cleanup r.1) (λ s. held s.log ≡ nothing))
full_cases num g (negsuc e) c d p k m i x q h _ _ _ = absurd (ground (arith, q.region))
full_cases num g (pos n) zero d p k m i x q h _ _ _ = absurd (q.class refl)
full_cases num g (pos n) (suc c) (err_ptr e) p k m i x q h _ _ _ = absurd (ground (arith, q.device))
full_cases num g (pos n) (suc c) (device d) zero k m i x q h _ _ _ = absurd (q.cdev refl)
full_cases num g (pos n) (suc c) (device d) (suc p) (negsuc k) m i x q h _ _ _ = cc
full_cases num g (pos n) (suc c) (device d) (suc p) (pos k) zero i x q h v _ _ = absurd (v refl)
full_cases num g (pos n) (suc c) (device d) (suc p) (pos k) (suc m) zero x q h _ v _ =
    absurd (v refl)
full_cases num g (pos n) (suc c) (device d) (suc p) (pos k) (suc m) (suc i) zero q h _ _ v =
    absurd (v refl)
full_cases num g (pos n) (suc c) (device d) (suc p) (pos k) (suc m) (suc i) (suc x) q h _ _ v =
    full_load num g n c d p k m i x

-- A load in which the function meets a failed call other than that of `cdev_add` ends with nothing
-- held, if the character device could be allocated (`cdev_alloc` is not tested).
pub init_failure_releases :
    (a : Answers)
    → a.cdev_ptr ≢ 0
    → is_negative a.cdev_add_ret ≡ false
    → Fails a
    → Returns (load a) (λ r. held r.1.log ≡ nothing)
init_failure_releases a =
    failure_cases a.dev_num a.ioaddr a.register a.alloc_ret a.class_ptr a.device_ptr a.cdev_ptr
      a.cdev_add_ret a.mem_ptr a.input_ptr

-- A load in which `cdev_add` fails, after all before it succeeded, returns its error and leaves the
-- allocated character device held, and nothing else.
pub init_cdev_add_leaks :
    (a : Answers)
    → DeviceCreated a
    → is_negative a.cdev_add_ret ≡ true
    → Returns
        (load a)
        (λ r. (r.0 ≡ a.cdev_add_ret) × (held r.1.log ≡ record nothing { cdev = true }))
init_cdev_add_leaks a =
    leak_cases a.dev_num a.ioaddr a.register a.alloc_ret a.class_ptr a.device_ptr a.cdev_ptr
      a.cdev_add_ret a.mem_ptr a.input_ptr

-- If every call succeeds the load returns 0, and the module's end then returns and has released each
-- resource that the load acquired, once.
pub init_cleanup_releases :
    (a : Answers)
    → DeviceCreated a
    → is_negative a.cdev_add_ret ≡ false
    → a.mem_ptr ≢ 0
    → a.input_ptr ≢ 0
    → a.ioaddr ≢ 0
    → Returns (load a) (λ r.
      (r.0 ≡ success) × Returns (read_write_iomodule_cleanup r.1) (λ s. held s.log ≡ nothing))
init_cleanup_releases a =
    full_cases a.dev_num a.register a.alloc_ret a.class_ptr a.device_ptr a.cdev_ptr a.cdev_add_ret
      a.mem_ptr a.input_ptr a.ioaddr

-- Where the device number is given and the class or the device file is not, the load has released
-- all and yet returns 0, success; the module's end then reads through the NULL `mem_addr`.
pub init_reports_false_success :
    (a : Answers)
    → a.alloc_ret ≡ success
    → (a.class_ptr ≡ 0) ⊎ (is_err a.device_ptr ≡ true)
    → Returns (load a) (λ r.
      (r.0 ≡ success) × (held r.1.log ≡ nothing) × (read_write_iomodule_cleanup r.1 ≡ null_access))
init_reports_false_success a =
    false_success_cases a.dev_num a.ioaddr a.register a.alloc_ret a.class_ptr a.device_ptr
      a.cdev_ptr a.cdev_add_ret a.mem_ptr a.input_ptr
