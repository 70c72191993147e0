-- ===== src/Iomodule/RwWrite.antt =====
-- A text written to the device of 02-device-file/hello.c, as its application sends one: the bytes
-- of the text and its NUL.
use linux_programing_n_syste.Common.{
  ℕ, ◌⊎◌, zero, suc, ◌+◌, ◌<◌, ◌≡◌, ◌∙◌, ap, sym, refl, arith, true, false, List, [], ◌∷◌, ◌++◌,
  is_null, length, take, drop, replicate, overlay, take-all, length-take,
}
use linux_programing_n_syste.Common.Int.{success, pos, is_positive}
use linux_programing_n_syste.Common.CString.{
  c_string, has_nul, NoNul, has_nul-append, c_string-take, c_string-drop-replicate,
}
use linux_programing_n_syste.Kernel.{Event, Returns}
use linux_programing_n_syste.Kernel.Ledger.{held, elem_head, remove_head}
use linux_programing_n_syste.Iomodule.RwLeaks.{memory}
use linux_programing_n_syste.Iomodule.{State, prr_port_len}
use linux_programing_n_syste.Iomodule.Rw.{Answers, Parsed, converted, rejected, pcd_write}
use linux_programing_n_syste.Iomodule.RwBounds.{Ready, adjust_lem}
use native.Mathlib.Decide.{dec_le}
use Prim.Native.Nat.{min}

-- What `copy_from_user` leaves in the kernel buffer, over the zeros of `kzalloc`.
abbrev pub kernel_text : List ℕ → List ℕ → ℕ → List ℕ
kernel_text text rest n = overlay (take n (text ++ (0 ∷ rest))) (replicate (length text + 1) 0)

nul_inside :
    (n : ℕ) (text rest zs : List ℕ)
    → length text < n
    → has_nul (take n (text ++ (0 ∷ rest)) ++ zs) ≡ true
nul_inside zero text rest zs h = absurd (omega arith)
nul_inside (suc n) [] rest zs h = refl
nul_inside (suc n) (zero ∷ text) rest zs h = refl
nul_inside (suc n) (suc c ∷ text) rest zs h = nul_inside n text rest zs (omega arith)

nul_behind : (k n : ℕ) → k < n → has_nul (drop k (replicate n 0)) ≡ true
nul_behind k zero h = absurd (omega arith)
nul_behind zero (suc n) h = refl
nul_behind (suc k) (suc n) h = nul_behind k n (omega arith)

pub kernel_text-has_nul :
    (text rest : List ℕ) → has_nul (kernel_text text rest (min (length text + 1) 9)) ≡ true
kernel_text-has_nul text rest = elim (dec_le (length text + 1) 9) [
  | yes short ↦ nul_inside (min (length text + 1) 9) text rest _ (omega arith)
  | no long ↦ has_nul-append (take (min (length text + 1) 9) (text ++ (0 ∷ rest))) _ (
      nul_behind _ (length text + 1)
        (omega (arith, length-take {0} (min (length text + 1) 9) (text ++ (0 ∷ rest)))))
]

take_of_eq : {n m : ℕ} (xs : List ℕ) → n ≡ m → take n xs ≡ take m xs
take_of_eq xs e = ap (λ k. take k xs) e

pub kernel_text-eq_take :
    (text rest : List ℕ)
    → NoNul text
    → c_string (kernel_text text rest (min (length text + 1) 9)) ≡ take 9 text
kernel_text-eq_take text rest h =
    c_string-take (min (length text + 1) 9) text rest _ h
      (c_string-drop-replicate _ (length text + 1))
    ∙ elim (dec_le (length text + 1) 9) [
      | yes short ↦
          take-all (min (length text + 1) 9) text (omega arith)
          ∙ sym (take-all 9 text (omega arith))
      | no long ↦ take_of_eq {n = min (length text + 1) 9} {m = 9} text (omega arith)
    ]

-- A text whose first nine characters convert to `v` makes `v` the address of the next readings: it is
-- stored, mapped, and its register is read.
pub pcd_write-stores :
    (kstrtoul : List ℕ → Parsed) (a : Answers) (text rest : List ℕ) (s : State) (v : ℕ)
    → Ready a 0 s
    → is_null a.kernel_buff ≡ false
    → is_null a.uncopied ≡ true
    → NoNul text
    → kstrtoul (take 9 text) ≡ converted v
    → Returns (pcd_write kstrtoul a (length text + 1) 0 (text ++ (0 ∷ rest)) s) (λ r.
      (r.ret ≡ success)
      × (r.state.input_cell ≡ v)
      × (r.state.mem.output_val ≡ a.register)
      × (r.f_pos ≡ min (length text + 1) 9)
      × (r.state.log
          ≡ Event.kfree a.kernel_buff
            ∷ Event.ioremap v prr_port_len a.ioaddr
            ∷ Event.kzalloc (length text + 1) a.kernel_buff
            ∷ s.log))
unfolding pcd_write
pcd_write-stores kstrtoul a text rest s v h buff copied clean parsed = ground (
  arith,
  adjust_lem 0 (length text + 1),
  kernel_text-has_nul text rest,
  kernel_text-eq_take text rest clean,
)

-- A text whose first nine characters do not convert is answered with a positive number, the error's,
-- where the kernel expects a count of bytes; the stored address stays, and the kernel buffer is kept.
pub pcd_write-rejects :
    (kstrtoul : List ℕ → Parsed) (a : Answers) (text rest : List ℕ) (s : State) (e : ℕ)
    → Ready a 0 s
    → is_null a.kernel_buff ≡ false
    → is_null a.uncopied ≡ true
    → NoNul text
    → kstrtoul (take 9 text) ≡ rejected e
    → Returns (pcd_write kstrtoul a (length text + 1) 0 (text ++ (0 ∷ rest)) s) (λ r.
      (r.ret ≡ pos (suc e))
      × (r.state.input_cell ≡ s.input_cell)
      × ((held r.state.log).memory ≡ a.kernel_buff ∷ (held s.log).memory))
unfolding pcd_write held
pcd_write-rejects kstrtoul a text rest s e h buff copied clean parsed = ground (
  arith,
  adjust_lem 0 (length text + 1),
  kernel_text-has_nul text rest,
  kernel_text-eq_take text rest clean,
)

-- Of a text that gets a kernel buffer, `pcd_write` keeps that buffer exactly when it returns a
-- positive number; on its other branches (0, -EFAULT) the buffer is free again.
pub pcd_write-memory :
    (kstrtoul : List ℕ → Parsed) (a : Answers) (text rest : List ℕ) (s : State)
    → is_null s.drv.mem_addr ≡ false
    → is_null s.mem.input_addr ≡ false
    → is_null a.kernel_buff ≡ false
    → Returns (pcd_write kstrtoul a (length text + 1) 0 (text ++ (0 ∷ rest)) s) (λ r.
      ((is_positive r.ret ≡ true) × (memory r.state ≡ a.kernel_buff ∷ memory s))
      ⊎ ((is_positive r.ret ≡ false) × (memory r.state ≡ memory s)))
unfolding pcd_write held
pcd_write-memory kstrtoul a text rest s m i buff = ground (
  arith,
  adjust_lem 0 (length text + 1),
  kernel_text-has_nul text rest,
  elem_head a.kernel_buff (memory s),
  remove_head a.kernel_buff (memory s),
)
