-- ===== src/Iomodule/RwBounds.antt =====
-- The bounds that `pcd_read` and `pcd_write` of 02-device-file/hello.c keep: the adjusted count, the
-- file position, and the kernel buffer.
use linux_programing_n_syste.Common.{
  ℕ, ◌+◌, ◌-◌, ◌≤◌, ◌<◌, ◌≡◌, ◌⊎◌, inl, inr, arith, false, List, ltb, is_null, Bool-cases, length,
  length-append,
}
use linux_programing_n_syste.Common.Int.{success, neg_enomem, neg_efault}
use linux_programing_n_syste.Common.Decimal.{format_u32}
use linux_programing_n_syste.Kernel.{buffer_overrun, Returns}
use linux_programing_n_syste.Iomodule.{State, data_transmit}
use linux_programing_n_syste.Iomodule.Rw.{Answers, Parsed, adjust, printed, pcd_read, pcd_write}
use Prim.Native.Nat.{min}

-- The adjusted count is what is left of the nine bytes, and never more than was asked for.
pub adjust_lem : (f_pos count : ℕ) → f_pos ≤ 9 → adjust f_pos count ≡ min count (9 - f_pos)
unfolding adjust
adjust_lem f_pos count h = elim (Bool-cases (ltb data_transmit (f_pos + count))) [
  | inl over ↦ rw over (ground arith)
  | inr fits ↦ rw fits (ground arith)
]

pub length-printed : (v : ℕ) → length (printed v) ≡ length (format_u32 v) + 2
unfolding printed
length-printed v = length-append (format_u32 v) _

-- The driver is loaded and its two blocks are allocated; the position is one that it has set.
pub record Ready (a : Answers) (f_pos : ℕ) (s : State) : Type 0 where
  pub mem_addr : is_null s.drv.mem_addr ≡ false
  pub input_addr : is_null s.mem.input_addr ≡ false
  pub mapped : is_null a.ioaddr ≡ false
  pub position : f_pos ≤ 9

-- With a kernel buffer that holds the register's text and two more bytes, `pcd_read` returns on
-- every branch, with 0, -ENOMEM or -EFAULT, and leaves the position within the nine bytes.
pub pcd_read_bounds :
    (a : Answers) (count f_pos : ℕ) (user : List ℕ) (s : State)
    → Ready a f_pos s
    → length (format_u32 a.register) + 2 ≤ count
    → Returns
        (pcd_read a count f_pos user s)
        (λ r. (r.f_pos ≤ 9) × ((r.ret ≡ success) ⊎ (r.ret ≡ neg_enomem) ⊎ (r.ret ≡ neg_efault)))
unfolding pcd_read
pcd_read_bounds a count f_pos user s h room =
    ground (arith, adjust_lem f_pos count, length-printed a.register)

-- With a smaller buffer, `sprintf` and the byte stored behind its NUL write past the end of it,
-- unless `pcd_read` returns before it reads the register.
pub pcd_read_overruns :
    (a : Answers) (count f_pos : ℕ) (user : List ℕ) (s : State)
    → Ready a f_pos s
    → f_pos < 9
    → is_null a.kernel_buff ≡ false
    → 0 < count
    → count < length (format_u32 a.register) + 2
    → pcd_read a count f_pos user s ≡ buffer_overrun
unfolding pcd_read
pcd_read_overruns a count f_pos user s h below buff some short =
    ground (arith, adjust_lem f_pos count, length-printed a.register)

-- At the end of the nine bytes both functions answer -ENOMEM to every request,
-- move nothing and leave the position and the stored address.
pub end_of_data-enomem :
    (kstrtoul : List ℕ → Parsed) (a : Answers) (count : ℕ) (user : List ℕ) (s : State)
    → Returns
        (pcd_read a count 9 user s)
        (λ r. (r.ret ≡ neg_enomem) × (r.f_pos ≡ 9) × (r.user_buff ≡ user))
      × Returns
          (pcd_write kstrtoul a count 9 user s)
          (λ r. (r.ret ≡ neg_enomem) × (r.f_pos ≡ 9) × (r.state.input_cell ≡ s.input_cell))
unfolding pcd_read pcd_write
end_of_data-enomem kstrtoul a count user s =
    (ground (arith, adjust_lem 9 count), ground (arith, adjust_lem 9 count))
