-- ===== src/Iomodule/RwLeaks.antt =====
-- Which kernel buffers and mappings `pcd_read` and `pcd_write` of 02-device-file/hello.c keep.
use linux_programing_n_syste.Common.{
  ℕ, ◌+◌, ◌≤◌, ◌<◌, ◌≡◌, ◌≢◌, ◌⊎◌, arith, false, List, ◌∷◌, is_null, length,
}
use linux_programing_n_syste.Common.Int.{success}
use linux_programing_n_syste.Common.Decimal.{format_u32}
use linux_programing_n_syste.Kernel.{Returns}
use linux_programing_n_syste.Kernel.Ledger.{held, elem_head, remove_head}
use linux_programing_n_syste.Iomodule.{State}
use linux_programing_n_syste.Iomodule.Rw.{Answers, pcd_read}
use linux_programing_n_syste.Iomodule.RwBounds.{Ready, adjust_lem, length-printed}

abbrev pub memory : State → List ℕ
memory s = (held s.log).memory

abbrev pub mapped : State → List ℕ
mapped s = (held s.log).mapped

module _ (a : Answers) (count f_pos : ℕ) (user : List ℕ) (s : State) (ready : Ready a f_pos s)
    (buff : is_null a.kernel_buff ≡ false) (some_bytes : is_null count ≡ false) where
  -- `pcd_read` frees its kernel buffer exactly when it returns 0: on its other branches, -ENOMEM at the
  -- end of the data and -EFAULT, the buffer stays allocated.
  pub pcd_read-memory :
      length (format_u32 a.register) + 2 ≤ count
      → Returns (pcd_read a count f_pos user s) (λ r.
        ((r.ret ≡ success) × (memory r.state ≡ memory s))
        ⊎ ((r.ret ≢ success) × (memory r.state ≡ a.kernel_buff ∷ memory s)))
  unfolding pcd_read held
  pcd_read-memory room = ground (
    arith,
    adjust_lem f_pos count,
    length-printed a.register,
    elem_head a.kernel_buff (memory s),
    remove_head a.kernel_buff (memory s),
  )

  -- Every reading of the register adds a mapping, and no operation on the file takes one away.
  pub pcd_read-mapped :
      length (format_u32 a.register) + 2 ≤ count
      → f_pos < 9
      → Returns (pcd_read a count f_pos user s) (λ r. (mapped r.state ≡ a.ioaddr ∷ mapped s))
  unfolding pcd_read held
  pcd_read-mapped room below = ground (arith, adjust_lem f_pos count, length-printed a.register)
