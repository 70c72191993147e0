-- ===== src/Iomodule/Session.antt =====
-- The device of 02-device-file/hello.c used again and again: each round opens the file, reads it once
-- into the application's buffer of 30 zeros, and closes it, as `read_data_chardev` of
-- 02-device-file/app-memory-read-write.c does.
use linux_programing_n_syste.Common.{
  ℕ, ◌∙◌, suc, ◌+◌, ◌^◌, ◌<◌, ◌≤◌, ◌≡◌, refl, arith, true, false, List, [], ◌∷◌, is_null, length,
  replicate,
}
use linux_programing_n_syste.Common.Decimal.{length-format_u32}
use linux_programing_n_syste.Kernel.{
  Outcome, done, buffer_overrun, null_access, Returns, Returns-map,
}
use linux_programing_n_syste.Kernel.Ledger.{length-remove, held, elem_head, remove_head}
use linux_programing_n_syste.Iomodule.{State, iomodule_open, iomodule_close}
use linux_programing_n_syste.Iomodule.Init.{read_write_iomodule_cleanup}
use linux_programing_n_syste.Iomodule.Rw.{Answers, Reply, pcd_read}
use linux_programing_n_syste.Iomodule.RwBounds.{adjust_lem, length-printed}
use linux_programing_n_syste.Iomodule.RwLeaks.{memory, mapped}

abbrev pub user_buff_size : ℕ
user_buff_size = 30

abbrev pub close_reply : Outcome Reply → Outcome State
close_reply (done r) = done (iomodule_close r.state)
close_reply buffer_overrun = buffer_overrun
close_reply null_access = null_access

unfoldable pub read_round : Answers → State → Outcome State
read_round a s =
    close_reply (pcd_read a user_buff_size 0 (replicate user_buff_size 0) (iomodule_open s))

abbrev next_round : Outcome State → (State → Outcome State) → Outcome State
next_round (done s) k = k s
next_round buffer_overrun k = buffer_overrun
next_round null_access k = null_access

unfoldable pub read_rounds : List Answers → State → Outcome State
read_rounds [] s = done s
read_rounds (a ∷ rest) s = next_round (read_round a s) (read_rounds rest)

-- The kernel gives what is asked for, and the register has 32 bits.
pub record Given (a : Answers) : Type 0 where
  pub buff : is_null a.kernel_buff ≡ false
  pub copied : is_null a.uncopied ≡ true
  pub ioaddr : is_null a.ioaddr ≡ false
  pub register : a.register < 2 ^ 32

abbrev pub AllGiven : List Answers → Type 0
AllGiven [] = Unit
AllGiven (a ∷ rest) = Given a × AllGiven rest

pub record Usable (s : State) : Type 0 where
  pub mem_addr : is_null s.drv.mem_addr ≡ false
  pub input_addr : is_null s.mem.input_addr ≡ false
  pub counted : s.drv.count < 2 ^ 32

-- What a number of rounds adds to the resources held.
pub record After (n : ℕ) (s t : State) : Type 0 where
  pub usable : Usable t
  pub same_count : t.drv.count ≡ s.drv.count
  pub more_mapped : length (mapped t) ≡ n + length (mapped s)
  pub same_memory : memory t ≡ memory s

read_round-After :
    (a : Answers) (s : State) → Given a → Usable s → Returns (read_round a s) (After 1 s)
unfolding read_round pcd_read iomodule_open iomodule_close held
read_round-After a s g u = ground (
  arith,
  adjust_lem 0 30,
  length-printed a.register,
  length-format_u32 10 a.register,
  elem_head a.kernel_buff (memory s),
  remove_head a.kernel_buff (memory s),
)

After-add : (n : ℕ) {s t u : State} → After 1 s t → After n t u → After (suc n) s u
After-add n p q = record {
  usable = q.usable;
  same_count = q.same_count ∙ p.same_count;
  more_mapped = omega (arith, p.more_mapped, q.more_mapped);
  same_memory = q.same_memory ∙ p.same_memory;
}

next_round-After :
    (n : ℕ) (o : Outcome State) (k : State → Outcome State) (s : State)
    → Returns o (After 1 s)
    → ((t : State) → Usable t → Returns (k t) (After n t))
    → Returns (next_round o k) (After (suc n) s)
next_round-After n (done t) k s h f = Returns-map (k t) (f t h.usable) (λ u q. After-add n h q)
next_round-After n buffer_overrun k s h f = h
next_round-After n null_access k s h f = h

-- Rounds of open, read and close, in which the kernel gives what is asked for, all return; they leave
-- the count of open files and the kernel buffers as they were, and each adds one mapping.
pub read_rounds-After :
    (rounds : List Answers) (s : State)
    → AllGiven rounds
    → Usable s
    → Returns (read_rounds rounds s) (After (length rounds) s)
unfolding read_rounds
read_rounds-After [] s g u = record {
  usable = u;
  same_count = refl;
  more_mapped = omega arith;
  same_memory = refl;
}
read_rounds-After (a ∷ rounds) s g u =
    next_round-After (length rounds) (read_round a s) (read_rounds rounds) s
      (read_round-After a s g.0 u) (λ t v. read_rounds-After rounds t g.1 v)

cleanup-mapped :
    (n : ℕ) (s t : State)
    → After n s t
    → Returns (read_write_iomodule_cleanup t) (λ u. n + length (mapped s) ≤ length (mapped u) + 1)
unfolding read_write_iomodule_cleanup held
cleanup-mapped n s t h =
    ground (arith, h.usable.mem_addr, h.more_mapped, length-remove t.drv.dev_ioaddr (mapped t))

-- The module's end after such rounds takes away at most one of the mappings.
pub cleanup_keeps_mappings :
    (rounds : List Answers) (s : State)
    → AllGiven rounds
    → Usable s
    → Returns (read_rounds rounds s) (λ t.
      Returns
        (read_write_iomodule_cleanup t)
        (λ u. length rounds + length (mapped s) ≤ length (mapped u) + 1))
cleanup_keeps_mappings rounds s g u =
    Returns-map (read_rounds rounds s) (read_rounds-After rounds s g u)
      (cleanup-mapped (length rounds) s)
