-- ===== src/OldIomodule/FirstAccess.antt =====
-- A session of the older application ends with its first access to the register.
use linux_programing_n_syste.Common.{
  ℕ, ◌+◌, ◌≡◌, refl, arith, Bool-cases, inl, inr, true, false, is_null, List, [], ◌∷◌, ◌++◌, length,
  leb, overlay,
}
use linux_programing_n_syste.Common.Int.{ℤ, is_negative, minus_one}
use linux_programing_n_syste.Common.CString.{c_string}
use linux_programing_n_syste.Kernel.{Outcome, done, buffer_overrun, null_access, and_then}
use linux_programing_n_syste.Iomodule.{State, iomodule_open, iomodule_close}
use linux_programing_n_syste.Iomodule.Init.{Answers, loaded}
use linux_programing_n_syste.Iomodule.Rw.{Parsed, converted, adjust}
use linux_programing_n_syste.OldIomodule.{Device}
use linux_programing_n_syste.OldIomodule.Init.{read_write_iomodule_init, with_block}
use linux_programing_n_syste.OldIomodule.Overrun.{
  received_text, Faults, read-Faults, write-Faults, started_past,
}
use linux_programing_n_syste.OldIomodule.Session.{
  App, Choice, open_node, close_node, quit, other, read_node, write_node, Kernel, continues,
  open_chardev, close_chardev, read_data_chardev, write_data_chardev, turn, main_loop, buff_size,
  with_state, say, already_opened, not_opened,
}

-- `output_val` points behind the block.
record Past (d : Device) : Type 0 where
  output_val : d.iomodule.mem.output_val ≡ d.iomodule.mem.input_addr + 32
  size : length d.rest ≡ 2

-- A turn that does not get to the register: the node is opened or closed, or the choice is no option.
abbrev pub Harmless : Kernel → Choice → Type 0
Harmless k open_node = is_negative k.opened ≡ false
Harmless k close_node = Unit
Harmless k quit = ⊥
Harmless k other = Unit
Harmless k (read_node held) = ⊥
Harmless k (write_node held text) = ⊥

abbrev pub AllHarmless : List (Kernel × Choice) → Type 0
AllHarmless [] = Unit
AllHarmless ((k, c) ∷ rest) = Harmless k c × AllHarmless rest

-- What the application hands to `write`: the line over what its buffer held.
abbrev pub line_buffer : List ℕ → List ℕ → List ℕ
line_buffer held text = overlay (text ++ (0 ∷ [])) held

-- A read, or a write in which the driver's text converts to a number.
abbrev pub Accesses : (List ℕ → Parsed) → Choice → Type 0
Accesses kstrtoul (read_node held) = Unit
Accesses kstrtoul (write_node held text) =
    let user = line_buffer held text in
    (v : ℕ) × (kstrtoul (received_text (length (c_string user) + 1) 0 user) ≡ converted v)
Accesses kstrtoul _ = ⊥

-- The kernel gives what is asked for.
pub record Given (k : Kernel) : Type 0 where
  pub opened : is_negative k.opened ≡ false
  pub buff : is_null k.calls.kernel_buff ≡ false
  pub copied : is_null k.calls.uncopied ≡ true
  pub mapped : is_null k.calls.ioaddr ≡ false

Faults-and_then :
    {A B : Type 0} (o : Outcome A) (f : A → Outcome B) → Faults o → Faults (and_then o f)
Faults-and_then (done r) f h = absurd h
Faults-and_then buffer_overrun f h = tt
Faults-and_then null_access f h = tt

some_bytes : (n : ℕ) → is_null (adjust 0 (n + 1)) ≡ false
unfolding adjust
some_bytes n = ground arith

open-Past : (d : Device) → Past d → Past (record d { iomodule = iomodule_open d.iomodule })
unfolding iomodule_open
open-Past d p = record { output_val = p.output_val; size = p.size }

close-Past : (d : Device) → Past d → Past (record d { iomodule = iomodule_close d.iomodule })
unfolding iomodule_close
close-Past d p = record { output_val = p.output_val; size = p.size }

module _ (kstrtoul : List ℕ → Parsed) where
  Harmless-Past :
      (k : Kernel) (c : Choice) (a : App)
      → Harmless k c
      → Past a.device
      → (b : App) × (turn kstrtoul k c a ≡ done (continues b)) × Past b.device
  unfolding turn open_chardev close_chardev
  Harmless-Past k open_node a h p = elim (Bool-cases (is_negative a.fd)) [
    | inl closed ↦ (
      record (with_state iomodule_open a) { fd = k.opened },
      rw closed (rw h refl),
      open-Past a.device p,
    )
    | inr opened ↦ (say already_opened a, rw opened refl, p)
  ]
  Harmless-Past k close_node a h p = elim (Bool-cases (is_negative a.fd)) [
    | inl closed ↦ (record (say not_opened a) { fd = minus_one }, rw closed refl, p)
    | inr opened ↦ (
      record (with_state iomodule_close a) { fd = minus_one },
      rw opened refl,
      close-Past a.device p,
    )
  ]
  Harmless-Past k quit a h p = absurd h
  Harmless-Past k other a h p = (_, refl, p)
  Harmless-Past k (read_node held) a h p = absurd h
  Harmless-Past k (write_node held text) a h p = absurd h

  access-Faults :
      (k : Kernel) (c : Choice) (a : App)
      → Accesses kstrtoul c
      → Given k
      → Past a.device
      → Faults (turn kstrtoul k c a)
  unfolding turn read_data_chardev write_data_chardev open_chardev
  access-Faults k (read_node held) a h g p = rw g.opened (
      Faults-and_then _ _ (
        read-Faults k.calls k.core_register buff_size 0 held _ g.buff (some_bytes 49)
          (open-Past a.device p).output_val (open-Past a.device p).size))
  access-Faults k (write_node held text) a h g p =
      let user = line_buffer held text in
      let q = open-Past a.device p in
      rw g.opened (elim (Bool-cases (leb buff_size (length text))) [
        | inl long ↦ rw long tt
        | inr short ↦ rw short (
            Faults-and_then _ _ (
              write-Faults kstrtoul k.calls (length (c_string user) + 1) 0 user _ g.buff
                (some_bytes (length (c_string user))) g.copied g.mapped h q.output_val q.size))
      ])
  access-Faults k open_node a h g p = absurd h
  access-Faults k close_node a h g p = absurd h
  access-Faults k quit a h g p = absurd h
  access-Faults k other a h g p = absurd h

  session-Faults :
      (before after : List (Kernel × Choice)) (k : Kernel) (c : Choice) (a : App)
      → AllHarmless before
      → Accesses kstrtoul c
      → Given k
      → Past a.device
      → Faults (main_loop kstrtoul (before ++ ((k, c) ∷ after)) a)
  unfolding main_loop
  session-Faults [] after k c a h access g p = Faults-and_then _ _ (access-Faults k c a access g p)
  session-Faults ((j, d) ∷ before) after k c a (h, hs) access g p =
      let (b, e, q) = Harmless-Past j d a h p in
      rw e (session-Faults before after k c b hs access g q)

-- Once the module has started and has its memory, the first read or write of a session of the
-- application does not come back, where the kernel gives what is asked for and the text that a write
-- hands to the driver converts to a number: whatever is opened, closed or chosen by mistake before, the
-- run ends in a fault.
pub first_access-Faults :
    (a : Answers) (ret : ℤ) (s : State) (kstrtoul : List ℕ → Parsed)
    (before after : List (Kernel × Choice)) (k : Kernel) (c : Choice) (fd : ℤ)
    → read_write_iomodule_init a loaded ≡ done (ret, s)
    → is_negative ret ≡ false
    → is_null s.drv.mem_addr ≡ false
    → AllHarmless before
    → Accesses kstrtoul c
    → Given k
    → Faults (
        main_loop kstrtoul
          (before ++ ((k, c) ∷ after))
          (record { fd = fd; device = with_block s; printed = [] }))
first_access-Faults a ret s kstrtoul before after k c fd started well there h access g =
    session-Faults kstrtoul before after k c _ h access g
      (record { output_val = started_past a ret s started well there; size = refl })
