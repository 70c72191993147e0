-- ===== src/Iomodule/Typed.antt =====
-- The device of 02-device-file/hello.c as its application drives it: an address is written, and the
-- register at it is read.
use linux_programing_n_syste.Common.{
  ℕ, ◌⊎◌, suc, ◌+◌, ◌/◌, ◌^◌, ◌<◌, ◌≤◌, ◌≡◌, ◌∙◌, ap, arith, List, ◌∷◌, ◌++◌, is_null, length,
  replicate, take, take-all,
}
use linux_programing_n_syste.Common.Decimal.{value, length-format_u32}
use linux_programing_n_syste.Common.CString.{c_string, NoNul}
use linux_programing_n_syste.Common.Hex.{format_hex, length-format_hex, NoNul-format_hex}
use linux_programing_n_syste.Kernel.{
  Event, Outcome, done, buffer_overrun, null_access, Returns, Returns-map,
}
use linux_programing_n_syste.Iomodule.{State, prr_port_len, iomodule_open, iomodule_close}
use linux_programing_n_syste.Iomodule.Rw.{Answers, Parsed, converted, Reply, pcd_read, pcd_write}
use linux_programing_n_syste.Iomodule.RwBounds.{adjust_lem, length-printed}
use linux_programing_n_syste.Iomodule.RwText.{pcd_read-value}
use linux_programing_n_syste.Iomodule.RwWrite.{kernel_text-has_nul, kernel_text-eq_take}
use linux_programing_n_syste.Iomodule.Session.{Given, Usable, close_reply, user_buff_size}

-- `write_data_chardev` of the application: the text and its NUL stand at the start of its buffer.
unfoldable pub write_round : (List ℕ → Parsed) → Answers → List ℕ → List ℕ → State → Outcome State
write_round kstrtoul a text rest s =
    close_reply (pcd_write kstrtoul a (length text + 1) 0 (text ++ (0 ∷ rest)) (iomodule_open s))

-- The module after the write.
record Stored (v : ℕ) (s t : State) : Type 0 where
  address : t.input_cell ≡ v
  mem_addr : t.drv.mem_addr ≡ s.drv.mem_addr
  input_addr : t.mem.input_addr ≡ s.mem.input_addr
  same_count : t.drv.count ≡ s.drv.count

write_round-Stored :
    (kstrtoul : List ℕ → Parsed) (a : Answers) (text rest : List ℕ) (s : State) (v : ℕ)
    → Given a
    → Usable s
    → NoNul text
    → kstrtoul (take 9 text) ≡ converted v
    → Returns (write_round kstrtoul a text rest s) (Stored v s)
unfolding write_round pcd_write iomodule_open iomodule_close
write_round-Stored kstrtoul a text rest s v g u clean parsed = ground (
  arith,
  adjust_lem 0 (length text + 1),
  kernel_text-has_nul text rest,
  kernel_text-eq_take text rest clean,
)

-- A read by the application maps the stored address.
read-maps :
    (a : Answers) (s : State) (v : ℕ)
    → Given a
    → Usable s
    → s.input_cell ≡ suc v
    → Returns (pcd_read a user_buff_size 0 (replicate user_buff_size 0) (iomodule_open s)) (λ r.
      r.state.log
      ≡ Event.kfree a.kernel_buff
        ∷ Event.ioremap (suc v) prr_port_len a.ioaddr
        ∷ Event.kzalloc user_buff_size a.kernel_buff
        ∷ s.log)
unfolding pcd_read iomodule_open
read-maps a s v g u e =
    ground (arith, adjust_lem 0 30, length-printed a.register, length-format_u32 10 a.register)

Returns-both :
    (P Q : Reply → Type 0) (o : Outcome Reply)
    → Returns o P
    → Returns o Q
    → Returns o (λ r. P r × Q r)
Returns-both P Q (done r) p q = (p, q)
Returns-both P Q buffer_overrun p q = p
Returns-both P Q null_access p q = p

Usable-again : (s t : State) (v : ℕ) → Usable s → Stored v s t → Usable t
Usable-again s t v u h = record {
  mem_addr = ap is_null h.mem_addr ∙ u.mem_addr;
  input_addr = ap is_null h.input_addr ∙ u.input_addr;
  counted = omega (arith, u.counted, h.same_count);
}

abbrev pub ReadShows : Answers → ℕ → State → Type 0
ReadShows a v t =
    Returns (pcd_read a user_buff_size 0 (replicate user_buff_size 0) (iomodule_open t)) (λ r.
      (r.state.log
        ≡ Event.kfree a.kernel_buff
          ∷ Event.ioremap v prr_port_len a.ioaddr
          ∷ Event.kzalloc user_buff_size a.kernel_buff
          ∷ t.log)
      × (((a.register < 10 ^ 9) × (value (c_string r.user_buff) ≡ a.register))
          ⊎ ((10 ^ 9 ≤ a.register) × (value (c_string r.user_buff) ≡ a.register / 10))))

read-ReadShows :
    (a : Answers) (v : ℕ) (t : State)
    → Given a
    → Usable t
    → t.input_cell ≡ suc v
    → ReadShows a (suc v) t
unfolding iomodule_open
read-ReadShows a v t g u e =
    Returns-both _ _ (pcd_read a user_buff_size 0 (replicate user_buff_size 0) (iomodule_open t))
      (read-maps a t v g u e)
      (pcd_read-value a user_buff_size user_buff_size (iomodule_open t)
        (record {
          mem_addr = u.mem_addr;
          input_addr = u.input_addr;
          mapped = g.ioaddr;
          position = omega arith;
        })
        g.buff g.copied g.register (omega arith))

-- The application writes the hexadecimal text of an address other than 0 to the device and then reads
-- it: where the kernel gives what is asked for, and `kstrtoul` converts the text, the write returns,
-- and the read maps that address and gives the user the register's value, or its tenth part where the
-- value has ten digits.
pub typed_address_read :
    (kstrtoul : List ℕ → Parsed) (w a : Answers) (v : ℕ) (rest : List ℕ) (s : State)
    → kstrtoul (format_hex (suc v)) ≡ converted (suc v)
    → Given w
    → Given a
    → Usable s
    → Returns (write_round kstrtoul w (format_hex (suc v)) rest s) (ReadShows a (suc v))
typed_address_read kstrtoul w a v rest s converts given given' u =
    Returns-map (write_round kstrtoul w (format_hex (suc v)) rest s)
      (write_round-Stored kstrtoul w (format_hex (suc v)) rest s (suc v) given u
        (NoNul-format_hex (suc v))
        (ap kstrtoul (take-all 9 (format_hex (suc v)) (omega (arith, length-format_hex (suc v))))
          ∙ converts))
      (λ t h. read-ReadShows a v t given' (Usable-again s t (suc v) u h) h.address)
