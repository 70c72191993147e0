-- ===== src/ButtonLed/Lamp.antt =====
-- What the application and the button of 03-button-led make of the LED: a session of them against a
-- lamp that knows what it shows, what the button last made of it, and whether the device is open.
use linux_programing_n_syste.Common.{
  ℕ, ◌+◌, ◌-◌, ◌^◌, ◌≤◌, ◌<◌, ◌≡◌, refl, ◌∙◌, arith, Bool, true, false, not, if◌then◌else◌, is_null,
  List, [], ◌∷◌, ◌++◌, length, replicate, drop, suc, zero, leb, overlay, inl, inr, Bool-cases,
}
use linux_programing_n_syste.Common.Int.{is_negative, ℤ, pos, negsuc}
use linux_programing_n_syste.Common.CString.{
  NoNul, c_string, has_nul, c_string-append, has_nul-append, has_nul-text, c_string-text,
}
use linux_programing_n_syste.Kernel.{Event, Outcome, Returns, Returns-and_then}
use linux_programing_n_syste.Gpio.{Bank, Documented}
use linux_programing_n_syste.ButtonLed.{
  Module, led_on, led_off, btn_pushed_irq_handler, iomodule_open, iomodule_close,
}
use linux_programing_n_syste.ButtonLed.Led.{led, irq_handler-InSync, led_on-pin, led_off-pin}
use linux_programing_n_syste.ButtonLed.Rw.{
  Parsed, converted, rejected, switch_led, write_log, iomodule_write, Answers,
}
use linux_programing_n_syste.ButtonLed.RwLaws.{level}
use linux_programing_n_syste.ButtonLed.Session.{
  Message, Happening, chosen, pushed, open_node, close_node, read_node, quit, other, write_node,
  App, Turn, continues, exits, happens, main_loop, follow, report, sent, buff_size,
  write_data_chardev, close_chardev, open_chardev,
}
use mathlib.Core.List.{append_assoc, append-nil}

pub record Lamp : Type 0 where
  pub lit : ℕ
  pub toggle : ℕ
  pub held : Bool

abbrev pub lamp_line : Parsed → Lamp → Lamp
lamp_line (converted on) l = record l { lit = level on }
lamp_line (rejected e) l = l

-- A number that is typed sets the lamp and not the toggle, and the button sets both.
abbrev pub lamp_after : (List ℕ → Parsed) → Happening → Lamp → Lamp
lamp_after kstrtoint (chosen fd k open_node) l = record l { held = true }
lamp_after kstrtoint (chosen fd k close_node) l = record l { held = false }
lamp_after kstrtoint (chosen fd k read_node) l = l
lamp_after kstrtoint (chosen fd k quit) l = record l { held = false }
lamp_after kstrtoint (chosen fd k other) l = l
lamp_after kstrtoint (chosen fd k (write_node text)) l = lamp_line (kstrtoint text) l
lamp_after kstrtoint pushed l = record l { lit = 1 - l.toggle; toggle = 1 - l.toggle }

abbrev pub lamps : (List ℕ → Parsed) → List Happening → Lamp → Lamp
lamps kstrtoint [] l = l
lamps kstrtoint (h ∷ hs) l = lamps kstrtoint hs (lamp_after kstrtoint h l)

-- The calls succeed, a line has at most 29 characters, and nothing is read.
abbrev pub Good : Happening → Type 0
Good (chosen fd k open_node) = is_negative fd ≡ false
Good (chosen fd k close_node) = Unit
Good (chosen fd k read_node) = ⊥
Good (chosen fd k quit) = ⊥
Good (chosen fd k other) = Unit
Good (chosen fd k (write_node text)) =
    (is_negative fd ≡ false)
    × (is_null k.kernel_buff ≡ false)
    × (is_null k.uncopied ≡ true)
    × NoNul text
    × (length text ≤ 29)
Good pushed = Unit

abbrev pub AllGood : List Happening → Type 0
AllGood [] = Unit
AllGood (h ∷ hs) = Good h × AllGood hs

-- The application goes on, as `P` says.
module _ (b : Bank) where
  abbrev pub Continues : Turn b → (App b → Type 0) → Type 0
  Continues (continues a) P = P a
  Continues (exits code a) P = ⊥

module _ (b : Bank) (doc : Documented b) where
  -- The application stands for the lamp, with `n` the other users of the device.
  pub record Matches (n : ℕ) (l : Lamp) (a : App b) : Type 0 where
    pub lit : led b doc a.driver ≡ l.lit
    pub toggle : a.driver.state ≡ l.toggle
    pub flag : l.toggle ≤ 1
    pub fd : is_negative a.fd ≡ not l.held
    pub counted : a.driver.drv.count ≡ n + (if l.held then 1 else 0)

  -- What a write leaves of the driver.
  record Written (m : Module b) (p : Parsed) (t : Module b) : Type 0 where
    lit : led b doc t ≡ (lamp_line p (record { lit = led b doc m; toggle = 0; held = false })).lit
    same_state : t.state ≡ m.state
    same_count : t.drv.count ≡ m.drv.count

  switch_led-Written :
      (p : Parsed) (k : Answers) (user : List ℕ) (m : Module b)
      → Written m p (switch_led b p k user m).state
  unfolding switch_led
  switch_led-Written (converted true) k user m = record {
    lit = (led_on-pin b doc 30 m).0;
    same_state = refl;
    same_count = refl;
  }
  switch_led-Written (converted false) k user m = record {
    lit = led_off-pin b doc 30 m;
    same_state = refl;
    same_count = refl;
  }
  switch_led-Written (rejected e) k user m = record {
    lit = refl;
    same_state = refl;
    same_count = refl;
  }

  -- A text in a longer buffer is written up to its NUL.
  iomodule_write-Written :
      (kstrtoint : List ℕ → Parsed) (k : Answers) (text rest : List ℕ) (m : Module b)
      → is_null k.kernel_buff ≡ false
      → is_null k.uncopied ≡ true
      → NoNul text
      → Returns
          (iomodule_write b kstrtoint k (length text + 1) (text ++ (0 ∷ rest)) m)
          (λ reply. Written m (kstrtoint text) reply.state)
  unfolding iomodule_write
  iomodule_write-Written kstrtoint k text rest m buff copied clean = ground (
    arith,
    has_nul-text text rest,
    c_string-text text rest clean,
    switch_led-Written (kstrtoint text) k (text ++ (0 ∷ rest))
        (write_log b (Event.kzalloc (length text + 1) k.kernel_buff) m),
  )

  -- Whatever is reported, the application goes on with its driver.
  report-goes_on :
      (ret : ℤ) (well : List ℕ → Message) (user : List ℕ) (a : App b) (P : App b → Type 0)
      → has_nul user ≡ true
      → ((printed : List Message) → P (record a { printed = printed }))
      → Returns (report b ret well user a) (λ t. Continues b t P)
  unfolding report
  report-goes_on (pos zero) well user a P ends keep = rw ends (keep _)
  report-goes_on (negsuc n) well user a P ends keep = rw ends (keep _)
  report-goes_on (pos (suc n)) well user a P ends keep = elim (Bool-cases (leb (suc n) 30)) [
    | inl small ↦ rw small (rw ends (keep _))
    | inr large ↦ rw large (keep a.printed)
  ]

  -- The application's buffer holds the line and its NUL.
  abbrev line_buffer : List ℕ → List ℕ
  line_buffer text = text ++ (0 ∷ drop (length (text ++ (0 ∷ []))) (replicate buff_size 0))

  line_buffer_lem :
      (text : List ℕ) → overlay (text ++ (0 ∷ [])) (replicate buff_size 0) ≡ line_buffer text
  line_buffer_lem text =
      append_assoc text (0 ∷ []) (drop (length (text ++ (0 ∷ []))) (replicate buff_size 0))

  close-Matches :
      (n : ℕ) (l : Lamp) (p : Parsed) (a : App b) (t : Module b) (printed : List Message)
      → n < 2 ^ 32 - 2
      → Matches n l a
      → Written (iomodule_open b a.driver) p t
      → Matches n
          (lamp_line p l)
          (record (close_chardev b (record a { driver = t })) { printed = printed })
  unfolding iomodule_open close_chardev iomodule_close
  close-Matches n l (converted on) a t printed few h k = ground arith
  close-Matches n l (rejected e) a t printed few h k = ground arith

  line_has_nul : (text : List ℕ) → has_nul (line_buffer text) ≡ true
  line_has_nul text = has_nul-append text _ refl

  line_string : (text : List ℕ) → NoNul text → c_string (line_buffer text) ≡ text
  line_string text clean = c_string-append text _ clean ∙ append-nil text

  handler-count : (m : Module b) → (btn_pushed_irq_handler b m).drv.count ≡ m.drv.count
  unfolding btn_pushed_irq_handler led_on led_off
  handler-count m = ground arith

  short_line : (n : ℕ) → n ≤ 29 → leb buff_size n ≡ false
  short_line n h = ground arith

  write-Matches :
      (kstrtoint : List ℕ → Parsed) (fd : ℤ) (k : Answers) (text : List ℕ) (n : ℕ) (l : Lamp)
      (a : App b)
      → n < 2 ^ 32 - 2
      → Matches n l a
      → Good (chosen fd k (write_node text))
      → Returns
          (write_data_chardev b kstrtoint fd k text a)
          (λ t. Continues b t (Matches n (lamp_line (kstrtoint text) l)))
  unfolding write_data_chardev
  write-Matches kstrtoint fd k text n l a few h (opened, buff, copied, clean, short) =
      let m = iomodule_open b a.driver in
      let rest = drop (length (text ++ (0 ∷ []))) (replicate buff_size 0) in
      rw opened (
        rw (short_line (length text) short) (
          rw (line_buffer_lem text) (
            rw (line_string text clean) (
              Returns-and_then (λ t. Continues b t (Matches n (lamp_line (kstrtoint text) l)))
                (iomodule_write b kstrtoint k (length text + 1) (text ++ (0 ∷ rest)) m) _
                (iomodule_write-Written kstrtoint k text rest m buff copied clean)
                (λ reply w.
                  report-goes_on reply.ret sent (line_buffer text)
                    (close_chardev b (record a { driver = reply.state })) _ (line_has_nul text)
                    (λ printed.
                      close-Matches n l (kstrtoint text) a reply.state printed few h w))))))

  happens-Matches :
      (kstrtoint : List ℕ → Parsed) (h : Happening) (n : ℕ) (l : Lamp) (a : App b)
      → n < 2 ^ 32 - 2
      → Matches n l a
      → Good h
      → Returns
          (happens b kstrtoint h a)
          (λ t. Continues b t (Matches n (lamp_after kstrtoint h l)))
  unfolding happens open_chardev close_chardev iomodule_open iomodule_close
  happens-Matches kstrtoint (chosen fd k open_node) n l a few m good = ground arith
  happens-Matches kstrtoint (chosen fd k close_node) n l a few m good = ground arith
  happens-Matches kstrtoint (chosen fd k read_node) n l a few m good = absurd good
  happens-Matches kstrtoint (chosen fd k quit) n l a few m good = absurd good
  happens-Matches kstrtoint (chosen fd k other) n l a few m good = record {
    lit = m.lit;
    toggle = m.toggle;
    flag = m.flag;
    fd = m.fd;
    counted = m.counted;
  }
  happens-Matches kstrtoint (chosen fd k (write_node text)) n l a few m good =
      write-Matches kstrtoint fd k text n l a few m good
  happens-Matches kstrtoint pushed n l a few m good =
      let (sync, flipped) = irq_handler-InSync b doc a.driver (omega (arith, m.flag, m.toggle)) in
      record {
        lit = omega (arith, sync.shows, flipped, m.toggle);
        toggle = omega (arith, flipped, m.toggle);
        flag = omega arith;
        fd = m.fd;
        counted = handler-count a.driver ∙ m.counted;
      }

  follow-Continues :
      (t : Turn b) (P Q : App b → Type 0) (k : App b → Outcome (Turn b))
      → Continues b t P
      → ((c : App b) → P c → Returns (k c) (λ u. Continues b u Q))
      → Returns (follow b t k) (λ u. Continues b u Q)
  follow-Continues (continues c) P Q k h f = f c h
  follow-Continues (exits code c) P Q k h f = absurd h

  -- A session of the application, in which the button is pushed too, stands for the lamp: where no call
  -- fails, no line is longer than 29 characters, nothing is read and `q` is not chosen, the application
  -- goes on; the LED shows what the lamp shows, the driver's `state` is the toggle, and the device has been
  -- opened as often more than closed as the lamp says. A text that is no number changes nothing.
  pub main_loop-Matches :
      (kstrtoint : List ℕ → Parsed) (hs : List Happening) (n : ℕ) (l : Lamp) (a : App b)
      → n < 2 ^ 32 - 2
      → Matches n l a
      → AllGood hs
      → Returns (main_loop b kstrtoint hs a) (λ t. Continues b t (Matches n (lamps kstrtoint hs l)))
  unfolding main_loop
  main_loop-Matches kstrtoint [] n l a few m good = m
  main_loop-Matches kstrtoint (h ∷ hs) n l a few m (good, rest) =
      Returns-and_then
        (λ t. Continues b t (Matches n (lamps kstrtoint hs (lamp_after kstrtoint h l))))
        (happens b kstrtoint h a) (λ t. follow b t (main_loop b kstrtoint hs))
        (happens-Matches kstrtoint h n l a few m good)
        (λ t k. follow-Continues t _ _ _ k (λ c matches.
          main_loop-Matches kstrtoint hs n (lamp_after kstrtoint h l) c few matches rest))
