-- ===== src/GpioFiles/Session.antt =====
-- `main` of app-button-led.c as a whole: the LED against the number of times that the button was found
-- pushed.
use linux_programing_n_syste.Common.{
  ℕ, ◌≡◌, refl, ◌∙◌, arith, Bool, true, false, not, if◌then◌else◌, List, [], ◌∷◌,
}
use linux_programing_n_syste.Common.Int.{ℤ, pos, is_minus_one}
use linux_programing_n_syste.Common.Decimal.{format_u32}
use linux_programing_n_syste.Kernel.{Returns, Returns-and_then}
use linux_programing_n_syste.GpioFiles.{
  Files, Answers, Round, Start, app_round, app_start, app_loop, app_main, pin_path, export_path,
  direction_file, value_file, direction_text, wrote, is_one,
}
use linux_programing_n_syste.GpioFiles.Laws.{operations_reach_pin, app_round-toggles}

-- A call that opens its file and transfers its one byte.
pub record Transfers (a : Answers) : Type 0 where
  pub fd : is_minus_one a.fd ≡ false
  pub count : is_one a.count ≡ true

-- A call that opens its file and does not fail.
pub record Succeeds (a : Answers) : Type 0 where
  pub fd : is_minus_one a.fd ≡ false
  pub count : is_minus_one a.count ≡ false

pub record Started (k : Start) : Type 0 where
  pub export_button : Succeeds k.export_button
  pub direct_button : Succeeds k.direct_button
  pub export_led : Succeeds k.export_led
  pub direct_led : Succeeds k.direct_led
  pub write_led : Transfers k.write_led

abbrev pub level_text : Bool → List ℕ
level_text lit = if lit then b'1' ∷ [] else b'0' ∷ []

-- The newest write is that of a level to the LED's file.
abbrev pub Shows : Bool → Files → Type 0
Shows lit s =
    (rest : List (List ℕ × List ℕ)) × (s.written
      ≡ (pin_path value_file (pos 30), level_text lit) ∷ rest)

module _ (strtoul : List ℕ → ℤ) (behind : List ℕ) where
  abbrev pub pushed : Round → Bool
  pushed k = is_one (strtoul (k.button.byte ∷ behind))

  -- The LED after a round.
  abbrev pub switched : Bool → Round → Bool
  switched lit k = if pushed k then not lit else lit

  abbrev pub after : Bool → List Round → Bool
  after lit [] = lit
  after lit (k ∷ rest) = after (switched lit k) rest

  -- The calls of each round succeed, and the LED reads as it was switched last.
  pub record Faithful (lit : Bool) (k : Round) : Type 0 where
    pub button : Transfers k.button
    pub led : Transfers k.led
    pub switch : Transfers k.switch
    pub reads : is_one (strtoul (k.led.byte ∷ behind)) ≡ lit

  abbrev pub AllFaithful : Bool → List Round → Type 0
  AllFaithful lit [] = Unit
  AllFaithful lit (k ∷ rest) = Faithful lit k × AllFaithful (switched lit k) rest

  switch_cases :
      (push lit : Bool) (s : Files)
      → Shows lit s
      → let t =
          (if push
            then wrote (pin_path value_file (pos 30)) (if lit then b'0' ∷ [] else b'1' ∷ []) s
            else s) in
        Shows (if push then not lit else lit) t × (t.open_files ≡ s.open_files)
  switch_cases true true s h = ((s.written, refl), refl)
  switch_cases true false s h = ((s.written, refl), refl)
  switch_cases false lit s h = (h, refl)

  round-Shows :
      (lit : Bool) (k : Round) (s : Files)
      → Faithful lit k
      → Shows lit s
      → Shows (switched lit k) (app_round strtoul behind k s)
        × ((app_round strtoul behind k s).open_files ≡ s.open_files)
  round-Shows lit k s f h =
      rw
        (app_round-toggles strtoul behind k s (f.button.fd, f.button.count) (f.led.fd, f.led.count)
          (f.switch.fd, f.switch.count))
        (rw f.reads (switch_cases (pushed k) lit s h))

  loop-Shows :
      (lit : Bool) (rounds : List Round) (s : Files)
      → AllFaithful lit rounds
      → Shows lit s
      → Shows (after lit rounds) (app_loop strtoul behind rounds s)
        × ((app_loop strtoul behind rounds s).open_files ≡ s.open_files)
  unfolding app_loop
  loop-Shows lit [] s f h = (h, refl)
  loop-Shows lit (k ∷ rest) s (f, fs) h =
      let (shows, same) = round-Shows lit k s f h in
      let (shows', same') =
        loop-Shows (switched lit k) rest (app_round strtoul behind k s) fs shows in
      (shows', same' ∙ same)

  start-Shows :
      (k : Start) (s : Files)
      → Started k
      → Returns (app_start k s) (λ t. Shows false t × (t.open_files ≡ s.open_files))
  unfolding app_start
  start-Shows k s h =
      let s1 = wrote export_path (format_u32 31) s in
      let s2 = wrote (pin_path direction_file (pos 31)) (direction_text (pos 0)) s1 in
      let s3 = wrote export_path (format_u32 30) s2 in
      let s4 = wrote (pin_path direction_file (pos 30)) (direction_text (pos 1)) s3 in
      let button = λ (t : Files).
        operations_reach_pin k.export_button k.direct_button k.write_led 31 (pos 0) (pos 0) t
          (omega arith) h.export_button.fd h.direct_button.fd h.direct_button.count h.write_led.fd
          h.write_led.count in
      let led = λ (t : Files).
        operations_reach_pin k.export_led k.direct_led k.write_led 30 (pos 1) (pos 0) t
          (omega arith) h.export_led.fd h.direct_led.fd h.direct_led.count h.write_led.fd
          h.write_led.count in
      let (e1, _, _) = button s in
      let (_, d1, _) = button s1 in
      let (e2, _, _) = led s2 in
      let (_, d2, _) = led s3 in
      let (_, _, w) = led s4 in rw e1 (rw d1 (rw e2 (rw d2 (rw w ((s4.written, refl), refl)))))

  -- Where the calls succeed and the LED always reads as it was switched last, the application's start
  -- switches the LED off, and each round that finds the button pushed switches it over: after any
  -- number of rounds the newest write is that level to the LED's file, and no descriptor stays open.
  pub main-Shows :
      (k : Start) (rounds : List Round) (s : Files)
      → Started k
      → AllFaithful false rounds
      → Returns
          (app_main strtoul behind k rounds s)
          (λ t. Shows (after false rounds) t × (t.open_files ≡ s.open_files))
  unfolding app_main
  main-Shows k rounds s h f =
      Returns-and_then _ (app_start k s) _ (start-Shows k s h)
        (λ t p. let (shows, same) = loop-Shows false rounds t f p.0 in (shows, same ∙ p.1))
