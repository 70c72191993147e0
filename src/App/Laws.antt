-- ===== src/App/Laws.antt =====
-- What holds of the application of 02-device-file whatever the user chooses and the kernel answers.
use linux_programing_n_syste.Common.{◌≡◌, if◌then◌else◌, ◌⊎◌, arith, true, false, ◌∷◌}
use linux_programing_n_syste.Common.Int.{ℤ, is_negative, success}
use linux_programing_n_syste.App.{App, Turn, continues, exits, Message, report}

-- One descriptor is open while `fd` names one, and none otherwise.
abbrev pub IsTidy : App → Type 0
IsTidy a =
    ((is_negative a.fd ≡ true) × (a.open_files ≡ 0))
    ⊎ ((is_negative a.fd ≡ false) × (a.open_files ≡ 1))

-- What is left open at the end of a turn. A process that exits by `open_chardev` may have one open.
abbrev pub Tidy : Turn → Type 0
Tidy (continues a) = IsTidy a
Tidy (exits code a) = ((code ≡ 0) × (a.open_files ≡ 0)) ⊎ ((code ≡ 1) × IsTidy a)

-- What the choice `q` does behind some turns: status 0, the line of the end printed last, none open.
abbrev pub Quits : Turn → Turn → Type 0
Quits (continues a) t =
    (b : App) × (t ≡ exits 0 b) × (b.open_files ≡ 0) × (b.printed ≡ Message.quit ∷ a.printed)
Quits (exits code a) t = t ≡ exits code a

-- For 0 and for every error code the application prints its line of success last, behind the line
-- that says that the file ended or that nothing could be read.
pub report_claims_success :
    (ret : ℤ) (well : Message) (a : App)
    → (ret ≡ success) ⊎ (is_negative ret ≡ true)
    → (report ret well a).printed
      ≡ well ∷ (if is_negative ret then Message.could_not_read else Message.end_of_file) ∷ a.printed
unfolding report
report_claims_success ret well a h = ground arith
