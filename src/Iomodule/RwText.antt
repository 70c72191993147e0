-- ===== src/Iomodule/RwText.antt =====
-- What passes between the user and the device of 02-device-file/hello.c: the text that a read
-- delivers, and the address that a write stores.
use linux_programing_n_syste.Common.{
  ℕ, ◌⊎◌, inl, inr, ◌+◌, ◌/◌, ◌^◌, ◌≤◌, ◌<◌, ◌≡◌, ◌∙◌, ap, arith, true, false, [], ◌∷◌, is_null,
  length, take, drop, replicate, overlay, take-all,
}
use mathlib.Core.List.{append_assoc}
use native.Mathlib.Decide.{dec_lt}
use linux_programing_n_syste.Common.Int.{success}
use linux_programing_n_syste.Common.Decimal.{
  format_u32, length-format_u32, value, value-format_u32, value-take_nine,
}
use linux_programing_n_syste.Common.CString.{
  c_string, NoNul-format_u32, c_string-take, c_string-drop-replicate,
}
use linux_programing_n_syste.Kernel.{Returns, Returns-map}
use linux_programing_n_syste.Iomodule.{State}
use linux_programing_n_syste.Iomodule.Rw.{Answers, printed, pcd_read}
use linux_programing_n_syste.Iomodule.RwBounds.{Ready, adjust_lem, length-printed}

-- The string in a buffer of zeros over whose start the first nine printed bytes are copied.
delivered :
    (v count size : ℕ)
    → length (format_u32 v) + 2 ≤ count
    → c_string (overlay (take 9 (overlay (printed v) (replicate count 0))) (replicate size 0))
      ≡ take 9 (format_u32 v)
unfolding printed
delivered v count size room =
    rw (append_assoc (format_u32 v) (0 ∷ b'0' ∷ []) (drop (length (printed v)) (replicate count 0)))
      (c_string-take 9 (format_u32 v) _ _ (NoNul-format_u32 v) (c_string-drop-replicate _ size))

-- A read of at least nine bytes from the start, into a user's buffer of zeros, gives the user the
-- first nine characters of the register's decimal text.
pub pcd_read-text :
    (a : Answers) (count size : ℕ) (s : State)
    → Ready a 0 s
    → is_null a.kernel_buff ≡ false
    → is_null a.uncopied ≡ true
    → 9 ≤ count
    → length (format_u32 a.register) + 2 ≤ count
    → Returns
        (pcd_read a count 0 (replicate size 0) s)
        (λ r. (r.ret ≡ success) × (c_string r.user_buff ≡ take 9 (format_u32 a.register)))
unfolding pcd_read
pcd_read-text a count size s h buff copied long room =
    ground
      (arith, adjust_lem 0 count, length-printed a.register, delivered a.register count size room)

-- What the text of nine characters stands for.
nine_characters :
    (v : ℕ)
    → v < 2 ^ 32
    → ((v < 10 ^ 9) × (value (take 9 (format_u32 v)) ≡ v))
      ⊎ ((10 ^ 9 ≤ v) × (value (take 9 (format_u32 v)) ≡ v / 10))
nine_characters v small = elim (dec_lt v (10 ^ 9)) [
  | yes few ↦ inl (
    few,
    ap value (take-all 9 (format_u32 v) (length-format_u32 9 v (omega arith) few))
        ∙ value-format_u32 v small,
  )
  | no many ↦ inr (omega arith, value-take_nine v (omega arith) (omega arith))
]

-- With room for any 32-bit number, what the user reads stands for the register's value if that is
-- below 10 ^ 9, and otherwise for its tenth part: the tenth digit is lost.
pub pcd_read-value :
    (a : Answers) (count size : ℕ) (s : State)
    → Ready a 0 s
    → is_null a.kernel_buff ≡ false
    → is_null a.uncopied ≡ true
    → a.register < 2 ^ 32
    → 12 ≤ count
    → Returns (pcd_read a count 0 (replicate size 0) s) (λ r.
      ((a.register < 10 ^ 9) × (value (c_string r.user_buff) ≡ a.register))
      ⊎ ((10 ^ 9 ≤ a.register) × (value (c_string r.user_buff) ≡ a.register / 10)))
pcd_read-value a count size s h buff copied small room =
    Returns-map (pcd_read a count 0 (replicate size 0) s)
      (pcd_read-text a count size s h buff copied (omega arith)
        (omega (arith, length-format_u32 10 a.register)))
      (λ r q. rw q.1 (nine_characters a.register small))
