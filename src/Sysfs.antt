-- ===== src/Sysfs.antt =====
-- Linux-Programing-Porting/05-button-led-integer-DIY/gpio-sysfs.c: a directory in sysfs with the
-- files `export` and `unexport`, and for the exported pin one with `direction` and `value`. What the
-- kernel answers is an argument. `sscanf` is a parameter: what it stores, or nothing.
pub mod Requests
pub mod Objects
pub mod Shows
mod Examples
use linux_programing_n_syste.Common.{
  ℕ, ◌+◌, ◌-◌, ◌%◌, ◌^◌, Bool, true, false, not, ◌||◌, ◌==◌, ltb, if◌then◌else◌, List, [], ◌∷◌,
  ◌++◌, length, overlay, replicate, Option, none, some,
}
use linux_programing_n_syste.Common.Int.{ℤ, pos, negsuc, success, minus_one}
use linux_programing_n_syste.Common.Decimal.{format_u32}
use linux_programing_n_syste.Common.CString.{c_string}
use linux_programing_n_syste.Kernel.{Outcome, done, buffer_overrun, and_then}

-- The calls of the kernel: a directory with its address (0 is NULL), the files in it with the
-- answer 0 or not, and the calls for a pin.
pub data Call : Type 0 where
  kobject_create_and_add : List ℕ → ℕ → Call
  kobject_put : ℕ → Call
  sysfs_create_group : ℕ → Bool → Call
  sysfs_remove_group : ℕ → Call
  gpio_request : ℕ → Call
  gpio_direction_input : ℕ → Call
  gpio_direction_output : ℕ → ℕ → Call
  gpio_set_value : ℕ → ℕ → Call

-- The globals, and the calls made so far, the newest first.
pub record State : Type 0 where
  pub gpio_led : ℕ
  pub value : ℤ
  pub direct : List ℕ
  pub kobj_control : ℕ
  pub kobj_init : ℕ
  pub log : List Call

abbrev pub call : Call → State → State
call c s = record s { log = c ∷ s.log }

-- The sizes of `_direct` and `gpio_numb`.
abbrev pub text_size : ℕ
text_size = 8

abbrev pub loaded : State
loaded = record {
  gpio_led = 31;
  value = pos 0;
  direct = replicate text_size 0;
  kobj_control = 0;
  kobj_init = 0;
  log = [];
}

-- The answers: the new directory, whether its files could not be created, and whether the
-- direction could not be set.
pub record Answers : Type 0 where
  pub kobj : ℕ
  pub group_failed : Bool
  pub direction_failed : Bool

-- The variable behind `sscanf`'s third argument.
abbrev pub stored : Option ℤ → ℤ → ℤ
stored (some n) old = n
stored none old = old

-- `numb < 0 || numb > 65`.
abbrev pub out_of_range : ℤ → Bool
out_of_range (pos n) = ltb 65 n
out_of_range (negsuc _) = true

-- The unsigned number that a signed one is compared as.
abbrev pub as_unsigned : ℤ → ℕ
as_unsigned (pos n) = n
as_unsigned (negsuc n) = 2 ^ 32 - (n + 1)

-- `sprintf(gpio_numb, "gpio%d", GPIO_LED)`, its NUL included.
unfoldable pub gpio_numb : ℕ → List ℕ
gpio_numb n = (b'g' ∷ b'p' ∷ b'i' ∷ b'o' ∷ []) ++ (format_u32 n ++ (0 ∷ []))

unfoldable pub create_control : Answers → ℕ → ℕ → State → ℤ × State
create_control a n count s =
    let s1 =
      call (Call.kobject_create_and_add (c_string (gpio_numb n)) a.kobj)
        (record s { gpio_led = n; kobj_control = a.kobj }) in
    let s2 = call (Call.sysfs_create_group a.kobj (not a.group_failed)) s1 in
    if a.group_failed
    then (pos count, call (Call.kobject_put a.kobj) s2)
    else (pos count, call (Call.gpio_request n) s2)

unfoldable pub export_store :
    (List ℕ → Option ℤ) → Answers → List ℕ → ℕ → State → Outcome (ℤ × State)
unfolding create_control
export_store scan_int a buf count s =
    let numb = stored (scan_int buf) (pos 0) in
    let n = as_unsigned numb in
    if out_of_range numb
    then done (minus_one, s)
    else if s.gpio_led == n
    then done (pos count, s)
    else if ltb text_size (length (gpio_numb n))
    then buffer_overrun
    else done (create_control a n count s)

unfoldable pub unexport_store : ℕ → State → ℤ × State
unexport_store count s = (
  pos count,
  call (Call.kobject_put s.kobj_control) (call (Call.sysfs_remove_group s.kobj_control) s),
)

-- `sscanf(buf, "%s", _direct)`: a word and its NUL.
unfoldable pub scan_direct : Option (List ℕ) → ℕ → State → Outcome (ℤ × State)
scan_direct none count s = done (pos count, s)
scan_direct (some word) count s =
    if ltb text_size (length word + 1)
    then buffer_overrun
    else done (pos count, record s { direct = overlay (word ++ (0 ∷ [])) s.direct })

-- `count - 1` is a 32-bit `size_t`.
unfoldable pub direction_store :
    (List ℕ → Option (List ℕ)) → Answers → List ℕ → ℕ → State → Outcome (ℤ × State)
unfolding scan_direct
direction_store scan_word a buf count s =
    let c = (count + 2 ^ 32 - 1) % 2 ^ 32 in
    let input = call (Call.gpio_direction_input s.gpio_led) s in
    let output = call (Call.gpio_direction_output s.gpio_led 0) s in
    if c == 2
    then (if a.direction_failed
        then done (minus_one, input)
        else scan_direct (scan_word buf) count input)
    else if c == 3
    then (if a.direction_failed
        then done (minus_one, output)
        else scan_direct (scan_word buf) count output)
    else done (pos count, s)

-- `switch (numb)` of `value_store`: the level to set, if any.
abbrev pub level_of : ℤ → Option ℕ
level_of (pos n) = if n == 0 then some 0 else if n == 1 then some 1 else none
level_of (negsuc _) = none

unfoldable pub set_level : Option ℕ → Option ℤ → ℕ → State → ℤ × State
set_level none scanned count s = (pos count, s)
set_level (some v) scanned count s = (
  pos count,
  record (call (Call.gpio_set_value s.gpio_led v) s) { value = stored scanned s.value },
)

unfoldable pub value_store : (List ℕ → Option ℤ) → List ℕ → ℕ → State → ℤ × State
unfolding set_level
value_store scan_int buf count s =
    set_level (level_of (stored (scan_int buf) (pos 0))) (scan_int buf) count s

-- What the files show, with the NUL left out: `sprintf` returns its length.
abbrev pub show_int : ℤ → List ℕ
show_int (pos n) = format_u32 n
show_int (negsuc n) = b'-' ∷ format_u32 (n + 1)

abbrev pub value_show : State → List ℕ
value_show s = show_int s.value ++ (10 ∷ [])

abbrev pub direction_show : State → List ℕ
direction_show s = c_string s.direct

unfoldable pub gpio_sysfs_init : Answers → State → ℤ × State
gpio_sysfs_init a s =
    let name = b'b' ∷ b'b' ∷ b'b' ∷ b'_' ∷ b'g' ∷ b'p' ∷ b'i' ∷ b'o' ∷ b's' ∷ [] in
    let s1 = call (Call.kobject_create_and_add name a.kobj) (record s { kobj_init = a.kobj }) in
    let s2 = call (Call.sysfs_create_group a.kobj (not a.group_failed)) s1 in
    if a.group_failed then (minus_one, call (Call.kobject_put a.kobj) s2) else (success, s2)

unfoldable pub gpio_sysfs_exit : State → State
gpio_sysfs_exit s =
    call (Call.kobject_put s.kobj_init) (call (Call.sysfs_remove_group s.kobj_init) s)
