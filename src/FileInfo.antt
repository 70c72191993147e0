-- ===== src/FileInfo.antt =====
-- Linux-Programing-N-System/2-linux-file-system/file-infor/main.c: what a program prints of a file. The
-- tests of a mode are macros of the system's headers, and `Documented` says what they test.
pub mod Laws
mod Examples
use linux_programing_n_syste.Common.{
  ℕ, ◌≡◌, ◌==◌, not, Bool, true, false, if◌then◌else◌, Option, none, some,
}

pub record Macros : Type 0 where
  pub s_isdir : ℕ → Bool
  pub s_ischr : ℕ → Bool
  pub s_isblk : ℕ → Bool
  pub s_isreg : ℕ → Bool
  pub s_isfifo : ℕ → Bool
  pub s_islnk : ℕ → Bool
  pub s_issock : ℕ → Bool

-- Each macro compares the bits of the mode that name the type of the file.
pub record Documented (m : Macros) : Type 0 where
  pub format : ℕ → ℕ
  pub isdir : (mode : ℕ) → m.s_isdir mode ≡ (format mode == 0x4000)
  pub ischr : (mode : ℕ) → m.s_ischr mode ≡ (format mode == 0x2000)
  pub isblk : (mode : ℕ) → m.s_isblk mode ≡ (format mode == 0x6000)
  pub isreg : (mode : ℕ) → m.s_isreg mode ≡ (format mode == 0x8000)
  pub isfifo : (mode : ℕ) → m.s_isfifo mode ≡ (format mode == 0x1000)
  pub islnk : (mode : ℕ) → m.s_islnk mode ≡ (format mode == 0xA000)
  pub issock : (mode : ℕ) → m.s_issock mode ≡ (format mode == 0xC000)

pub data Kind : Type 0 where
  directory character block regular fifo link socket unknown : Kind

-- What is used of `struct stat`; a time is the number of its seconds.
pub record Stat : Type 0 where
  pub st_mode : ℕ
  pub st_ctime : ℕ
  pub st_atime : ℕ
  pub st_mtime : ℕ
  pub st_size : ℕ

-- How the program ends, and what it has printed of the file.
pub data Ended : Type 0 where
  usage : Ended
  wrong_path : Ended
  printed : Kind → (st_ctime st_atime st_mtime st_size : ℕ) → Ended

unfoldable pub kind_of : Macros → ℕ → Kind
kind_of m mode =
    if m.s_isdir mode
    then directory
    else if m.s_ischr mode
    then character
    else if m.s_isblk mode
    then block
    else if m.s_isreg mode
    then regular
    else if m.s_isfifo mode
    then fifo
    else if m.s_islnk mode
    then link
    else if m.s_issock mode
    then socket
    else unknown

-- The number of arguments, and what `lstat` answers.
unfoldable pub main : Macros → ℕ → Option Stat → Ended
unfolding kind_of
main m argc none = if not (argc == 2) then usage else wrong_path
main m argc (some sb) =
    if not (argc == 2)
    then usage
    else printed (kind_of m sb.st_mode) sb.st_ctime sb.st_atime sb.st_mtime sb.st_size
