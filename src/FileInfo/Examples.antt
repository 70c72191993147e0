-- ===== src/FileInfo/Examples.antt =====
-- A regular file, by the macros as they are defined with GNU.
use linux_programing_n_syste.Common.{ℕ, ◌/◌, ◌%◌, ◌*◌, ◌≡◌, refl, ◌==◌, some}
use linux_programing_n_syste.FileInfo.{Macros, Documented, Stat, main, printed, regular}

-- The bits from 12 to 15.
abbrev format : ℕ → ℕ
format mode = mode / 0x1000 % 16 * 0x1000

abbrev macros : Macros
macros = record {
  s_isdir = λ mode. format mode == 0x4000;
  s_ischr = λ mode. format mode == 0x2000;
  s_isblk = λ mode. format mode == 0x6000;
  s_isreg = λ mode. format mode == 0x8000;
  s_isfifo = λ mode. format mode == 0x1000;
  s_islnk = λ mode. format mode == 0xA000;
  s_issock = λ mode. format mode == 0xC000;
}

abbrev macros-Documented : Documented macros
macros-Documented = record {
  format = format;
  isdir = λ mode. refl;
  ischr = λ mode. refl;
  isblk = λ mode. refl;
  isreg = λ mode. refl;
  isfifo = λ mode. refl;
  islnk = λ mode. refl;
  issock = λ mode. refl;
}

abbrev a_file : Stat
a_file = record { st_mode = 0x81A4; st_ctime = 3; st_atime = 2; st_mtime = 1; st_size = 12 }

a_regular_file : main macros 2 (some a_file) ≡ printed regular 3 2 1 12
unfolding main
a_regular_file = refl
