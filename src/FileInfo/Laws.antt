-- ===== src/FileInfo/Laws.antt =====
-- The type that main.c of file-infor prints, against the codes of the types.
use linux_programing_n_syste.Common.{
  ℕ, ◌≡◌, ◌≢◌, refl, ◌==◌, ==_iff, Bool, true, false, if◌then◌else◌, Option, none, some,
}
use linux_programing_n_syste.Common.Typed.{==_ne}
use linux_programing_n_syste.FileInfo.{
  Macros, Documented, Kind, directory, character, block, regular, fifo, link, socket, unknown, Stat,
  usage, wrong_path, printed, kind_of, main,
}

-- The type that a format names.
abbrev pub Describes : Kind → ℕ → Type 0
Describes directory f = f ≡ 0x4000
Describes character f = f ≡ 0x2000
Describes block f = f ≡ 0x6000
Describes regular f = f ≡ 0x8000
Describes fifo f = f ≡ 0x1000
Describes link f = f ≡ 0xA000
Describes socket f = f ≡ 0xC000
Describes unknown f =
    (f ≢ 0x4000)
    × (f ≢ 0x2000)
    × (f ≢ 0x6000)
    × (f ≢ 0x8000)
    × (f ≢ 0x1000)
    × (f ≢ 0xA000)
    × (f ≢ 0xC000)

one_of :
    (f code : ℕ) (t : Bool) (k k' : Kind)
    → (f == code) ≡ t
    → (f ≡ code → Describes k f)
    → (f ≢ code → Describes k' f)
    → Describes (if t then k else k') f
one_of f code true k k' e same other = same ((==_iff f code).0 e)
one_of f code false k k' e same other = other (λ q. absurd (differ ((==_iff f code).1 q)))
  where
    differ : (f == code) ≡ true → ⊥
    differ q = cc

kind_of-Describes :
    (m : Macros) (doc : Documented m) (mode : ℕ) → Describes (kind_of m mode) (doc.format mode)
unfolding kind_of
kind_of-Describes m doc mode =
    let f = doc.format mode in
    rw (doc.isdir mode) (
      rw (doc.ischr mode) (
        rw (doc.isblk mode) (
          rw (doc.isreg mode) (
            rw (doc.isfifo mode) (
              rw (doc.islnk mode) (
                rw (doc.issock mode) (
                  one_of f 0x4000 _ directory _ refl (λ e. e)
                    (λ n1.
                      one_of f 0x2000 _ character _ refl (λ e. e)
                        (λ n2.
                          one_of f 0x6000 _ block _ refl (λ e. e)
                            (λ n3.
                              one_of f 0x8000 _ regular _ refl (λ e. e)
                                (λ n4.
                                  one_of f 0x1000 _ fifo _ refl (λ e. e)
                                    (λ n5.
                                      one_of f 0xA000 _ link _ refl (λ e. e)
                                        (λ n6.
                                          one_of f 0xC000 _ socket unknown refl (λ e. e)
                                            (λ n7. (n1, n2, n3, n4, n5, n6, n7)))))))))))))))

-- With one argument, of a file that is there, the program prints the type that the file's mode names,
-- its times and its size; of no file, that the path is wrong. With another number of arguments it
-- prints how it is used, whatever `lstat` would answer.
pub main-Describes :
    (m : Macros) (doc : Documented m) (sb : Stat) (argc : ℕ) (answer : Option Stat)
    → argc ≢ 2
    → (k : Kind) × (main m 2 (some sb) ≡ printed k sb.st_ctime sb.st_atime sb.st_mtime sb.st_size)
      × Describes k (doc.format sb.st_mode)
      × (main m 2 none ≡ wrong_path)
      × (main m argc answer ≡ usage)
unfolding main
main-Describes m doc sb argc answer other =
    (kind_of m sb.st_mode, refl, kind_of-Describes m doc sb.st_mode, refl, not_two answer)
  where
    not_two : (answer : Option Stat) → main m argc answer ≡ usage
    not_two none = rw (==_ne argc 2 other) refl
    not_two (some sb) = rw (==_ne argc 2 other) refl
