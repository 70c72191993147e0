-- ===== src/UnixSockets.antt =====
-- Linux-Programing-N-System/7-Socket/7.1-Unix-Datagram and 7.1-Unix-Stream: a server that answers a
-- message in capitals, and a client that sends one. `toupper` is a parameter, and what the calls on the
-- sockets answer is an argument.
pub mod Datagram
pub mod DatagramLaws
pub mod Stream
pub mod StreamLaws
pub mod Setup
pub mod Loops
pub mod Lifecycle
mod Examples
use linux_programing_n_syste.Common.{
  ℕ, zero, suc, ◌+◌, ◌≤◌, ◌<◌, ◌≡◌, refl, sym, ap, ◌∙◌, drop-all, arith, true, List, [], ◌∷◌, ◌++◌,
  length, take, drop, get_or, overlay, map,
}
use linux_programing_n_syste.Common.CString.{has_nul, NoNul}

abbrev pub buf_size : ℕ
buf_size = 30

module _ (toupper : ℕ → ℕ) where
  -- `for(i = 0; i < n; i++) buf[i] = toupper(buf[i])`.
  unfoldable pub upcase : ℕ → List ℕ → List ℕ
  upcase zero buf = buf
  upcase (suc n) [] = []
  upcase (suc n) (b ∷ bs) = toupper b ∷ upcase n bs

  pub upcase-append :
      (bytes rest : List ℕ) → upcase (length bytes) (bytes ++ rest) ≡ map toupper bytes ++ rest
  unfolding upcase
  upcase-append [] rest = refl
  upcase-append (b ∷ bs) rest = ap (λ t. toupper b ∷ t) (upcase-append bs rest)

  pub NoNul-map :
      (bytes : List ℕ) → ((c : ℕ) → 0 < c → 0 < toupper c) → NoNul bytes → NoNul (map toupper bytes)
  NoNul-map [] h k = tt
  NoNul-map (b ∷ bs) h k = (h b k.0, NoNul-map bs h k.1)

  pub length-map : (bytes : List ℕ) → length (map toupper bytes) ≡ length bytes
  length-map [] = refl
  length-map (b ∷ bs) = ap suc (length-map bs)

-- A byte behind what is laid over a buffer is the byte that was there.
pub get_or-overlay :
    (bytes buf : List ℕ) (i d : ℕ)
    → length bytes ≤ i
    → get_or (overlay bytes buf) i d ≡ get_or buf i d
get_or-overlay [] buf i d h = refl
get_or-overlay (b ∷ bs) buf zero d h = absurd (omega arith)
get_or-overlay (b ∷ bs) [] (suc i) d h =
    ap (λ t. get_or (bs ++ t) i d) (sym (drop-all (length bs) [] (omega arith)))
    ∙ get_or-overlay bs [] i d (omega arith)
get_or-overlay (b ∷ bs) (x ∷ xs) (suc i) d h = get_or-overlay bs xs i d (omega arith)

pub has_nul_at : (buf : List ℕ) (i : ℕ) → get_or buf i 1 ≡ 0 → has_nul buf ≡ true
has_nul_at [] i e = absurd (omega (arith, e))
has_nul_at (zero ∷ bs) i e = refl
has_nul_at (suc b ∷ bs) zero e = absurd (omega (arith, e))
has_nul_at (suc b ∷ bs) (suc i) e = has_nul_at bs i e
