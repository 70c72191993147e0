-- ===== src/Pipes/Records.antt =====
-- The pipe of 8.1-Pipeline holds whole records.
use linux_programing_n_syste.Common.{
  ℕ, suc, ◌*◌, ◌≡◌, refl, sym, ap, arith, true, List, [], ◌∷◌, ◌++◌, length, map, length-append,
}
use linux_programing_n_syste.Common.CString.{c_string, has_nul}
use linux_programing_n_syste.Pipes.{buf_size}
use mathlib.Core.List.{append_assoc, append-nil, map-append}

abbrev pub AreRecords : List (List ℕ) → Type 0
AreRecords [] = Unit
AreRecords (r ∷ rs) = (length r ≡ buf_size) × (has_nul r ≡ true) × AreRecords rs

abbrev pub joined : List (List ℕ) → List ℕ
joined [] = []
joined (r ∷ rs) = r ++ joined rs

pub joined_last : (rs : List (List ℕ)) (r : List ℕ) → joined (rs ++ (r ∷ [])) ≡ joined rs ++ r
joined_last [] r = append-nil r
joined_last (x ∷ rs) r = rw (joined_last rs r) (sym (append_assoc x (joined rs) r))

pub AreRecords-last :
    (rs : List (List ℕ)) (r : List ℕ)
    → AreRecords rs
    → length r ≡ buf_size
    → has_nul r ≡ true
    → AreRecords (rs ++ (r ∷ []))
AreRecords-last [] r h size nul = (size, nul, tt)
AreRecords-last (x ∷ rs) r (p, n, h) size nul = (p, n, AreRecords-last rs r h size nul)

pub map_last :
    (rs : List (List ℕ)) (r : List ℕ)
    → map c_string (rs ++ (r ∷ [])) ≡ map c_string rs ++ (c_string r ∷ [])
map_last rs r = map-append c_string rs (r ∷ [])

-- Records hold bytes, so an empty pipe holds none.
pub none_waits :
    (records : List (List ℕ)) → AreRecords records → joined records ≡ [] → map c_string records ≡ []
none_waits [] sizes e = refl
none_waits (m ∷ rest) (size, nul, sizes) e =
    absurd (omega (arith, ap length e, length-append {0} m (joined rest)))

pub length-joined : (rs : List (List ℕ)) → AreRecords rs → length (joined rs) ≡ buf_size * length rs
length-joined [] h = refl
length-joined (r ∷ rs) (p, n, h) =
    omega (arith, length-append {0} r (joined rs), length-joined rs h)

pub length-messages : (rs : List (List ℕ)) → length (map c_string rs) ≡ length rs
length-messages [] = refl
length-messages (r ∷ rs) = ap suc (length-messages rs)
