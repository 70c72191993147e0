-- ===== src/HumanThread/Compares.antt =====
-- What a thread of 5.1-Thread is to print, by its comparison of the IDs.
use linux_programing_n_syste.Common.{
  ℕ, ◌≡◌, ◌≢◌, ◌⊎◌, inl, inr, refl, arith, if◌then◌else◌, ◌==◌, none, some, [], ==_iff,
}
use linux_programing_n_syste.Common.Typed.{==_ne}
use linux_programing_n_syste.Kernel.{done}
use linux_programing_n_syste.HumanThread.{Human, print_human, thread_handle, human1, handled}
use linux_programing_n_syste.HumanThread.Printing.{first_lines, second_lines, Prints}

module _ (self1 self2 : ℕ) where
  pub first_handles :
      (id1 id2 : ℕ)
      → self1 ≢ 0
      → self1 ≢ self2
      → (id1 ≡ 0) ⊎ (id1 ≡ self1)
      → (id2 ≡ 0) ⊎ (id2 ≡ self2)
      → Prints first_lines Unit (handled (thread_handle self1 id1 id2 none)) []
  unfolding thread_handle
  first_handles id1 id2 known other (inl e) (inl f) =
      rw (==_ne self1 id1 (omega (arith, e, known)))
        (rw (==_ne self1 id2 (omega (arith, f, known))) (inl refl))
  first_handles id1 id2 known other (inl e) (inr f) =
      rw (==_ne self1 id1 (omega (arith, e, known)))
        (rw (==_ne self1 id2 (omega (arith, f, other))) (inl refl))
  first_handles id1 id2 known other (inr e) f =
      rw ((==_iff self1 id1).1 (omega (arith, e))) (inr refl)

  pub second_handles :
      (id1 id2 : ℕ) (h : Human)
      → self2 ≢ 0
      → self1 ≢ self2
      → (id1 ≡ 0) ⊎ (id1 ≡ self1)
      → (id2 ≡ 0) ⊎ (id2 ≡ self2)
      → h ≡ human1
      → Prints second_lines Unit (handled (thread_handle self2 id1 id2 (some h))) []
  unfolding thread_handle
  second_handles id1 id2 h known other e f ready = rw (==_ne self2 id1 (not_first e)) (after f)
    where
      not_first : (id1 ≡ 0) ⊎ (id1 ≡ self1) → self2 ≢ id1
      not_first (inl e) = omega (arith, e, known)
      not_first (inr e) = omega (arith, e, other)

      after :
          (id2 ≡ 0) ⊎ (id2 ≡ self2)
          → Prints second_lines Unit
              (handled (if self2 == id2 then print_human (some h) else done []))
              []
      after (inl f) = rw (==_ne self2 id2 (omega (arith, f, known))) (inl refl)
      after (inr f) = rw ((==_iff self2 id2).1 (omega (arith, f))) (rw ready (inr refl))
