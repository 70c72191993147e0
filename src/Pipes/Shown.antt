-- ===== src/Pipes/Shown.antt =====
-- What the child of 8.1-Pipeline has shown while the parent writes, and where it reads past its buffer.
use linux_programing_n_syste.Common.{
  ℕ, ◌*◌, ◌≡◌, ◌≢◌, ◌⊎◌, refl, sym, ap, ◌∙◌, arith, true, false, not, List, [], ◌++◌, length, map,
}
use linux_programing_n_syste.Common.CString.{c_string, has_nul}
use linux_programing_n_syste.Pipes.{Channel, Documented, buf_size}
use linux_programing_n_syste.Pipes.Pipeline.{
  System, parent_ends, child_at_end, child_round, Reach, here, later, forked,
}
use linux_programing_n_syste.Pipes.Records.{length-joined, length-messages}
use linux_programing_n_syste.Pipes.Refines.{Reach-Moves, no_bytes}
use linux_programing_n_syste.Pipes.Queue.{Moves-InOrder}

-- While the parent writes, the child has shown the messages written, in their order, up to those whose
-- 30 bytes each are still in the pipe: none is lost, split or shown twice.
pub shown_in_order :
    (k : Channel) (documented : Documented k) {stdin parent_msg child_msg : List ℕ} {pipe : k.State}
    {t : System k}
    → length parent_msg ≡ buf_size
    → length child_msg ≡ buf_size
    → (stdin ≢ []) ⊎ (has_nul parent_msg ≡ true)
    → has_nul child_msg ≡ true
    → k.bytes pipe ≡ []
    → Reach k (forked k stdin parent_msg child_msg pipe) t
    → t.writing ≡ true
    → (waiting : List (List ℕ)) × (map c_string t.written ≡ t.shown ++ waiting)
      × (length (k.bytes t.pipe) ≡ buf_size * length waiting)
shown_in_order k documented {t = t} p c nul nul' empty r writing =
    let (q, run, h, bound) = Reach-Moves k documented p c nul nul' empty r in
    (
      q.waiting,
      sym h.sent
          ∙ Moves-InOrder run (h.closed ∙ ap not writing)
          ∙ ap (λ xs. xs ++ q.waiting) h.shown,
      rw h.content (
          rw h.waiting (omega (arith, length-joined h.records h.sizes, length-messages h.records))),
    )

-- Where the memory of the child's buffer has no NUL and the parent ends before it has written, the child
-- comes to the end of the pipe and prints past its buffer.
pub nothing_sent_over_reads :
    (k : Channel) (documented : Documented k) (stdin parent_msg child_msg : List ℕ) (pipe : k.State)
    → has_nul child_msg ≡ false
    → k.bytes pipe ≡ []
    → (t : System k) × Reach k (forked k stdin parent_msg child_msg pipe) t × (t.over_read ≡ true)
unfolding child_round
nothing_sent_over_reads k documented stdin parent_msg child_msg pipe raw empty =
    let s = record (forked k stdin parent_msg child_msg pipe) { writing = false } in
    (
      child_round k s,
      later (later here (parent_ends refl)) (child_at_end refl empty refl),
      rw (no_bytes k documented s empty) (rw raw refl),
    )
