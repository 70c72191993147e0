-- ===== src/Pipes/Fifo.antt =====
-- 8.2-FIFO/main.c: the loops of 8.1-Pipeline over a named FIFO, which each side opens for itself.
use linux_programing_n_syste.Common.{◌≡◌, refl, false, if◌then◌else◌, [], ◌∷◌, ◌++◌, take, overlay}
use linux_programing_n_syste.Common.Int.{ℤ, negsuc, is_minus_one}
use linux_programing_n_syste.Pipes.{Channel, buf_size, type_message}
use linux_programing_n_syste.Pipes.Pipeline
use linux_programing_n_syste.Pipes.Pipeline.{System}

module _ (k : Channel) where
  pub data Ended : Type 0 where
    goes_on : System k → Ended
    exit_failure : System k → Ended

  -- The descriptor is tested only when a line has been read. The two numbers are what `open` and
  -- `write` answer.
  unfoldable pub parent_round : ℤ → ℤ → System k → Ended
  unfolding type_message
  parent_round fd write_len s =
      let (stdin, msg) = type_message s.stdin s.parent_msg in
      let s1 = record s { stdin = stdin; parent_msg = msg } in
      if is_minus_one fd
      then exit_failure s1
      else if is_minus_one write_len
      then exit_failure s1
      else goes_on (record s1 {
        pipe = k.write (take buf_size msg) s1.pipe;
        written = s1.written ++ (msg ∷ []);
      })

  -- The two numbers are what `open` and `read` answer.
  unfoldable pub child_round : ℤ → ℤ → System k → Ended
  child_round fd read_len s =
      let (bytes, pipe) = k.read buf_size s.pipe in
      let msg = overlay bytes s.child_msg in
      if is_minus_one fd
      then exit_failure s
      else if is_minus_one read_len
      then exit_failure s
      else goes_on (Pipeline.print_message k msg (record s { pipe = pipe; child_msg = msg }))

  -- Where the FIFO was opened and the calls succeed, a round over it does what a round over the pipe
  -- does, for the parent and for the child; where `open` failed, the parent has read a line and ends.
  pub rounds_agree :
      (fd n : ℤ) (s : System k)
      → is_minus_one fd ≡ false
      → is_minus_one n ≡ false
      → (parent_round fd n s ≡ goes_on (Pipeline.parent_round k s))
        × (child_round fd n s ≡ goes_on (Pipeline.child_round k s))
        × (parent_round (negsuc 0) n s
            ≡ exit_failure (record s {
              stdin = (type_message s.stdin s.parent_msg).0;
              parent_msg = (type_message s.stdin s.parent_msg).1;
            }))
  unfolding parent_round child_round Pipeline.parent_round Pipeline.child_round
  rounds_agree fd n s opened well = (rw opened (rw well refl), rw opened (rw well refl), refl)
