-- ===== src/Pipes/Pipeline.antt =====
-- 8.1-Pipeline/main.c: after `fork` the parent writes each typed line as a record of 30 bytes, and the
-- child reads and prints such records. The two loops run in any order.
use linux_programing_n_syste.Common.{
  ℕ, ◌<◌, ◌≡◌, Bool, true, false, List, [], ◌∷◌, ◌++◌, length, take, overlay, if◌then◌else◌,
}
use linux_programing_n_syste.Common.CString.{c_string, has_nul}
use linux_programing_n_syste.Pipes.{Channel, buf_size, type_message}

module _ (k : Channel) where
  -- The parent's input and buffer, whether it still writes, the pipe, and the child's buffer; with the
  -- buffers that were written and the messages that were shown, the oldest first, and whether the child
  -- has read past the end of its buffer.
  pub record System : Type 0 where
    pub stdin : List ℕ
    pub parent_msg : List ℕ
    pub writing : Bool
    pub pipe : k.State
    pub child_msg : List ℕ
    pub written : List (List ℕ)
    pub shown : List (List ℕ)
    pub over_read : Bool

  unfoldable pub parent_round : System → System
  unfolding type_message
  parent_round s =
      let (stdin, msg) = type_message s.stdin s.parent_msg in
      record s {
        stdin = stdin;
        parent_msg = msg;
        pipe = k.write (take buf_size msg) s.pipe;
        written = s.written ++ (msg ∷ []);
      }

  -- `printf("... %s", msg)`, which without a NUL in the buffer reads on behind it.
  abbrev pub print_message : List ℕ → System → System
  print_message msg s =
      if has_nul msg
      then record s { shown = s.shown ++ (c_string msg ∷ []) }
      else record s { over_read = true }

  unfoldable pub child_round : System → System
  child_round s =
      let (bytes, pipe) = k.read buf_size s.pipe in
      let msg = overlay bytes s.child_msg in
      print_message msg (record s { pipe = pipe; child_msg = msg })

  -- A read waits while the pipe is empty and its write end is open. The parent's loop ends by a failed
  -- `write` or by a signal, and the pipe is then closed for writing; the child does not test for that. Of a
  -- child that has read past its buffer nothing more is said.
  pub data Step (s : System) : System → Type 0 where
    parent_writes : s.writing ≡ true → Step s (parent_round s)
    parent_ends : s.writing ≡ true → Step s (record s { writing = false })
    child_reads : s.over_read ≡ false → 0 < length (k.bytes s.pipe) → Step s (child_round s)
    child_at_end :
        s.over_read ≡ false → k.bytes s.pipe ≡ [] → s.writing ≡ false → Step s (child_round s)

  pub data Reach (s : System) : System → Type 0 where
    here : Reach s s
    later : {t u : System} → Reach s t → Step t u → Reach s u

  -- After `fork`, with what stands in the two buffers.
  abbrev pub forked : List ℕ → List ℕ → List ℕ → k.State → System
  forked stdin parent_msg child_msg pipe = record {
    stdin = stdin;
    parent_msg = parent_msg;
    writing = true;
    pipe = pipe;
    child_msg = child_msg;
    written = [];
    shown = [];
    over_read = false;
  }
