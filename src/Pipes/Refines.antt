-- ===== src/Pipes/Refines.antt =====
-- 8.1-Pipeline keeps the promise of a queue: the bytes in the pipe are whole records, the messages that
-- wait, and every step of the two processes is a move of the queue.
use linux_programing_n_syste.Common.{
  ℕ, ◌<◌, ◌≡◌, ◌≢◌, ◌⊎◌, inr, refl, sym, ap, ◌∙◌, arith, true, false, not, List, [], ◌∷◌, ◌++◌,
  length, take, overlay, map, take-exact, drop-exact, take-all,
}
use linux_programing_n_syste.Common.CString.{c_string, has_nul}
use linux_programing_n_syste.Pipes.{Channel, Documented, buf_size, type_message}
use linux_programing_n_syste.Pipes.Pipeline.{
  System, Step, parent_writes, parent_ends, child_reads, child_at_end, parent_round, child_round,
  Reach, here, later, forked,
}
use linux_programing_n_syste.Pipes.Messages.{length-type_message, has_nul-type_message, overlay_all}
use linux_programing_n_syste.Pipes.Records.{
  AreRecords, joined, joined_last, AreRecords-last, map_last, none_waits,
}
use linux_programing_n_syste.Pipes.Queue.{
  Queue, Move, send, close, deliver, repeat, Moves, none_yet, and_then, empty_queue,
}

module _ (k : Channel) where
  -- The state of the two processes that a queue stands for: the pipe holds whole records, the messages
  -- that wait.
  pub record Shows (s : System k) (q : Queue) : Type 0 where
    pub records : List (List ℕ)
    pub sizes : AreRecords records
    pub content : k.bytes s.pipe ≡ joined records
    pub waiting : q.waiting ≡ map c_string records
    pub sent : q.sent ≡ map c_string s.written
    pub shown : q.shown ≡ s.shown
    pub last : q.last ≡ c_string s.child_msg
    pub closed : q.closed ≡ not s.writing
    pub parent_size : length s.parent_msg ≡ buf_size
    pub child_size : length s.child_msg ≡ buf_size
    pub parent_nul : (s.stdin ≢ []) ⊎ (has_nul s.parent_msg ≡ true)
    pub child_nul : has_nul s.child_msg ≡ true
    pub in_bounds : s.over_read ≡ false

module _ (k : Channel) (documented : Documented k) where
  parent_round-Shows :
      (s : System k) (q : Queue)
      → s.writing ≡ true
      → Shows k s q
      → (r : Queue) × Move q r × Shows k (parent_round k s) r
  unfolding parent_round
  parent_round-Shows s q open_end h =
      let msg = (type_message s.stdin s.parent_msg).1 in
      let size : length msg ≡ buf_size = length-type_message s.stdin s.parent_msg h.parent_size in
      let nul : has_nul msg ≡ true = has_nul-type_message s.stdin s.parent_msg h.parent_nul in
      (
        record q {
          sent = q.sent ++ (c_string msg ∷ []);
          waiting = q.waiting ++ (c_string msg ∷ []);
        },
        send (c_string msg) (h.closed ∙ ap not open_end),
        record {
          records = h.records ++ (msg ∷ []);
          sizes = AreRecords-last h.records msg h.sizes size nul;
          content = rw (documented.bytes_write (take buf_size msg) s.pipe) (
              rw h.content
                (rw (take-all buf_size msg (omega arith)) (sym (joined_last h.records msg))));
          waiting = rw (map_last h.records msg) (rw h.waiting refl);
          sent = rw (map_last s.written msg) (rw h.sent refl);
          shown = h.shown;
          last = h.last;
          closed = h.closed;
          parent_size = size;
          child_size = h.child_size;
          parent_nul = inr nul;
          child_nul = h.child_nul;
          in_bounds = h.in_bounds;
        },
      )

  -- The child reads one record whole.
  read_record :
      (m : List ℕ) (rest : List (List ℕ)) (s : System k)
      → length m ≡ buf_size
      → length s.child_msg ≡ buf_size
      → k.bytes s.pipe ≡ joined (m ∷ rest)
      → (overlay (k.read buf_size s.pipe).0 s.child_msg ≡ m)
        × (k.bytes (k.read buf_size s.pipe).1 ≡ joined rest)
  read_record m rest s size child_size content = (
    rw (documented.read_takes buf_size s.pipe) (
        rw content (
          rw (take-exact buf_size m (joined rest) size) (overlay_all m s.child_msg (omega arith)))),
    rw (documented.bytes_read buf_size s.pipe)
        (rw content (drop-exact buf_size m (joined rest) size)),
  )

  child_round-Shows :
      (s : System k) (q : Queue) (records : List (List ℕ))
      → AreRecords records
      → k.bytes s.pipe ≡ joined records
      → q.waiting ≡ map c_string records
      → 0 < length (k.bytes s.pipe)
      → Shows k s q
      → (r : Queue) × Move q r × Shows k (child_round k s) r
  unfolding child_round
  child_round-Shows s q [] sizes content waiting some_bytes h =
      absurd (omega (arith, ap length content))
  child_round-Shows s q (m ∷ rest) (size, nul, sizes) content waiting some_bytes h =
      let (came, left) = read_record m rest s size h.child_size content in
      (
        record q {
          waiting = map c_string rest;
          shown = q.shown ++ (c_string m ∷ []);
          last = c_string m;
        },
        deliver (c_string m) (map c_string rest) waiting,
        record {
          records = rest;
          sizes = sizes;
          content = rw came (rw nul left);
          waiting = refl;
          sent = rw came (rw nul h.sent);
          shown = rw came (rw nul (rw h.shown refl));
          last = rw came (rw nul refl);
          closed = rw came (rw nul h.closed);
          parent_size = rw came (rw nul h.parent_size);
          child_size = rw came (rw nul size);
          parent_nul = rw came (rw nul h.parent_nul);
          child_nul = rw came (rw nul nul);
          in_bounds = rw came (rw nul h.in_bounds);
        },
      )

  pub no_bytes :
      (s : System k)
      → k.bytes s.pipe ≡ []
      → overlay (k.read buf_size s.pipe).0 s.child_msg ≡ s.child_msg
  no_bytes s e = rw (documented.read_takes buf_size s.pipe) (rw e refl)

  child_at_end-Shows :
      (s : System k) (q : Queue)
      → k.bytes s.pipe ≡ []
      → s.writing ≡ false
      → Shows k s q
      → (r : Queue) × Move q r × Shows k (child_round k s) r
  unfolding child_round
  child_at_end-Shows s q empty ended h = (
    record q { shown = q.shown ++ (q.last ∷ []) },
    repeat (h.closed ∙ ap not ended)
        (h.waiting ∙ none_waits h.records h.sizes (sym h.content ∙ empty)),
    record {
      records = h.records;
      sizes = h.sizes;
      content = rw (no_bytes s empty) (
          rw h.child_nul
            (rw (documented.bytes_read buf_size s.pipe) (rw empty (sym empty ∙ h.content))));
      waiting = h.waiting;
      sent = rw (no_bytes s empty) (rw h.child_nul h.sent);
      shown = rw (no_bytes s empty) (rw h.child_nul (rw h.shown (rw h.last refl)));
      last = rw (no_bytes s empty) (rw h.child_nul h.last);
      closed = rw (no_bytes s empty) (rw h.child_nul h.closed);
      parent_size = rw (no_bytes s empty) (rw h.child_nul h.parent_size);
      child_size = rw (no_bytes s empty) (rw h.child_nul h.child_size);
      parent_nul = rw (no_bytes s empty) (rw h.child_nul h.parent_nul);
      child_nul = rw (no_bytes s empty) (rw h.child_nul h.child_nul);
      in_bounds = rw (no_bytes s empty) (rw h.child_nul h.in_bounds);
    },
  )

  parent_ends-Shows :
      (s : System k) (q : Queue)
      → s.writing ≡ true
      → Shows k s q
      → (r : Queue) × Move q r × Shows k (record s { writing = false }) r
  parent_ends-Shows s q open_end h = (
    record q { closed = true },
    close (h.closed ∙ ap not open_end),
    record {
      records = h.records;
      sizes = h.sizes;
      content = h.content;
      waiting = h.waiting;
      sent = h.sent;
      shown = h.shown;
      last = h.last;
      closed = refl;
      parent_size = h.parent_size;
      child_size = h.child_size;
      parent_nul = h.parent_nul;
      child_nul = h.child_nul;
      in_bounds = h.in_bounds;
    },
  )

  Step-Shows :
      {s t : System k} {q : Queue} → Step k s t → Shows k s q → (r : Queue) × Move q r × Shows k t r
  Step-Shows {s} {q = q} (parent_writes e) h = parent_round-Shows s q e h
  Step-Shows {s} {q = q} (parent_ends e) h = parent_ends-Shows s q e h
  Step-Shows {s} {q = q} (child_reads bound some_bytes) h =
      child_round-Shows s q h.records h.sizes h.content h.waiting some_bytes h
  Step-Shows {s} {q = q} (child_at_end bound empty ended) h = child_at_end-Shows s q empty ended h

  -- The two processes keep the promise of a queue: every run of them from `fork`, with buffers of
  -- their sizes and an empty pipe, is a run of the queue that shows the same messages, and reads
  -- nothing past a buffer. This is so where the memory of the child's buffer has a NUL at first, and
  -- that of the parent's has one too or something is typed.
  pub Reach-Moves :
      {stdin parent_msg child_msg : List ℕ} {pipe : k.State} {t : System k}
      → length parent_msg ≡ buf_size
      → length child_msg ≡ buf_size
      → (stdin ≢ []) ⊎ (has_nul parent_msg ≡ true)
      → has_nul child_msg ≡ true
      → k.bytes pipe ≡ []
      → Reach k (forked k stdin parent_msg child_msg pipe) t
      → (q : Queue) × Moves (empty_queue (c_string child_msg)) q
        × Shows k t q
        × (t.over_read ≡ false)
  Reach-Moves {child_msg = child_msg} p c nul nul' empty here = (
    empty_queue (c_string child_msg),
    none_yet,
    record {
      records = [];
      sizes = tt;
      content = empty;
      waiting = refl;
      sent = refl;
      shown = refl;
      last = refl;
      closed = refl;
      parent_size = p;
      child_size = c;
      parent_nul = nul;
      child_nul = nul';
      in_bounds = refl;
    },
    refl,
  )
  Reach-Moves p c nul nul' empty (later r st) =
      let (q, run, h, bound) = Reach-Moves p c nul nul' empty r in
      let (q', move, h') = Step-Shows st h in (q', and_then run move, h', h'.in_bounds)
