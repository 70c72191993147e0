-- ===== src/Pipes/Examples.antt =====
-- Concrete runs of 8-Pipeline_FIFO, over a channel that is a list of bytes.
use linux_programing_n_syste.Common.{
  ℕ, ◌≡◌, ◌≢◌, inr, false, refl, arith, List, [], ◌∷◌, ◌++◌, take, drop, replicate,
}
use linux_programing_n_syste.Common.CString.{c_string}
use linux_programing_n_syste.Common.Typed.{Fits, with_newline}
use linux_programing_n_syste.Common.Int.{success}
use linux_programing_n_syste.Kernel.{and_then, Returns}
use linux_programing_n_syste.Pipes.{Channel, Documented, buf_size}
use linux_programing_n_syste.Pipes.Pipeline
use linux_programing_n_syste.Pipes.Pipeline.{
  System, Reach, here, later, parent_writes, child_reads, parent_ends, forked,
}
use linux_programing_n_syste.Pipes.Life.{
  Life, ended, in_loop, waits, running, dead, notify, wait_child, wait_returns, parent_prepared,
  child_ends, takes_signal, wait-Returns, stop_silences,
}
use linux_programing_n_syste.Pipes.Life
use linux_programing_n_syste.Pipes.Queue.{Queue, Moves, empty_queue}
use linux_programing_n_syste.Pipes.Refines.{Shows, Reach-Moves}
use linux_programing_n_syste.Pipes.Producer.{Store, produce, consume, consume-produce}

abbrev list_channel : Channel
list_channel = record {
  State = List ℕ;
  bytes = λ c. c;
  write = λ xs c. c ++ xs;
  read = λ n c. (take n c, drop n c);
}

list_channel-Documented : Documented list_channel
list_channel-Documented = record {
  bytes_write = λ xs c. refl;
  read_takes = λ n c. refl;
  bytes_read = λ n c. refl;
}

abbrev blank : List ℕ
blank = replicate buf_size 0

abbrev hi : List ℕ
hi = b'h' ∷ b'i' ∷ []

hi-Fits : Fits hi
hi-Fits = record {
  plain = (omega arith, λ e. omega arith, (omega arith, λ e. omega arith, tt));
  short = omega arith;
}

abbrev at_fork : System list_channel
at_fork = forked list_channel (with_newline hi) blank blank []

abbrev wrote_once : System list_channel
wrote_once = Pipeline.parent_round list_channel at_fork

-- The parent writes twice, the second time the same line, since no other was typed.
twice : Reach list_channel at_fork (Pipeline.parent_round list_channel wrote_once)
unfolding Pipeline.parent_round
twice = later (later here (parent_writes refl)) (parent_writes refl)

Reach-Moves_example :
    (q : Queue) × Moves (empty_queue (c_string blank)) q
    × Shows list_channel (Pipeline.parent_round list_channel wrote_once) q
    × ((Pipeline.parent_round list_channel wrote_once).over_read ≡ false)
Reach-Moves_example =
    Reach-Moves list_channel list_channel-Documented {parent_msg = blank} {child_msg = blank}
      {pipe = []} refl refl (inr refl) refl refl twice

abbrev idle : Store list_channel
idle = record { stdin = []; producer_buf = blank; fifo = []; consumer_buf = blank; printed = [] }

consume-produce_example :
    Returns (produce list_channel (record idle { stdin = with_newline hi ++ [] })) (λ t.
      Returns
        (consume list_channel t)
        (λ u. (u.printed ≡ [] ++ (with_newline hi ∷ [])) × (u.fifo ≡ [])))
    × Returns
        (and_then
          (produce list_channel
            (record idle { stdin = with_newline hi ++ (with_newline hi ++ []) }))
          λ t. produce list_channel t)
        (λ t.
          Returns
            (consume list_channel t)
            (λ u. (u.printed ≡ [] ++ (with_newline hi ∷ [])) × (u.fifo ≡ [])))
consume-produce_example =
    consume-produce list_channel list_channel-Documented hi hi [] idle hi-Fits hi-Fits (omega arith)
      refl

abbrev looping : Life
looping = record Life.started { parent = in_loop }

-- The child ends, and the parent takes the signal.
abbrev told : Life
told = wait_child (notify (record looping { child = dead }))

told-Reached : Life.Reach Life.started told
unfolding notify
told-Reached =
    Life.later (Life.later (Life.later Life.here (parent_prepared refl)) (child_ends refl))
      (takes_signal refl refl)

wait-Returns_example :
    (told.child ≡ dead)
    × Life.Step told (wait_returns told)
    × ((wait_returns told).parent ≡ ended success)
unfolding notify wait_child
wait-Returns_example = wait-Returns told told-Reached refl refl

stop_silences_example :
    (m : Life) × Life.Reach looping m
    × (m.parent ≡ waits)
    × (m.child ≡ running)
    × ((n : Life) → Life.Reach m n → n.parent ≢ in_loop)
stop_silences_example = stop_silences looping refl refl
