-- ===== src/Chat/Examples.antt =====
-- Concrete chats.
use linux_programing_n_syste.Common.{
  ℕ, ◌≡◌, refl, arith, true, false, List, [], ◌∷◌, ◌++◌, map, none,
}
use linux_programing_n_syste.Common.Int.{pos, success}
use linux_programing_n_syste.Kernel.{done}
use linux_programing_n_syste.Chat.{Side, starts}
use linux_programing_n_syste.Common.Typed.{Fits, with_newline}
use linux_programing_n_syste.Chat.Lines.{Says}
use linux_programing_n_syste.Chat.Talk.{side, said, replied, joined_before, Exchange}
use linux_programing_n_syste.Chat.Lives.{
  runs, exited, server_main, client_main, Ends, heard, told, all_of, typed, chats_in_turn,
}
use linux_programing_n_syste.Chat.Stream
use linux_programing_n_syste.Chat.StreamLives
use linux_programing_n_syste.Chat.StreamLives.{serves, ended, clients_exit}
use linux_programing_n_syste.Chat.Serving.{says_exit, waits}
use linux_programing_n_syste.Chat.Mains.{
  Call, chats, datagram_server, stream_server, datagram_client, stream_client,
}
use linux_programing_n_syste.Chat.Mains

abbrev hi : List ℕ
hi = b'h' ∷ b'i' ∷ []

abbrev oh : List ℕ
oh = b'o' ∷ b'h' ∷ []

abbrev bye : List ℕ
bye = b'e' ∷ b'x' ∷ b'i' ∷ b't' ∷ []

hi-Says : Says hi
unfolding starts
hi-Says = record {
  fits = record {
    plain = (omega arith, λ e. omega arith, (omega arith, λ e. omega arith, tt));
    short = omega arith;
  };
  no_exit = refl;
}

oh-Says : Says oh
unfolding starts
oh-Says = record {
  fits = record {
    plain = (omega arith, λ e. omega arith, (omega arith, λ e. omega arith, tt));
    short = omega arith;
  };
  no_exit = refl;
}

bye-Fits : Fits bye
bye-Fits = record {
  plain = (
    omega arith,
    λ e. omega arith,
    (
      omega arith,
      λ e. omega arith,
      (omega arith, λ e. omega arith, (omega arith, λ e. omega arith, tt)),
    ),
  );
  short = omega arith;
}

abbrev exchanges : List Exchange
exchanges = (hi, oh) ∷ (oh, hi) ∷ []

abbrev idle : Side
idle = side [] [] []

abbrev well : Mains.Answers
well = record {
  argc = 3;
  signal_failed = false;
  fd = pos 3;
  setsockopt_failed = false;
  bind_failed = true;
  listen_failed = false;
  inet_pton_ret = pos 0;
  connect_failed = false;
}

abbrev ready : Mains.Answers
ready = record well { bind_failed = false }

server_ready :
    datagram_server ready ≡ chats (Call.signal ∷ Call.socket ∷ Call.setsockopt ∷ Call.bind ∷ [])
unfolding datagram_server
server_ready = refl

client_ready : datagram_client ready ≡ chats (Call.signal ∷ Call.socket ∷ Call.inet_pton ∷ [])
unfolding datagram_client
client_ready = refl

bye-Ends : Ends bye
unfolding starts
bye-Ends = record { fits = bye-Fits; says_exit = refl }

-- Two chats, and the second one as its client has it.
abbrev evening : List (List Exchange)
evening = exchanges ∷ ((hi, hi) ∷ []) ∷ []

chats_in_turn_example :
    (server_main ready false (map (heard bye) evening) (side (typed evening) [] [])
      ≡ done (runs (side [] (all_of said evening) (all_of replied evening))))
    × (server_main ready true (map (heard bye) evening) (side (typed evening) [] [])
        ≡ done (exited success (side [] (all_of said evening) (all_of replied evening))))
    × (client_main ready false
          (told bye ((hi, hi) ∷ []))
          (side (joined_before (said ((hi, hi) ∷ [])) (with_newline bye ++ oh)) [] [])
        ≡ done (
            exited success (
              side oh (replied ((hi, hi) ∷ [])) (said ((hi, hi) ∷ []) ++ (with_newline bye ∷ [])))))
chats_in_turn_example =
    chats_in_turn ready ready (Call.signal ∷ Call.socket ∷ Call.setsockopt ∷ Call.bind ∷ [])
      (Call.signal ∷ Call.socket ∷ Call.inet_pton ∷ []) bye oh ((hi, hi) ∷ []) evening server_ready
      client_ready bye-Ends (hi-Says, hi-Says, tt)
      ((hi-Says, oh-Says, (oh-Says, hi-Says, tt)), ((hi-Says, hi-Says, tt), tt))

server_listens :
    stream_server ready
    ≡ chats (Call.signal ∷ Call.socket ∷ Call.setsockopt ∷ Call.bind ∷ Call.listen ∷ [])
unfolding stream_server
server_listens = refl

client_connects :
    stream_client ready ≡ chats (Call.signal ∷ Call.socket ∷ Call.inet_pton ∷ Call.connect ∷ [])
unfolding stream_client
client_connects = refl

abbrev written : Stream.Answers
written = record { received = none; sendlen = pos 5 }

clients_exit_example :
    (StreamLives.client_main ready false (written ∷ []) (side (with_newline bye ++ hi) [] [])
      ≡ done (exited success (side hi [] (with_newline bye ∷ []))))
    × (StreamLives.server_main ready false
          (map (λ fd. says_exit fd (with_newline bye)) (4 ∷ 5 ∷ []))
          idle
        ≡ done (serves (waits 3 idle)))
    × (StreamLives.server_main ready true
          (map (λ fd. says_exit fd (with_newline bye)) (4 ∷ 5 ∷ []))
          idle
        ≡ done (ended success))
clients_exit_example =
    clients_exit ready ready
      (Call.signal ∷ Call.socket ∷ Call.setsockopt ∷ Call.bind ∷ Call.listen ∷ [])
      (Call.signal ∷ Call.socket ∷ Call.inet_pton ∷ Call.connect ∷ []) bye hi written 5 []
      (4 ∷ 5 ∷ []) idle server_listens client_connects bye-Ends refl
