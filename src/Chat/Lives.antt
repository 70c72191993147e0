-- ===== src/Chat/Lives.antt =====
-- 7.2-Internet-Datagram from start to end: the endless loop of the server's `main` over its chats, what
-- follows the chat of the client, and the handlers of SIGINT.
use linux_programing_n_syste.Common.{
  ℕ, ◌≡◌, refl, ap, ◌∙◌, Bool, true, false, if◌then◌else◌, List, [], ◌∷◌, ◌++◌, map,
}
use linux_programing_n_syste.Common.Int.{ℤ, pos, success}
use linux_programing_n_syste.Kernel.{Outcome, done, buffer_overrun, null_access}
use linux_programing_n_syste.Common.Typed.{Fits, with_newline}
use linux_programing_n_syste.Chat.{Side, Ended, goes_on, leaves, exits, is_exit}
use linux_programing_n_syste.Chat.Mains.{
  Call, Started, chats, exit_failure, datagram_server, datagram_client,
}
use linux_programing_n_syste.Chat.Mains
use linux_programing_n_syste.Chat.Datagram.{
  Answers, rounds, server_round, client_round, continue_with,
}
use linux_programing_n_syste.Chat.Talk.{
  delivered, side, Exchange, AllSay, said, replied, joined_before, server_rounds, client_rounds,
  exit_ends_both,
}
use mathlib.Core.List.{append_assoc, append-nil}

-- Still running, or at its end with a status.
pub data Life : Type 0 where
  runs : Side → Life
  exited : ℤ → Side → Life

-- `sig_handler1`; the descriptor that it closes goes with the process.
abbrev pub sig_handler1 : Side → Life
sig_handler1 s = exited success s

abbrev pub failure : ℤ
failure = pos 1

-- Where the answers end in a chat, it goes on, or SIGINT comes; where it ends by `break`, `k` follows.
unfoldable pub after_chat : Bool → Outcome Ended → (Side → Outcome Life) → Outcome Life
after_chat interrupted (done (goes_on s)) k = done (if interrupted then sig_handler1 s else runs s)
after_chat interrupted (done (leaves s)) k = k s
after_chat interrupted (done (exits s)) k = done (exited failure s)
after_chat interrupted buffer_overrun k = buffer_overrun
after_chat interrupted null_access k = null_access

-- The loop of the server over its chats.
unfoldable pub serve_chats : Bool → List (List Answers) → Side → Outcome Life
unfolding after_chat
serve_chats interrupted [] s = done (if interrupted then sig_handler1 s else runs s)
serve_chats interrupted (c ∷ rest) s =
    after_chat interrupted (rounds server_round c s) (serve_chats interrupted rest)

unfoldable pub after_start : Started → Side → (Side → Outcome Life) → Outcome Life
after_start (chats calls) s k = k s
after_start (exit_failure calls) s k = done (exited failure s)

-- The server, and the client, which ends behind its only chat.
unfoldable pub server_main : Mains.Answers → Bool → List (List Answers) → Side → Outcome Life
unfolding after_start serve_chats
server_main a interrupted cs s = after_start (datagram_server a) s (serve_chats interrupted cs)

unfoldable pub client_main : Mains.Answers → Bool → List Answers → Side → Outcome Life
unfolding after_start after_chat
client_main a interrupted c s =
    after_start (datagram_client a) s
      λ s1. after_chat interrupted (rounds client_round c s1) λ s2. done (exited success s2)

-- The rounds of a chat that goes on, and then more of them.
through :
    {A : Type 0} (round : A → Side → Outcome Ended) (more : List A) (t : Side) (o : Outcome Ended)
    (f g : Side → Outcome Ended)
    → ((u : Side) → f u ≡ done (goes_on t) → g u ≡ rounds round more t)
    → continue_with o f ≡ done (goes_on t)
    → continue_with o g ≡ rounds round more t
through round more t (done (goes_on u)) f g step e = step u e
through round more t (done (leaves u)) f g step e = absurd (cc)
through round more t (done (exits u)) f g step e = absurd (cc)
through round more t buffer_overrun f g step e = absurd (cc)
through round more t null_access f g step e = absurd (cc)

same_side : (s t : Side) → done (goes_on s) ≡ done (goes_on t) → s ≡ t
same_side s t e = cc

rounds-append :
    {A : Type 0} (round : A → Side → Outcome Ended) (cs more : List A) (s t : Side)
    → rounds round cs s ≡ done (goes_on t)
    → rounds round (cs ++ more) s ≡ rounds round more t
unfolding rounds
rounds-append round [] more s t e = ap (rounds round more) (same_side s t e)
rounds-append round (c ∷ cs) more s t e =
    through round more t (round c s) (rounds round cs) (rounds round (cs ++ more))
      (λ u h. rounds-append round cs more u t h) e

-- The line that ends a chat.
pub record Ends (text : List ℕ) : Type 0 where
  pub fits : Fits text
  pub says_exit : is_exit (with_newline text) ≡ true

-- One chat, as the server hears it and as its client does: the exchanges, and the line that ends it.
abbrev pub heard : List ℕ → List Exchange → List Answers
heard bye es = map (λ e. delivered e.0 e.1) es ++ (delivered bye [] ∷ [])

abbrev pub told : List ℕ → List Exchange → List Answers
told bye es = map (λ e. delivered e.1 e.0) es ++ (delivered [] bye ∷ [])

abbrev pub AllChats : List (List Exchange) → Type 0
AllChats [] = Unit
AllChats (es ∷ css) = AllSay es × AllChats css

abbrev pub all_of : (List Exchange → List (List ℕ)) → List (List Exchange) → List (List ℕ)
all_of f [] = []
all_of f (es ∷ css) = f es ++ all_of f css

-- What is typed at the server, for all the chats.
abbrev pub typed : List (List Exchange) → List ℕ
typed [] = []
typed (es ∷ css) = joined_before (replied es) (typed css)

module _ (bye : List ℕ) (ends : Ends bye) where
  server_hears :
      (es : List Exchange) (rest : List ℕ) (shown sent : List (List ℕ))
      → AllSay es
      → rounds server_round (heard bye es) (side (joined_before (replied es) rest) shown sent)
        ≡ done (leaves (side rest (shown ++ said es) (sent ++ replied es)))
  unfolding rounds
  server_hears es rest shown sent h =
      let s = side rest (shown ++ said es) (sent ++ replied es) in
      rounds-append server_round (map (λ e. delivered e.0 e.1) es) (delivered bye [] ∷ [])
        (side (joined_before (replied es) rest) shown sent) s (server_rounds es rest shown sent h)
      ∙ rw (exit_ends_both bye [] [] [] [] s (delivered bye []) ends.fits ends.says_exit).1 refl

  serves_all :
      (interrupted : Bool) (css : List (List Exchange)) (shown sent : List (List ℕ))
      → AllChats css
      → serve_chats interrupted (map (heard bye) css) (side (typed css) shown sent)
        ≡ serve_chats interrupted []
            (side [] (shown ++ all_of said css) (sent ++ all_of replied css))
  unfolding serve_chats
  serves_all interrupted [] shown sent h = rw (append-nil shown) (rw (append-nil sent) refl)
  serves_all interrupted (es ∷ css) shown sent (h, hs) =
      rw (server_hears es (typed css) shown sent h) (
        serves_all interrupted css (shown ++ said es) (sent ++ replied es) hs
        ∙ rw (append_assoc shown (said es) (all_of said css))
            (rw (append_assoc sent (replied es) (all_of replied css)) refl))

  client_tells :
      (es : List Exchange) (rest : List ℕ)
      → AllSay es
      → rounds client_round
          (told bye es)
          (side (joined_before (said es) (with_newline bye ++ rest)) [] [])
        ≡ done (leaves (side rest (replied es) (said es ++ (with_newline bye ∷ []))))
  unfolding rounds
  client_tells es rest h =
      let s = side (with_newline bye ++ rest) (replied es) (said es) in
      rounds-append client_round (map (λ e. delivered e.1 e.0) es) (delivered [] bye ∷ [])
        (side (joined_before (said es) (with_newline bye ++ rest)) [] []) s
        (client_rounds es (with_newline bye ++ rest) [] [] h)
      ∙ rw
          (exit_ends_both bye rest [] (replied es) (said es) s (delivered [] bye) ends.fits
            ends.says_exit).0
          refl

-- Once both have started, over a link that delivers each message whole: a client that ends its chat with
-- `exit` ends with status 0, having shown all replies to it. The server goes on with chat after chat; it
-- has then shown what was said in all of them, in order, and sent all replies. SIGINT ends it with
-- status 0.
pub chats_in_turn :
    (a b : Mains.Answers) (calls calls' : List Call) (bye rest : List ℕ) (es : List Exchange)
    (css : List (List Exchange))
    → datagram_server a ≡ chats calls
    → datagram_client b ≡ chats calls'
    → Ends bye
    → AllSay es
    → AllChats css
    → (server_main a false (map (heard bye) css) (side (typed css) [] [])
        ≡ done (runs (side [] (all_of said css) (all_of replied css))))
      × (server_main a true (map (heard bye) css) (side (typed css) [] [])
          ≡ done (exited success (side [] (all_of said css) (all_of replied css))))
      × (client_main b false
            (told bye es)
            (side (joined_before (said es) (with_newline bye ++ rest)) [] [])
          ≡ done (exited success (side rest (replied es) (said es ++ (with_newline bye ∷ [])))))
unfolding server_main client_main
chats_in_turn a b calls calls' bye rest es css started started' ends h hs = (
  rw started (serves_all bye ends false css [] [] hs),
  rw started (serves_all bye ends true css [] [] hs),
  rw started' (rw (client_tells bye ends es rest h) refl),
)
