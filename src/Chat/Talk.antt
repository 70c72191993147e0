-- ===== src/Chat/Talk.antt =====
-- A chat of 7.2-Internet-Datagram over a link that delivers what is sent.
use linux_programing_n_syste.Common.{
  ℕ, ◌≡◌, refl, ap, ◌∙◌, arith, true, false, ==_iff, List, [], ◌∷◌, ◌++◌, length, map,
  length-append, overlay, some,
}
use linux_programing_n_syste.Common.Int.{pos}
use linux_programing_n_syste.Common.CString.{c_string}
use mathlib.Core.List.{append_assoc, append-nil}
use linux_programing_n_syste.Kernel.{Outcome, done, buffer_overrun}
use linux_programing_n_syste.Chat.{
  buf_size, filled, is_exit, Side, Ended, goes_on, leaves, show, post,
}
use linux_programing_n_syste.Chat.Datagram.{
  Answers, send, terminate, server_answer, server_received, server_round, client_received,
  client_round, rounds,
}
use linux_programing_n_syste.Common.Typed.{Fits, with_newline, Plain-NoNul}
use linux_programing_n_syste.Chat.Lines.{
  Says, type_line_lem, is_exit-buffer, is_exit-received, c_string-buffer,
}

-- The answers where the other side's message comes and this side's goes, whole.
abbrev pub delivered : List ℕ → List ℕ → Answers
delivered coming going = record {
  received = some (with_newline coming);
  sendlen = pos (length (with_newline going));
  sendlen_again = pos 0;
}

send_whole :
    (a : Answers) (msg : List ℕ) (s : Side) (k : Side → Outcome Ended)
    → a.sendlen ≡ pos (length msg)
    → send a msg s k ≡ k (post msg s)
unfolding send
send_whole a msg s k e = rw e (rw ((==_iff (length msg) (length msg)).1 refl) refl)

terminate_lem :
    (text : List ℕ) (k : List ℕ → Outcome Ended)
    → Fits text
    → terminate (with_newline text) k ≡ k (overlay (with_newline text ++ (0 ∷ [])) filled)
unfolding terminate
terminate_lem text k h = ground (arith, h.short, length-append {0} text (10 ∷ []))

abbrev pub side : List ℕ → List (List ℕ) → List (List ℕ) → Side
side typed shown sent = record { stdin = typed; shown = shown; sent = sent }

-- The server's answer to what it has shown.
answered :
    (a b rest : List ℕ) (shown sent : List (List ℕ))
    → Says b
    → server_answer (delivered a b) (side (with_newline b ++ rest) shown sent)
      ≡ done (goes_on (side rest shown (sent ++ (with_newline b ∷ []))))
unfolding server_answer
answered a b rest shown sent says =
    rw (type_line_lem b rest (side (with_newline b ++ rest) shown sent) _ says.fits) (
      rw (send_whole (delivered a b) (with_newline b) (side rest shown sent) _ refl)
        (rw (is_exit-buffer b filled) (rw says.no_exit refl)))

-- What the client makes of the answer.
noted :
    (b : List ℕ) (s : Side)
    → Says b
    → client_received (some (with_newline b)) s ≡ done (goes_on (show (with_newline b) s))
unfolding client_received
noted b s says = rw (terminate_lem b _ says.fits) (
    rw (is_exit-buffer b filled) (
      rw says.no_exit (rw (c_string-buffer (with_newline b) (Plain-NoNul b says.fits.plain)) refl)))

server_round_lem :
    (a b rest : List ℕ) (shown sent : List (List ℕ))
    → Says a
    → Says b
    → server_round (delivered a b) (side (with_newline b ++ rest) shown sent)
      ≡ done (goes_on (side rest (shown ++ (with_newline a ∷ [])) (sent ++ (with_newline b ∷ []))))
unfolding server_round server_received
server_round_lem a b rest shown sent says_a says_b = rw (is_exit-received a filled) (
    rw says_a.no_exit (
      rw
        (terminate_lem a
          (λ buf.
            server_answer (delivered a b)
              (show (c_string buf) (side (with_newline b ++ rest) shown sent)))
          says_a.fits)
        (rw (c_string-buffer (with_newline a) (Plain-NoNul a says_a.fits.plain))
          (answered a b rest (shown ++ (with_newline a ∷ [])) sent says_b))))

client_round_lem :
    (a b rest : List ℕ) (shown sent : List (List ℕ))
    → Says a
    → Says b
    → client_round (delivered b a) (side (with_newline a ++ rest) shown sent)
      ≡ done (goes_on (side rest (shown ++ (with_newline b ∷ [])) (sent ++ (with_newline a ∷ []))))
unfolding client_round
client_round_lem a b rest shown sent says_a says_b =
    rw (type_line_lem a rest (side (with_newline a ++ rest) shown sent) _ says_a.fits) (
      rw (send_whole (delivered b a) (with_newline a) (side rest shown sent) _ refl) (
        rw (is_exit-buffer a filled)
          (rw says_a.no_exit (noted b (side rest shown (sent ++ (with_newline a ∷ []))) says_b))))

-- What the client says and the server answers, in turn.
abbrev pub Exchange : Type 0
Exchange = List ℕ × List ℕ

abbrev pub AllSay : List Exchange → Type 0
AllSay [] = Unit
AllSay ((a, b) ∷ rest) = Says a × Says b × AllSay rest

abbrev pub said : List Exchange → List (List ℕ)
said es = map (λ e. with_newline e.0) es

abbrev pub replied : List Exchange → List (List ℕ)
replied es = map (λ e. with_newline e.1) es

abbrev pub joined : List (List ℕ) → List ℕ
joined [] = []
joined (l ∷ ls) = l ++ joined ls

-- Lines with some input behind them.
abbrev pub joined_before : List (List ℕ) → List ℕ → List ℕ
joined_before [] rest = rest
joined_before (l ∷ ls) rest = l ++ joined_before ls rest

joined_before_none : (ls : List (List ℕ)) → joined_before ls [] ≡ joined ls
joined_before_none [] = refl
joined_before_none (l ∷ ls) = ap (λ t. l ++ t) (joined_before_none ls)

pub server_rounds :
    (es : List Exchange) (rest : List ℕ) (shown sent : List (List ℕ))
    → AllSay es
    → rounds server_round
        (map (λ e. delivered e.0 e.1) es)
        (side (joined_before (replied es) rest) shown sent)
      ≡ done (goes_on (side rest (shown ++ said es) (sent ++ replied es)))
unfolding rounds
server_rounds [] rest shown sent h = rw (append-nil shown) (rw (append-nil sent) refl)
server_rounds ((a, b) ∷ es) rest shown sent (p, q, h) =
    rw (server_round_lem a b (joined_before (replied es) rest) shown sent p q) (
      server_rounds es rest (shown ++ (with_newline a ∷ [])) (sent ++ (with_newline b ∷ [])) h
      ∙ rw (append_assoc shown (with_newline a ∷ []) (said es))
          (rw (append_assoc sent (with_newline b ∷ []) (replied es)) refl))

pub client_rounds :
    (es : List Exchange) (rest : List ℕ) (shown sent : List (List ℕ))
    → AllSay es
    → rounds client_round
        (map (λ e. delivered e.1 e.0) es)
        (side (joined_before (said es) rest) shown sent)
      ≡ done (goes_on (side rest (shown ++ replied es) (sent ++ said es)))
unfolding rounds
client_rounds [] rest shown sent h = rw (append-nil shown) (rw (append-nil sent) refl)
client_rounds ((a, b) ∷ es) rest shown sent (p, q, h) =
    rw (client_round_lem a b (joined_before (said es) rest) shown sent p q) (
      client_rounds es rest (shown ++ (with_newline b ∷ [])) (sent ++ (with_newline a ∷ [])) h
      ∙ rw (append_assoc shown (with_newline b ∷ []) (replied es))
          (rw (append_assoc sent (with_newline a ∷ []) (said es)) refl))

-- Over a link that delivers each message whole, a chat of lines of at most 28 characters, none of
-- which begins with `exit`, goes on: each side has sent the lines typed at it, and has shown, in
-- order, exactly those that the other side sent.
pub conversation :
    (es : List Exchange)
    → AllSay es
    → (rounds client_round (map (λ e. delivered e.1 e.0) es) (side (joined (said es)) [] [])
        ≡ done (goes_on (side [] (replied es) (said es))))
      × (rounds server_round (map (λ e. delivered e.0 e.1) es) (side (joined (replied es)) [] [])
          ≡ done (goes_on (side [] (said es) (replied es))))
conversation es h = (
  rw (← joined_before_none (said es)) (client_rounds es [] [] [] h),
  rw (← joined_before_none (replied es)) (server_rounds es [] [] [] h),
)

-- A line that begins with `exit`, typed at the client, ends the chat of both sides, whatever stands
-- in the input of the server and whatever comes to the client; nothing of it is shown.
pub exit_ends_both :
    (text rest coming : List ℕ) (shown sent : List (List ℕ)) (server : Side) (a : Answers)
    → Fits text
    → is_exit (with_newline text) ≡ true
    → (client_round (delivered coming text) (side (with_newline text ++ rest) shown sent)
        ≡ done (leaves (side rest shown (sent ++ (with_newline text ∷ [])))))
      × (server_round (record a { received = some (with_newline text) }) server
          ≡ done (leaves server))
unfolding client_round server_round server_received
exit_ends_both text rest coming shown sent server a fits ends = (
  rw (type_line_lem text rest (side (with_newline text ++ rest) shown sent) _ fits) (
      rw (send_whole (delivered coming text) (with_newline text) (side rest shown sent) _ refl)
        (rw (is_exit-buffer text filled) (rw ends refl))),
  rw (is_exit-received text filled) (rw ends refl),
)

overlay_full : (bytes : List ℕ) → length bytes ≡ buf_size → overlay bytes filled ≡ bytes
overlay_full bytes full = rw full (append-nil bytes)

-- A datagram that fills the buffer of 30 bytes, and does not begin with `exit`, makes both sides
-- store a NUL past its end.
pub full_datagram_overruns :
    (bytes : List ℕ) (a : Answers) (s : Side)
    → length bytes ≡ buf_size
    → is_exit bytes ≡ false
    → (server_round (record a { received = some bytes }) s ≡ buffer_overrun)
      × (client_received (some bytes) s ≡ buffer_overrun)
unfolding server_round server_received client_received terminate
full_datagram_overruns bytes a s full no_exit =
    rw (overlay_full bytes full) (rw no_exit (rw full (refl, refl)))
