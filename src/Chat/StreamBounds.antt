-- ===== src/Chat/StreamBounds.antt =====
-- The bounds of the receive buffer in 7.2-Internet-Stream.
use linux_programing_n_syste.Common.{
  ℕ, zero, suc, ◌<◌, ◌≡◌, refl, arith, false, List, [], ◌∷◌, length, drop, replicate, overlay, some,
}
use linux_programing_n_syste.Common.CString.{has_nul, NoNul, NoNul-append}
use linux_programing_n_syste.Kernel.{buffer_overrun}
use linux_programing_n_syste.Chat.{filled, is_exit, Side}
use linux_programing_n_syste.Chat.Stream.{
  Answers, print_message, server_received, server_round, client_received,
}

NoNul-has_nul : (bytes : List ℕ) → NoNul bytes → has_nul bytes ≡ false
NoNul-has_nul [] h = refl
NoNul-has_nul (zero ∷ bytes) h = absurd (omega arith)
NoNul-has_nul (suc c ∷ bytes) h = NoNul-has_nul bytes h.1

NoNul-drop : (n : ℕ) (bytes : List ℕ) → NoNul bytes → NoNul (drop n bytes)
NoNul-drop zero bytes h = h
NoNul-drop (suc n) [] h = tt
NoNul-drop (suc n) (c ∷ bytes) h = NoNul-drop n bytes h.1

NoNul-replicate : (n c : ℕ) → 0 < c → NoNul (replicate n c)
NoNul-replicate zero c h = tt
NoNul-replicate (suc n) c h = (h, NoNul-replicate n c h)

received-NoNul : (bytes : List ℕ) → NoNul bytes → NoNul (overlay bytes filled)
received-NoNul bytes h =
    NoNul-append bytes (drop (length bytes) filled) h
      (NoNul-drop (length bytes) filled (NoNul-replicate 30 b'0' (omega arith)))

-- Whatever comes without a NUL, and does not begin with `exit`, makes both sides read past the end
-- of the buffer; the end of the stream, where nothing comes, is such a case.
pub message_overreads :
    (bytes : List ℕ) (a : Answers) (s : Side)
    → NoNul bytes
    → is_exit (overlay bytes filled) ≡ false
    → (server_round (record a { received = some bytes }) s ≡ buffer_overrun)
      × (client_received (some bytes) s ≡ buffer_overrun)
unfolding server_round server_received client_received print_message
message_overreads bytes a s clean no_exit =
    rw no_exit (rw (NoNul-has_nul (overlay bytes filled) (received-NoNul bytes clean)) (refl, refl))
