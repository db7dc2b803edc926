-- ===== src/Client/Relay/Tests.antt =====
-- Relaying on concrete turns.
use rabbit_mtcp_ws_socks.Prelude.{◌≡◌, refl, true, false, List, [], ◌∷◌}
use rabbit_mtcp_ws_socks.Client.Relay.{
  Side, Turn, moved, at_eof, broken, to_left, to_right, bi_relay, bi_relay_turn, relay_turn,
}
use rabbit_mtcp_ws_socks.Client.Relay.Copying.{carried, bytes_of, ends, bi_relay-carried}

-- The client's stream ends first, and the answer still comes.
abbrev turns : List (Side × Turn)
turns =
    (to_right, moved (1 ∷ 2 ∷ []))
    ∷ (to_left, moved (7 ∷ []))
    ∷ (to_right, at_eof)
    ∷ (to_left, moved (8 ∷ []))
    ∷ (to_left, at_eof)
    ∷ []

-- A write to the right fails after one byte, and the other goroutine ends with it.
abbrev failing_turns : List (Side × Turn)
failing_turns =
    (to_left, moved (7 ∷ [])) ∷ (to_right, broken (1 ∷ 2 ∷ []) 1) ∷ (to_left, moved (8 ∷ [])) ∷ []

turns_bytes : bytes_of to_left turns ≡ 7 ∷ 8 ∷ []
unfolding bytes_of
turns_bytes = refl

turns_ends : ends to_right turns ≡ true
unfolding ends
turns_ends = refl

failing_written : (bi_relay failing_turns (carried [] [] false false)).right.written ≡ 1 ∷ []
unfolding bi_relay bi_relay_turn relay_turn
failing_written = refl

failing_shut : (bi_relay failing_turns (carried [] [] false false)).left.closed ≡ true
unfolding bi_relay bi_relay_turn relay_turn
failing_shut = refl

bi_relay-carried_example :
    bi_relay turns (carried [] [] false false)
    ≡ carried
        (bytes_of to_left turns)
        (bytes_of to_right turns)
        (ends to_left turns)
        (ends to_right turns)
bi_relay-carried_example = bi_relay-carried turns tt
