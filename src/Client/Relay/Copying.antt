-- ===== src/Client/Relay/Copying.antt =====
-- What relay and biRelay of client/client.go copy, in whatever order their goroutines run.
use rabbit_mtcp_ws_socks.Prelude.{
  ℕ, ◌≡◌, ◌∙◌, Bool, true, false, ◌&&◌, ◌||◌, List, [], ◌∷◌, ◌++◌, append-nil, append_assoc,
  if◌then◌else◌,
}
use rabbit_mtcp_ws_socks.Client.Relay.{
  Turn, moved, at_eof, broken, relay_turn, Side, to_left, to_right, BiRelay, bi_relay_turn,
  bi_relay,
}

-- The ends when these bytes were carried to the left and to the right, and when the streams of bytes
-- to the left and to the right have ended.
abbrev pub carried : (left right : List ℕ) → (left_over right_over : Bool) → BiRelay
carried l r lo ro = record {
  left = record {
    received = r;
    written = l;
    read_closed = ro;
    write_closed = lo;
    expired = false;
    closed = lo && ro;
  };
  right = record {
    received = l;
    written = r;
    read_closed = lo;
    write_closed = ro;
    expired = false;
    closed = lo && ro;
  };
  left_done = lo;
  right_done = ro;
}

-- The bytes of one side's turns up to the end of its stream.
unfoldable pub bytes_of : Side → List (Side × Turn) → List ℕ
bytes_of side [] = []
bytes_of to_left ((to_left, moved bs) ∷ turns) = bs ++ bytes_of to_left turns
bytes_of to_left ((to_left, at_eof) ∷ turns) = []
bytes_of to_left ((to_left, broken bs n) ∷ turns) = []
bytes_of to_left ((to_right, t) ∷ turns) = bytes_of to_left turns
bytes_of to_right ((to_right, moved bs) ∷ turns) = bs ++ bytes_of to_right turns
bytes_of to_right ((to_right, at_eof) ∷ turns) = []
bytes_of to_right ((to_right, broken bs n) ∷ turns) = []
bytes_of to_right ((to_left, t) ∷ turns) = bytes_of to_right turns

-- That the side's stream ends.
unfoldable pub ends : Side → List (Side × Turn) → Bool
ends side [] = false
ends to_left ((to_left, moved bs) ∷ turns) = ends to_left turns
ends to_left ((to_left, at_eof) ∷ turns) = true
ends to_left ((to_left, broken bs n) ∷ turns) = true
ends to_left ((to_right, t) ∷ turns) = ends to_left turns
ends to_right ((to_right, moved bs) ∷ turns) = ends to_right turns
ends to_right ((to_right, at_eof) ∷ turns) = true
ends to_right ((to_right, broken bs n) ∷ turns) = true
ends to_right ((to_left, t) ∷ turns) = ends to_right turns

-- That no read and no write fails.
abbrev pub Unbroken : List (Side × Turn) → Type 0
Unbroken [] = Unit {0}
Unbroken ((side, moved bs) ∷ turns) = Unbroken turns
Unbroken ((side, at_eof) ∷ turns) = Unbroken turns
Unbroken ((side, broken bs n) ∷ turns) = ⊥

-- The bytes after `over` says if the side's stream has already ended.
abbrev after : Bool → Side → List (Side × Turn) → List ℕ
after over side turns = if over then [] else bytes_of side turns

bi_relay-from :
    (turns : List (Side × Turn)) (l r : List ℕ) (lo ro : Bool)
    → Unbroken turns
    → bi_relay turns (carried l r lo ro)
      ≡ carried
          (l ++ after lo to_left turns)
          (r ++ after ro to_right turns)
          (lo || ends to_left turns)
          (ro || ends to_right turns)
unfolding bi_relay bi_relay_turn relay_turn bytes_of ends
bi_relay-from [] l r true true u = rw (append-nil l, append-nil r)
bi_relay-from [] l r true false u = rw (append-nil l, append-nil r)
bi_relay-from [] l r false true u = rw (append-nil l, append-nil r)
bi_relay-from [] l r false false u = rw (append-nil l, append-nil r)
bi_relay-from ((to_left, moved bs) ∷ turns) l r true ro u = bi_relay-from turns l r true ro u
bi_relay-from ((to_left, moved bs) ∷ turns) l r false true u =
    bi_relay-from turns (l ++ bs) r false true u ∙ rw (append_assoc l bs (bytes_of to_left turns))
bi_relay-from ((to_left, moved bs) ∷ turns) l r false false u =
    bi_relay-from turns (l ++ bs) r false false u ∙ rw (append_assoc l bs (bytes_of to_left turns))
bi_relay-from ((to_left, at_eof) ∷ turns) l r true ro u = bi_relay-from turns l r true ro u
bi_relay-from ((to_left, at_eof) ∷ turns) l r false true u = bi_relay-from turns l r true true u
bi_relay-from ((to_left, at_eof) ∷ turns) l r false false u = bi_relay-from turns l r true false u
bi_relay-from ((to_left, broken bs n) ∷ turns) l r lo ro u = absurd u
bi_relay-from ((to_right, moved bs) ∷ turns) l r true true u = bi_relay-from turns l r true true u
bi_relay-from ((to_right, moved bs) ∷ turns) l r false true u = bi_relay-from turns l r false true u
bi_relay-from ((to_right, moved bs) ∷ turns) l r true false u =
    bi_relay-from turns l (r ++ bs) true false u ∙ rw (append_assoc r bs (bytes_of to_right turns))
bi_relay-from ((to_right, moved bs) ∷ turns) l r false false u =
    bi_relay-from turns l (r ++ bs) false false u ∙ rw (append_assoc r bs (bytes_of to_right turns))
bi_relay-from ((to_right, at_eof) ∷ turns) l r true true u = bi_relay-from turns l r true true u
bi_relay-from ((to_right, at_eof) ∷ turns) l r false true u = bi_relay-from turns l r false true u
bi_relay-from ((to_right, at_eof) ∷ turns) l r true false u = bi_relay-from turns l r true true u
bi_relay-from ((to_right, at_eof) ∷ turns) l r false false u = bi_relay-from turns l r false true u
bi_relay-from ((to_right, broken bs n) ∷ turns) l r lo ro u = absurd u

-- Relaying copies both streams, in whatever order the two goroutines take their turns: when no read
-- and no write fails, each end has been written the bytes of its own side's turns up to the end of
-- that stream, which are the bytes that were read from the other end; a stream that ends closes the
-- other end for writing and its own for reading and no more, so that the other direction goes on;
-- and the ends are closed when both streams have ended.
pub bi_relay-carried :
    (turns : List (Side × Turn))
    → Unbroken turns
    → bi_relay turns (carried [] [] false false)
      ≡ carried
          (bytes_of to_left turns)
          (bytes_of to_right turns)
          (ends to_left turns)
          (ends to_right turns)
bi_relay-carried turns u = bi_relay-from turns [] [] false false u
