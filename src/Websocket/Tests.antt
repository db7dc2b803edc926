-- ===== src/Websocket/Tests.antt =====
-- The adapter of tunnel/tunnel.go over a connection of two messages, the second of which breaks off.
use rabbit_mtcp_ws_socks.Websocket.{Library, LibraryLaws, Opened, Piece, Adapter, adapter_read}
use rabbit_mtcp_ws_socks.Prelude.{
  ℕ, ◌≡◌, refl, sym, ◌∙◌, inl, inr, false, Option, none, some, List, [], ◌∷◌, arith, Result, ok,
  err, take, drop, take-append-drop, length-take,
}
use rabbit_mtcp_ws_socks.Io.{IoError, eof, failure, read_full}
use rabbit_mtcp_ws_socks.Websocket.Reading.{flat, IsSound}
use rabbit_mtcp_ws_socks.Websocket.AsStream.{read_full_from, read_full_from-flat}

record Script : Type 0 where
  messages : List (List ℕ)
  ends : IoError
  current : List ℕ
  closing : IoError

abbrev next_message : List (List ℕ) → Script → Result IoError (Unit {0}) × Script
next_message [] c = (err c.ends, c)
next_message (m ∷ []) c = (ok tt, record c { messages = []; current = m; closing = c.ends })
next_message (m ∷ n ∷ ms) c = (ok tt, record c { messages = n ∷ ms; current = m; closing = eof })

abbrev read_some : ℕ → List ℕ → Script → (List ℕ × Option IoError) × Script
read_some n [] c = (([], some c.closing), c)
read_some n (b ∷ bs) c = ((take n (b ∷ bs), none), record c { current = drop n (b ∷ bs) })

abbrev scripted : Library
scripted = record {
  Conn = Script;
  messages = λ c. c.messages;
  ends = λ c. c.ends;
  current = λ c. c.current;
  closing = λ c. c.closing;
  next_reader = λ c. next_message c.messages c;
  read = λ n c. read_some n c.current c;
}

next_none_lem :
    (c : Script) (ms : List (List ℕ))
    → ms ≡ []
    → ((next_message ms c).0 ≡ err c.ends) × ((next_message ms c).1 ≡ c)
next_none_lem c [] h = (refl, refl)
next_none_lem c (m ∷ ms) h = absurd (cc)

next_some_lem :
    (c : Script) (l : List (List ℕ)) (m : List ℕ) (ms : List (List ℕ))
    → l ≡ m ∷ ms
    → ((next_message l c).0 ≡ ok tt) × Opened scripted m ms c (next_message l c).1
next_some_lem c [] m ms h = absurd (cc)
next_some_lem c (x ∷ []) m ms h =
    (refl, record { its = cc; rest = cc; ends_kept = refl; whole = inr (cc, refl) })
next_some_lem c (x ∷ y ∷ l) m ms h =
    (refl, record { its = cc; rest = cc; ends_kept = refl; whole = inl refl })

read_some_lem :
    (n : ℕ) (bs : List ℕ) (c : Script)
    → c.current ≡ bs
    → let r = read_some n bs c in Piece scripted n c r.0.0 r.0.1 r.1
read_some_lem n [] c h = record {
  front = refl;
  fits = omega arith;
  messages_kept = refl;
  ends_kept = refl;
  closing_kept = refl;
  goes_on = λ no_error. absurd (cc);
  stops = λ x same. (cc, h);
}
read_some_lem n (b ∷ bs) c h = record {
  front = h ∙ sym (take-append-drop n (b ∷ bs));
  fits = omega (arith, length-take n (b ∷ bs));
  messages_kept = refl;
  ends_kept = refl;
  closing_kept = refl;
  goes_on = λ no_error more. omega (arith, length-take n (b ∷ bs));
  stops = λ x same. absurd (cc);
}

scripted-LibraryLaws : LibraryLaws scripted
scripted-LibraryLaws = record {
  next_none = λ c h. let (a, b) = next_none_lem c c.messages h in (a, rw b h, rw b);
  next_some = λ c m ms h. next_some_lem c c.messages m ms h;
  read_piece = λ n c. read_some_lem n c.current c refl;
}

abbrev two_messages : Adapter scripted
two_messages = record {
  conn = record {
    messages = (1 ∷ 2 ∷ 3 ∷ []) ∷ (4 ∷ 5 ∷ []) ∷ [];
    ends = failure 7;
    current = [];
    closing = eof;
  };
  reader = false;
}

read_full_from-flat_example :
    (a' : Adapter scripted) × (read_full_from (adapter_read scripted) 7 4 two_messages
      ≡ some (ok (1 ∷ 2 ∷ 3 ∷ 4 ∷ []), a'))
    × (flat scripted a' ≡ record { bytes = 5 ∷ []; ends = failure 7 })
    × IsSound scripted a'
unfolding read_full
read_full_from-flat_example =
    read_full_from-flat scripted scripted-LibraryLaws 7 4 two_messages (inl refl) (omega arith)
