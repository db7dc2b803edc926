-- ===== src/Websocket.antt =====
-- WebsocketConnAdapter of tunnel/tunnel.go: a websocket's messages read as a stream of bytes. The
-- packages tunnel_pool and server have the same code.
pub mod Reading
pub mod AsStream
mod Tests
use rabbit_mtcp_ws_socks.Prelude.{
  subst, ℕ, zero, suc, ◌+◌, ◌-◌, ◌*◌, ◌/◌, ◌%◌, ◌^◌, ◌≤◌, ◌<◌, min, max, ◌≡◌, refl, sym, ap, ◌∙◌,
  ◌≢◌, ◌↔◌, ◌⊎◌, inl, inr, Bool, true, false, not, ◌&&◌, ◌||◌, Option, none, some, List, [], ◌∷◌,
  ◌++◌, map, append-nil, append_assoc, arith, ltb, leb, ◌==◌, if◌then◌else◌, ltb→lt, lt→ltb, ltb→le,
  le→ltb, ==→eq, ==→ne, eq→==, ne→==, Bool-cases, Option-cases, Result, ok, err, Result-cases,
  length, take, drop, replicate, get_or, set, All, length-append, take-append-drop, length-take,
  length-drop, length-replicate, take-append, drop-append, take_all, drop_all, drop-nil, drop-drop,
  All-append, drop-take, take-min,
}
use rabbit_mtcp_ws_socks.Io.{
  IoError, eof, unexpected_eof, timeout, failure, Stream, short_error, read_full, read_full-append,
  read_full_takes, read_full_short,
}

-- A connection of the websocket library. The first four fields look at one: the messages that are
-- to come and the error after them, and what the last reader that NextReader gave has still to
-- give, with the error that this ends in. The two calls are those that the adapter makes.
pub record Library : Type 1 where
  pub Conn : Type 0
  pub messages : Conn → List (List ℕ)
  pub ends : Conn → IoError
  pub current : Conn → List ℕ
  pub closing : Conn → IoError
  pub next_reader : Conn → Result IoError (Unit {0}) × Conn
  pub read : ℕ → Conn → (List ℕ × Option IoError) × Conn

-- What a call of a reader gave: a piece of at most `n` bytes, not empty unless nothing was asked
-- for, or the last piece with the error.
pub record Piece (w : Library) (n : ℕ) (c : w.Conn) (p : List ℕ) (e : Option IoError) (c' : w.Conn)
    : Type 0 where
  pub front : w.current c ≡ p ++ w.current c'
  pub fits : length p ≤ n
  pub messages_kept : w.messages c' ≡ w.messages c
  pub ends_kept : w.ends c' ≡ w.ends c
  pub closing_kept : w.closing c' ≡ w.closing c
  pub goes_on : e ≡ none → 0 < n → 0 < length p
  pub stops : (x : IoError) → e ≡ some x → (x ≡ w.closing c) × (w.current c' ≡ [])

-- A reader of a whole message ends in io.EOF, that of a message which breaks off, in the
-- connection's error.
pub record Opened (w : Library) (m : List ℕ) (ms : List (List ℕ)) (c c' : w.Conn) : Type 0 where
  pub its : w.current c' ≡ m
  pub rest : w.messages c' ≡ ms
  pub ends_kept : w.ends c' ≡ w.ends c
  pub whole : (w.closing c' ≡ eof) ⊎ ((ms ≡ []) × (w.closing c' ≡ w.ends c))

-- What the library documents of the two calls.
pub record LibraryLaws (w : Library) : Type 0 where
  pub next_none :
      (c : w.Conn)
      → w.messages c ≡ []
      → ((w.next_reader c).0 ≡ err (w.ends c))
        × (w.messages (w.next_reader c).1 ≡ [])
        × (w.ends (w.next_reader c).1 ≡ w.ends c)
  pub next_some :
      (c : w.Conn) (m : List ℕ) (ms : List (List ℕ))
      → w.messages c ≡ m ∷ ms
      → ((w.next_reader c).0 ≡ ok tt) × Opened w m ms c (w.next_reader c).1
  pub read_piece :
      (n : ℕ) (c : w.Conn) → Piece w n c (w.read n c).0.0 (w.read n c).0.1 (w.read n c).1

module _ (w : Library) where
  open w use {Conn, next_reader, read}

  -- `WebsocketConnAdapter`: the reader is nil or the connection's last one.
  pub record Adapter : Type 0 where
    pub conn : Conn
    pub reader : Bool

  pub close_reader : (List ℕ × Option IoError) × Conn → (List ℕ × Option IoError) × Adapter
  close_reader ((p, some eof), c) = ((p, none), record { conn = c; reader = false })
  close_reader ((p, e), c) = ((p, e), record { conn = c; reader = true })

  pub opened_read : ℕ → Result IoError (Unit {0}) × Conn → (List ℕ × Option IoError) × Adapter
  opened_read n (err e, c) = (([], some e), record { conn = c; reader = false })
  opened_read n (ok _, c) = close_reader (read n c)

  -- `Read` into `n` bytes.
  pub adapter_read : ℕ → Adapter → (List ℕ × Option IoError) × Adapter
  adapter_read n a =
      if a.reader then close_reader (read n a.conn) else opened_read n (next_reader a.conn)

-- `Write`, over the library's WriteMessage.
pub adapter_write :
    {S : Type 0} (write_message : List ℕ → S → Option IoError × S)
    → List ℕ
    → S
    → (ℕ × Option IoError) × S
adapter_write write_message b s =
    let r = write_message b s in
    elim r.0 [ some e ↦ ((0, some e), r.1) | none ↦ ((length b, none), r.1) ]
