-- ===== src/Tunnel/Conn.antt =====
-- streamConn of tunnel/tunnel.go: a connection that begins with a salt in each direction.
use rabbit_mtcp_ws_socks.Prelude.{
  ℕ, suc, ◌+◌, ◌-◌, ◌≡◌, ap, ◌∙◌, Option, none, some, List, [], ◌++◌, arith, Result, ok, err,
  length, replicate,
}
use rabbit_mtcp_ws_socks.Io.{IoError, eof, Stream, read_full, read_full-append}
use rabbit_mtcp_ws_socks.Tunnel.Crypt.{
  not_eof, Aead, AeadLaws, Sink, put, Writer, write, read, Reader, write_to, write_to_loop,
  new_reader, new_writer,
}
use rabbit_mtcp_ws_socks.Tunnel.Records.{reader, seal_all, write_lem}
use rabbit_mtcp_ws_socks.Tunnel.RoundTrip.{count_eq, sink, write_to_loop-seal_all, count_eq}

-- A cipher as streamConn uses it: the size of its salts, and the AEAD that a salt gives, which may
-- fail.
pub record Cipher : Type 0 where
  pub salt_size : ℕ
  pub aead : List ℕ → Result IoError Aead

-- The part of a `streamConn` that reads: the reader is nil until the salt was read.
pub record ReadSide : Type 0 where
  pub incoming : Stream
  pub reader : Option (Aead × Reader)

-- The part that writes.
pub record WriteSide : Type 0 where
  pub outgoing : Sink
  pub writer : Option (Aead × Writer)

unfoldable pub with_aead : Stream → Result IoError Aead → Result IoError (Aead × Reader)
with_aead s (ok a) = ok (a, new_reader a s)
with_aead s (err e) = err e

unfoldable pub salt_read :
    Cipher → Result IoError (List ℕ) × Stream → Result IoError (Aead × Reader) × Stream
salt_read c (ok salt, s) = (with_aead s (c.aead salt), s)
salt_read c (err e, s) = (err e, s)

-- `initReader`.
unfoldable pub init_reader : Cipher → ReadSide → Result IoError (Aead × Reader) × Stream
init_reader c r = salt_read c (read_full c.salt_size r.incoming)

unfoldable pub send_salt : Aead → Option IoError × Sink → Result IoError (Aead × Writer) × Sink
send_salt a (none, s) = (ok (a, new_writer a s), s)
send_salt a (some e, s) = (err e, s)

-- `initWriter`, with the salt that crypto/rand gave.
unfoldable pub init_writer : Cipher → List ℕ → Sink → Result IoError (Aead × Writer) × Sink
init_writer c salt s = elim (c.aead salt) [ err e ↦ (err e, s) | ok a ↦ send_salt a (put s salt) ]

unfoldable pub write_with :
    List ℕ → Result IoError (Aead × Writer) × Sink → (ℕ × Option IoError) × WriteSide
write_with b (ok (a, w), s) =
    let (r, w') = write a b w in (r, record { outgoing = w'.sink; writer = some (a, w') })
write_with b (err e, s) = ((0, some e), record { outgoing = s; writer = none })

-- `Write`.
unfoldable pub conn_write :
    Cipher → (salt b : List ℕ) → WriteSide → (ℕ × Option IoError) × WriteSide
conn_write c salt b x = elim x.writer [
  | none ↦ write_with b (init_writer c salt x.outgoing)
  | some aw ↦ write_with b (ok aw, x.outgoing)
]

unfoldable pub forward_with :
    ℕ → Sink → Result IoError (Aead × Reader) × Stream → (ℕ × Option IoError) × (ReadSide × Sink)
forward_with fuel out (ok (a, r), s) =
    let (res, ends) = write_to fuel a r out in
    (res, (record { incoming = ends.0.stream; reader = some (a, ends.0) }, ends.1))
forward_with fuel out (err e, s) = ((0, some e), (record { incoming = s; reader = none }, out))

-- `WriteTo`.
unfoldable pub conn_write_to :
    ℕ → Cipher → ReadSide → Sink → (ℕ × Option IoError) × (ReadSide × Sink)
conn_write_to fuel c x out = elim x.reader [
  | none ↦ forward_with fuel out (init_reader c x)
  | some ar ↦ forward_with fuel out (ok ar, x.incoming)
]

unfoldable pub read_with :
    ℕ → Result IoError (Aead × Reader) × Stream → (List ℕ × Option IoError) × ReadSide
read_with room (ok (a, r), s) =
    let (res, r') = read a room r in (res, record { incoming = r'.stream; reader = some (a, r') })
read_with room (err e, s) = (([], some e), record { incoming = s; reader = none })

-- `Read`.
unfoldable pub conn_read : Cipher → ℕ → ReadSide → (List ℕ × Option IoError) × ReadSide
conn_read c room x = elim x.reader [
  | none ↦ read_with room (init_reader c x)
  | some ar ↦ read_with room (ok ar, x.incoming)
]

init_writer_lem :
    (c : Cipher) (salt out : List ℕ) (k : ℕ) (e : IoError) (a : Aead)
    → c.aead salt ≡ ok a
    → init_writer c salt (sink out (suc k) e)
      ≡ (ok (a, new_writer a (sink (out ++ salt) k e)), sink (out ++ salt) k e)
unfolding init_writer put send_salt
init_writer_lem c salt out k e a h = rw (h, init_writer)

init_reader_lem :
    (c : Cipher) (salt rest : List ℕ) (a : Aead)
    → c.aead salt ≡ ok a
    → c.salt_size ≡ length salt
    → init_reader c
        (record { incoming = record { bytes = salt ++ rest; ends = eof }; reader = none })
      ≡ (
        ok (a, new_reader a (record { bytes = rest; ends = eof })),
        record { bytes = rest; ends = eof },
      )
unfolding init_reader salt_read with_aead
init_reader_lem c salt rest a h l =
    ap (salt_read c) (read_full-append c.salt_size salt rest eof l) ∙ rw h

-- Two ends with the same cipher understand each other: on connections that take the writes, the
-- first Write of b sends the salt and b sealed, and returns the length of b; and WriteTo of the
-- other end, over what was sent, reads the salt, hands on exactly b, and returns its length.
pub conn_write_to-conn_write :
    (c : Cipher) (salt : List ℕ) (a : Aead)
    → AeadLaws a
    → c.aead salt ≡ ok a
    → c.salt_size ≡ length salt
    → (b out : List ℕ) (k j : ℕ) (e e' : IoError) → (sent : (ℕ × Option IoError) × WriteSide)
    → sent
      ≡ conn_write c salt b (record { outgoing = sink [] (suc (length b + k)) e; writer = none })
    → (handed : (ℕ × Option IoError) × (ReadSide × Sink))
    → handed
      ≡ conn_write_to
          (suc (length b))
          c
          (record {
            incoming = record { bytes = sent.1.outgoing.taken; ends = eof };
            reader = none;
          })
          (sink out (length b + j) e')
    → (sent.0 ≡ (length b, none)) × (handed.0 ≡ (length b, none)) × (handed.1.1.taken ≡ out ++ b)
unfolding conn_write conn_write_to write_with forward_with new_writer new_reader write_to not_eof
conn_write_to-conn_write c salt a laws h l b out k j e e' sent hs handed hh =
    let z = replicate a.nonce_size 0 in
    let (cs, w, p, q, ln) = write_lem a b z salt k e in
    let sealed = seal_all a z cs in
    let s =
      hs
      ∙ ap (write_with b) (init_writer_lem c salt [] (length b + k) e a h)
      ∙ ap
          (λ (x : (ℕ × Option IoError) × Writer).
            (x.0, record { outgoing = x.1.sink; writer = some (a, x.1) }))
          w in
    let loop =
      write_to_loop-seal_all a laws cs (suc (length b)) 0 (length b - length cs + j) z out e' eof p
        (omega arith) in
    let whole =
      ap (λ (n : ℕ). write_to_loop (suc (length b)) a (reader z [] sealed eof) (sink out n e') 0)
        {y = length cs + (length b - length cs + j)} (omega arith)
      ∙ loop in
    let g =
      hh
      ∙ ap
          (λ (t : (ℕ × Option IoError) × WriteSide).
            conn_write_to (suc (length b)) c
              (record {
                incoming = record { bytes = t.1.outgoing.taken; ends = eof };
                reader = none;
              })
              (sink out (length b + j) e'))
          s
      ∙ ap (forward_with (suc (length b)) (sink out (length b + j) e'))
          (init_reader_lem c salt sealed a h l)
      ∙ ap
          (λ (y : (ℕ × Option IoError) × (Reader × Sink)).
            (y.0, (record { incoming = y.1.0.stream; reader = some (a, y.1.0) }, y.1.1)))
          whole in
    (
      ap (λ (t : (ℕ × Option IoError) × WriteSide). t.0) s,
      ap (λ (t : (ℕ × Option IoError) × (ReadSide × Sink)). t.0) g ∙ count_eq (ap length q),
      ap (λ (t : (ℕ × Option IoError) × (ReadSide × Sink)). t.1.1.taken) g
          ∙ ap (λ (t : List ℕ). out ++ t) q,
    )
