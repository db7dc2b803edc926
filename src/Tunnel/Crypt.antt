-- ===== src/Tunnel/Crypt.antt =====
-- The writer and the reader of tunnel/tunnel.go: a stream of sealed records.
use rabbit_mtcp_ws_socks.Prelude.{
  ℕ, zero, suc, ◌+◌, ◌*◌, ◌/◌, ◌%◌, ◌^◌, ◌≡◌, Option, none, some, List, [], ◌∷◌, ◌++◌, Result, ok,
  err, length, take, drop, replicate, get_or,
}
use rabbit_mtcp_ws_socks.Prelude.Effects.{M, ◌>>=◌}
use rabbit_mtcp_ws_socks.Io.{IoError, Stream, read_full, failure}
use rabbit_mtcp_ws_socks.Tunnel.Nonce.{increment}

-- crypto/cipher's AEAD, without additional data.
pub record Aead : Type 0 where
  pub overhead : ℕ
  pub nonce_size : ℕ
  pub seal : List ℕ → List ℕ → List ℕ
  pub unseal : List ℕ → List ℕ → Option (List ℕ)

-- What crypto/cipher documents: Open (here unseal) undoes Seal under the same nonce, and a sealed text is
-- `overhead` bytes longer.
pub record AeadLaws (a : Aead) : Type 0 where
  pub unseal-seal : (nonce text : List ℕ) → a.unseal nonce (a.seal nonce text) ≡ some text
  pub length-seal : (nonce text : List ℕ) → length (a.seal nonce text) ≡ length text + a.overhead

abbrev pub payload_size_mask : ℕ
payload_size_mask = 32767

-- An io.Writer that takes `accepts` more writes and then fails.
pub record Sink : Type 0 where
  pub taken : List ℕ
  pub accepts : ℕ
  pub breaks : IoError

unfoldable pub put : Sink → List ℕ → Option IoError × Sink
put s bs = elim s.accepts [
  | zero ↦ (some s.breaks, s)
  | suc k ↦ (none, record s { taken = s.taken ++ bs; accepts = k })
]

pub record Writer : Type 0 where
  pub nonce : List ℕ
  pub sink : Sink

unfoldable pub new_writer : Aead → Sink → Writer
new_writer a s = record { nonce = replicate a.nonce_size 0; sink = s }

-- The big-endian size of a payload.
unfoldable pub size_bytes : ℕ → List ℕ
size_bytes nr = (nr / 256) % 256 ∷ nr % 256 ∷ []

-- One record: the sealed size and the sealed payload, under consecutive nonces.
unfoldable pub seal_record : Aead → List ℕ → List ℕ → List ℕ
seal_record a nonce payload =
    a.seal nonce (size_bytes (length payload)) ++ a.seal (increment nonce) payload

-- Seals what was read, if anything, and writes it out.
unfoldable pub write_record : Aead → List ℕ → Writer → Option IoError × Writer
write_record a [] w = (none, w)
write_record a (b ∷ bs) w =
    let (ew, s) = put w.sink (seal_record a w.nonce (b ∷ bs)) in
    (ew, record { nonce = increment (increment w.nonce); sink = s })

unfoldable pub not_eof : IoError → Option IoError
not_eof IoError.eof = none
not_eof e = some e

-- `ReadFrom`: the results of the reader's Read calls, each with its error; the call after them
-- gives io.EOF. It returns the number of bytes read, added to `n`, and the error.
unfoldable pub read_from :
    Aead → List (List ℕ × Option IoError) → ℕ → Writer → (ℕ × Option IoError) × Writer
read_from a [] n w = ((n, none), w)
read_from a ((bs, er) ∷ reads) n w =
    let (ew, w') = write_record a bs w in
    let rest = read_from a reads (n + length bs) w' in
    elim ew [
      | some e ↦ ((n + length bs, some e), w')
      | none ↦ elim er [ some e ↦ ((n + length bs, not_eof e), w') | none ↦ rest ]
    ]

-- What a bytes.Buffer gives to Read calls with a buffer of `size` bytes, before its io.EOF.
unfoldable pub buffer_reads : ℕ → ℕ → List ℕ → List (List ℕ × Option IoError)
buffer_reads zero size b = []
buffer_reads (suc fuel) size [] = []
buffer_reads (suc fuel) size (b ∷ bs) =
    (take size (b ∷ bs), none) ∷ buffer_reads fuel size (drop size (b ∷ bs))

-- `Write`.
unfoldable pub write : Aead → List ℕ → Writer → (ℕ × Option IoError) × Writer
write a b w = read_from a (buffer_reads (length b) payload_size_mask b) 0 w

pub record Reader : Type 0 where
  pub nonce : List ℕ
  pub leftover : List ℕ
  pub stream : Stream

unfoldable pub new_reader : Aead → Stream → Reader
new_reader a s = record { nonce = replicate a.nonce_size 0; leftover = []; stream = s }

-- The size in a record's first part: two big-endian bytes, masked to 15 bits.
unfoldable pub record_size : List ℕ → ℕ
record_size buf = (get_or buf 0 0 * 256 + get_or buf 1 0) % 2 ^ 15

-- io.ReadFull into the reader's buffer.
unfoldable pub fill : ℕ → M Reader IoError (List ℕ)
fill n r = let (res, s) = read_full n r.stream in (res, record r { stream = s })

abbrev pub open_failed : IoError
open_failed = failure 0

-- Opens what the buffer holds. The nonce moves on whether this works or not.
unfoldable pub open_buf : Aead → List ℕ → M Reader IoError (List ℕ)
open_buf a buf r =
    let r' = record r { nonce = increment r.nonce } in
    elim (a.unseal r.nonce buf) [ none ↦ (err open_failed, r') | some text ↦ (ok text, r') ]

-- `read`: one record, opened.
unfoldable pub read_record : Aead → M Reader IoError (List ℕ)
read_record a = fill (2 + a.overhead) >>= (λ buf.
    open_buf a buf >>= (λ head. fill (record_size head + a.overhead) >>= (λ body. open_buf a body)))

-- `Read` into a buffer of `room` bytes: the bytes copied to it and the error.
unfoldable pub read_next : ℕ → Result IoError (List ℕ) × Reader → (List ℕ × Option IoError) × Reader
read_next room (ok text, r) = ((take room text, none), record r { leftover = drop room text })
read_next room (err e, r) = (([], some e), r)

unfoldable pub read : Aead → ℕ → Reader → (List ℕ × Option IoError) × Reader
read a room r = elim r.leftover [
  | [] ↦ read_next room (read_record a r)
  | b ∷ bs ↦ ((take room (b ∷ bs), none), record r { leftover = drop room (b ∷ bs) })
]

-- One write of `WriteTo`: what follows it, `rest`, runs unless the write fails.
unfoldable pub forward :
    (Reader → Sink → ℕ → (ℕ × Option IoError) × (Reader × Sink))
    → List ℕ
    → Reader
    → Sink
    → ℕ
    → (ℕ × Option IoError) × (Reader × Sink)
forward rest [] r s n = rest r s n
forward rest (b ∷ bs) r s n =
    let (ew, s') = put s (b ∷ bs) in
    elim ew [ none ↦ rest r s' (n + length (b ∷ bs)) | some e ↦ ((n, some e), (r, s')) ]

unfoldable pub forward_read :
    (Reader → Sink → ℕ → (ℕ × Option IoError) × (Reader × Sink))
    → Result IoError (List ℕ) × Reader
    → Sink
    → ℕ
    → (ℕ × Option IoError) × (Reader × Sink)
forward_read rest (ok text, r) s n = forward rest text r s n
forward_read rest (err e, r) s n = ((n, not_eof e), (r, s))

-- The loop over the records.
unfoldable pub write_to_loop : ℕ → Aead → Reader → Sink → ℕ → (ℕ × Option IoError) × (Reader × Sink)
write_to_loop zero a r s n = ((n, none), (r, s))
write_to_loop (suc fuel) a r s n = forward_read (write_to_loop fuel a) (read_record a r) s n

-- `WriteTo`: the bytes written, the error, the reader and the writer it wrote to. What is left
-- over is kept when it cannot be written.
unfoldable pub write_to : ℕ → Aead → Reader → Sink → (ℕ × Option IoError) × (Reader × Sink)
write_to fuel a r s = elim r.leftover [
  | [] ↦ write_to_loop fuel a r s 0
  | b ∷ bs ↦
      let (ew, s') = put s (b ∷ bs) in
      elim ew [
        | none ↦ write_to_loop fuel a (record r { leftover = [] }) s' (length (b ∷ bs))
        | some e ↦ ((0, some e), (r, s'))
      ]
]
