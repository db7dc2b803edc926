-- ===== src/Io.antt =====
-- Go's io.Reader as the programs use it: io.ReadFull over a stream of bytes that ends in an error.
use rabbit_mtcp_ws_socks.Prelude.{
  ℕ, ◌<◌, ◌≡◌, List, [], ◌∷◌, ◌++◌, arith, length, take, drop, leb, if◌then◌else◌, Result, ok, err,
  take-append, drop-append, take-append-drop, length-take, length-append, ◌≤◌,
}

-- The errors that reading a connection can give. `failure` stands for every other error value.
pub data IoError : Type 0 where
  eof : IoError
  unexpected_eof : IoError
  timeout : IoError
  failure : ℕ → IoError

-- The bytes that are still to come, and the error that comes after them.
pub record Stream : Type 0 where
  pub bytes : List ℕ
  pub ends : IoError

-- What io.ReadFull returns when the stream ends inside the buffer.
unfoldable pub short_error : List ℕ → IoError → IoError
short_error [] e = e
short_error (b ∷ bs) eof = unexpected_eof
short_error (b ∷ bs) e = e

-- io.ReadFull into a buffer of `n` bytes.
unfoldable pub read_full : ℕ → Stream → Result IoError (List ℕ) × Stream
read_full n s =
    if leb n (length s.bytes)
    then (ok (take n s.bytes), record s { bytes = drop n s.bytes })
    else (err (short_error s.bytes s.ends), record s { bytes = [] })

-- A stream that begins with `n` bytes gives just these.
pub read_full-append :
    (n : ℕ) (xs ys : List ℕ) (e : IoError)
    → n ≡ length xs
    → read_full n (record { bytes = xs ++ ys; ends = e }) ≡ (ok xs, record { bytes = ys; ends = e })
unfolding read_full
read_full-append n xs ys e h =
    ground (arith, length-append xs ys, take-append xs ys n h, drop-append xs ys n h)

-- What was read is the front of the stream, and `n` bytes long.
pub read_full_takes :
    (n : ℕ) (s : Stream) {xs : List ℕ} {s' : Stream}
    → read_full n s ≡ (ok xs, s')
    → (s.bytes ≡ xs ++ s'.bytes) × (length xs ≡ n) × (s'.ends ≡ s.ends)
unfolding read_full
read_full_takes n s h = ground (arith, take-append-drop n s.bytes, length-take n s.bytes)

pub read_full_short :
    (n : ℕ) (s : Stream)
    → length s.bytes < n
    → read_full n s ≡ (err (short_error s.bytes s.ends), record s { bytes = [] })
unfolding read_full
read_full_short n s h = ground arith

pub read_full_fits :
    (n : ℕ) (s : Stream)
    → n ≤ length s.bytes
    → read_full n s ≡ (ok (take n s.bytes), record s { bytes = drop n s.bytes })
unfolding read_full
read_full_fits n s h = ground arith
