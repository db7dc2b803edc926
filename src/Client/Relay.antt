-- ===== src/Client/Relay.antt =====
-- relay and biRelay of client/client.go: the bytes between a client and its connection of the pool.
pub mod Copying
pub mod Failing
mod Tests
use rabbit_mtcp_ws_socks.Prelude.{
  subst, ℕ, zero, suc, ◌+◌, ◌-◌, ◌*◌, ◌/◌, ◌%◌, ◌^◌, ◌≤◌, ◌<◌, min, max, ◌≡◌, refl, sym, ap, ◌∙◌,
  ◌≢◌, ◌↔◌, ◌⊎◌, inl, inr, Bool, true, false, not, ◌&&◌, ◌||◌, Option, none, some, List, [], ◌∷◌,
  ◌++◌, map, append-nil, append_assoc, arith, ltb, leb, ◌==◌, if◌then◌else◌, ltb→lt, lt→ltb, ltb→le,
  le→ltb, ==→eq, ==→ne, eq→==, ne→==, Bool-cases, Option-cases, Result, ok, err, Result-cases,
  length, take, drop, replicate, get_or, set, All, length-append, take-append-drop, length-take,
  length-drop, length-replicate, take-append, drop-append, take_all, drop_all, drop-nil, drop-drop,
  All-append, drop-take, take-min,
}

-- A HalfOpenConn: the bytes that were read from it and written to it, and what was closed.
pub record End : Type 0 where
  pub received : List ℕ
  pub written : List ℕ
  pub read_closed : Bool
  pub write_closed : Bool
  pub expired : Bool
  pub closed : Bool

-- One turn of io.Copy: a read whose bytes are all written; the end of the stream; or a read or a
-- write that fails, the write after some of the bytes.
pub data Turn : Type 0 where
  moved : List ℕ → Turn
  at_eof : Turn
  broken : (bytes : List ℕ) → (written : ℕ) → Turn

abbrev pub give_up : End × End → End × End
give_up (dst, src) =
    (record dst { expired = true; closed = true }, record src { expired = true; closed = true })

-- A turn of `relay` from `src` to `dst`, and if it is the last.
abbrev pub turn_between : Turn → End × End → Bool × (End × End)
turn_between (moved bs) (dst, src) = (
  false,
  (record dst { written = dst.written ++ bs }, record src { received = src.received ++ bs }),
)
turn_between at_eof (dst, src) =
    (true, (record dst { write_closed = true }, record src { read_closed = true }))
turn_between (broken bs n) (dst, src) = (
  true,
  give_up (
    record dst { written = dst.written ++ take n bs },
    record src { received = src.received ++ bs },
  ),
)

-- On a closed end, a read and a write fail at once.
pub relay_turn : Turn → End × End → Bool × (End × End)
relay_turn t (dst, src) =
    if dst.closed || src.closed then (true, give_up (dst, src)) else turn_between t (dst, src)

-- The two goroutines of biRelay.
pub data Side : Type 0 where
  to_left : Side
  to_right : Side

pub record BiRelay : Type 0 where
  pub left : End
  pub right : End
  pub left_done : Bool
  pub right_done : Bool

-- `biRelay` closes both ends when the two goroutines are done.
abbrev pub wait : BiRelay → BiRelay
wait b =
    if b.left_done && b.right_done
    then record b {
      left = record b.left { closed = true };
      right = record b.right { closed = true };
    }
    else b

abbrev pub left_turn : BiRelay → Bool × (End × End) → BiRelay
left_turn b (done, (dst, src)) = wait (record b { left = dst; right = src; left_done = done })

abbrev pub right_turn : BiRelay → Bool × (End × End) → BiRelay
right_turn b (done, (dst, src)) = wait (record b { left = src; right = dst; right_done = done })

-- A turn of one of the goroutines, none if it is done.
pub bi_relay_turn : Side → Turn → BiRelay → BiRelay
bi_relay_turn to_left t b = if b.left_done then b else left_turn b (relay_turn t (b.left, b.right))
bi_relay_turn to_right t b =
    if b.right_done then b else right_turn b (relay_turn t (b.right, b.left))

-- `biRelay` over the turns of the two goroutines, in the order in which they come.
pub bi_relay : List (Side × Turn) → BiRelay → BiRelay
bi_relay [] b = b
bi_relay ((side, t) ∷ turns) b = bi_relay turns (bi_relay_turn side t b)
