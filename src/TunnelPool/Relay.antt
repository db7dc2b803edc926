-- ===== src/TunnelPool/Relay.antt =====
-- The relays of a tunnel, tunnel_pool/tunnel.go: sending one block, receiving blocks, ping and pong.
use rabbit_mtcp_ws_socks.Prelude.{
  ℕ, ◌+◌, ◌-◌, ◌/◌, ◌%◌, ◌^◌, Bool, true, false, Option, none, some, List, [], ◌∷◌, ◌++◌, ltb, ◌==◌,
  if◌then◌else◌, Result, ok, err, length, take,
}
use rabbit_mtcp_ws_socks.Prelude.Bytes.{get_le}
use rabbit_mtcp_ws_socks.Io.{IoError, Stream}
use rabbit_mtcp_ws_socks.Block.{
  Block, pack, new_block_from_reader, type_ping, type_pong, new_pong_block, new_ping_block,
}
use rabbit_mtcp_ws_socks.TunnelPool.Pool.{Tunnel}

-- A tunnel with its connection (what is to be read, what was written, the error of writes), the
-- blocks it put on the receive queue and on the retry queue, and the byte counters of
-- stats/stats.go.
pub record Link : Type 0 where
  pub tun : Tunnel
  pub incoming : Stream
  pub written : List ℕ
  pub broken : Option IoError
  pub output : List Block
  pub retried : List Block
  pub client_sent : ℕ
  pub client_recv : ℕ
  pub server_sent : ℕ
  pub server_recv : ℕ

-- Additions to a uint64.
unfoldable pub plus64 : ℕ → ℕ → ℕ
plus64 a b = (a + b) % 2 ^ 64

unfoldable pub count_sent : ℕ → Link → Link
count_sent n l =
    let l' = record l { tun = record l.tun { sent_bytes = plus64 l.tun.sent_bytes n } } in
    if l.tun.is_client_mode
    then record l' { client_sent = plus64 l.client_sent n }
    else record l' { server_sent = plus64 l.server_sent n }

unfoldable pub count_recv : ℕ → Link → Link
count_recv n l =
    let l' = record l { tun = record l.tun { recv_bytes = plus64 l.tun.recv_bytes n } } in
    if l.tun.is_client_mode
    then record l' { client_recv = plus64 l.client_recv n }
    else record l' { server_recv = plus64 l.server_recv n }

-- `closeThenCancel`.
unfoldable pub close_then_cancel : Link → Link
close_then_cancel l = record l { tun = record l.tun { cancelled = true } }

-- `packThenSend`. `has_queue` is whether it has a retry queue. Once the context is cancelled the
-- select of the retrying goroutine may take either case, which `requeue` tells.
unfoldable pub pack_then_send : (has_queue requeue : Bool) → Block → Link → Link
pack_then_send has_queue requeue blk l = elim l.broken [
  | none ↦ count_sent (length (pack blk).0) (record l { written = l.written ++ (pack blk).0 })
  | some e ↦
      if has_queue
      then (let l' = close_then_cancel l in
          if requeue then record l' { retried = l'.retried ++ ((pack blk).1 ∷ []) } else l')
      else l
]

-- `SetLatencyNano`, `SetLatencyNanoSince` and `SetLastActive`; an int64 is its 64 bits.
unfoldable pub set_latency : ℕ → Link → Link
set_latency n l = record l { tun = record l.tun { latency_nano = n } }

unfoldable pub since : ℕ → ℕ → ℕ
since now timestamp = (now + (2 ^ 64 - timestamp)) % 2 ^ 64

unfoldable pub set_last_active : ℕ → Link → Link
set_last_active now l = record l { tun = record l.tun { last_activity = now; is_active = true } }

-- What comes of a turn of the receiving loop: it goes on, it has returned, or the process panics.
pub data Turn : Type 0 where
  next : Link → Turn
  ended : Link → Turn
  panics : Turn

-- The switch on the type. Uint64 panics on less than eight bytes.
unfoldable pub dispatch : ℕ → Block → Link → Turn
dispatch now blk l =
    if blk.block_type == type_ping
    then (if ltb (length blk.block_data) 8
        then panics
        else next (
            pack_then_send false false (new_pong_block now 0 0 blk.time_stamp)
              (set_latency (get_le (take 8 blk.block_data)) l)))
    else if blk.block_type == type_pong
    then (if ltb (length blk.block_data) 8
        then panics
        else next (set_latency (since now (get_le (take 8 blk.block_data))) l))
    else next (record l { output = l.output ++ (blk ∷ []) })

-- Counting what was received packs the block.
unfoldable pub received : ℕ → Result IoError Block × Stream → Link → Turn
received now (err e, s) l = next (close_then_cancel (record l { incoming = s }))
received now (ok blk, s) l =
    dispatch now (pack blk).1
      (count_recv (length (pack blk).0) (set_last_active now (record l { incoming = s })))

-- The last block that is read after the tunnel was cancelled: it goes out whatever its type.
unfoldable pub drained : Result IoError Block × Stream → Link → Turn
drained (err e, s) l = ended (record l { incoming = s })
drained (ok blk, s) l =
    let l' = count_recv (length (pack blk).0) (record l { incoming = s }) in
    ended (record l' { output = l'.output ++ ((pack blk).1 ∷ []) })

unfoldable pub inbound_turn : ℕ → Link → Turn
inbound_turn now l =
    if l.tun.cancelled
    then drained (new_block_from_reader l.incoming) l
    else received now (new_block_from_reader l.incoming) l

-- `InboundRelay` for as many turns as there are times.
unfoldable pub inbound_relay : List ℕ → Link → Turn
inbound_relay [] l = next l
inbound_relay (now ∷ times) l = elim (inbound_turn now l) [
  | next l' ↦ inbound_relay times l'
  | ended l' ↦ ended l'
  | panics ↦ panics
]

-- One tick of `PingPong`, with the two constants it uses, in seconds.
unfoldable pub ping_pong_tick : (ping_interval recv_timeout now : ℕ) → Link → Link
ping_pong_tick ping_interval recv_timeout now l =
    let silent = (now - l.tun.last_activity) / 1000000000 in
    let l1 =
      if ltb ping_interval silent
      then pack_then_send false false (new_ping_block now l.tun.tunnel_id 0 l.tun.latency_nano) l
      else l in
    if ltb (ping_interval + recv_timeout) silent
    then close_then_cancel (record l1 { tun = record l1.tun { is_active = false } })
    else l1
