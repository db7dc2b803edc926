-- ===== src/TunnelPool/PingPong.antt =====
-- Pings and pongs of tunnel_pool/tunnel.go: the ticks of PingPong, and what InboundRelay does with
-- a ping or a pong that is too short, and with one that is read after the tunnel was cancelled.
use rabbit_mtcp_ws_socks.Prelude.{
  ℕ, ◌+◌, ◌-◌, ◌/◌, ◌<◌, ◌≡◌, ap, ◌∙◌, Bool, true, false, not, ◌&&◌, ◌||◌, Option, none, some, List,
  [], ◌∷◌, ◌++◌, append-nil, arith, ltb, if◌then◌else◌, ok, length,
}
use rabbit_mtcp_ws_socks.Io.{IoError, Stream}
use rabbit_mtcp_ws_socks.Block.{Block, pack, new_block_from_reader, new_ping_block}
use rabbit_mtcp_ws_socks.Block.Codec.{IsBlock, new_block_from_reader-pack}
use rabbit_mtcp_ws_socks.TunnelPool.Relay.{
  Link, ended, panics, inbound_turn, close_then_cancel, drained, received, ping_pong_tick,
  pack_then_send, count_sent, count_recv, set_last_active, dispatch,
}
use rabbit_mtcp_ws_socks.TunnelPool.Receive.{
  counted_lem, reading_turn, last_turn, arrived, is_control,
}

-- The whole seconds since the tunnel was last active.
abbrev silence : ℕ → Link → ℕ
silence now l = (now - l.tun.last_activity) / 1000000000

abbrev pub ping_of : ℕ → Link → Block
ping_of now l = new_ping_block now l.tun.tunnel_id 0 l.tun.latency_nano

abbrev pub works : Option IoError → Bool
works none = true
works (some e) = false

-- A tick of PingPong sends a ping exactly when the tunnel was silent for more than the interval
-- (and its writes work), and cancels it exactly when it was silent for more than the interval and
-- the timeout together. It touches neither queue.
pub ping_pong_tick_lem :
    (ping_interval recv_timeout now : ℕ) (l : Link)
    → let l' = ping_pong_tick ping_interval recv_timeout now l in
      (l'.tun.cancelled ≡ (l.tun.cancelled || ltb (ping_interval + recv_timeout) (silence now l)))
      × (l'.tun.is_active
          ≡ (l.tun.is_active && not (ltb (ping_interval + recv_timeout) (silence now l))))
      × (l'.output ≡ l.output)
      × (l'.retried ≡ l.retried)
      × (l'.written
          ≡ l.written
            ++ (if ltb ping_interval (silence now l) && works l.broken
                then (pack (ping_of now l)).0
                else []))
unfolding ping_pong_tick pack_then_send count_sent close_then_cancel
ping_pong_tick_lem ping_interval recv_timeout now l = ground (arith, append-nil l.written)

dispatch_short :
    (now : ℕ) (d : Block) (l : Link)
    → is_control d ≡ true
    → length d.block_data < 8
    → dispatch now d l ≡ panics
unfolding dispatch
dispatch_short now d l k h = ground arith

-- A ping or a pong with fewer than eight bytes of data makes the process panic, whatever the state
-- of a tunnel that is not cancelled.
pub short_control_panics :
    (now : ℕ) (b : Block) (l : Link) (rest : List ℕ) (e : IoError)
    → IsBlock b
    → is_control b ≡ true
    → length b.block_data < 8
    → l.tun.cancelled ≡ false
    → l.incoming ≡ record { bytes = (pack b).0 ++ rest; ends = e }
    → inbound_turn now l ≡ panics
unfolding received pack
short_control_panics now b l rest e w k h c i =
    let bare = record b { packed = none } in
    let s : Stream = record { bytes = rest; ends = e } in
    reading_turn now l (ok bare, s) c
      (ap new_block_from_reader i ∙ new_block_from_reader-pack b rest e w)
    ∙ dispatch_short now (pack bare).1
        (count_recv (length (pack bare).0) (set_last_active now (record l { incoming = s }))) k h

-- Once the tunnel is cancelled, the next block goes to the receive queue whatever its type, pings
-- and pongs included, and the relay returns.
pub drained_block :
    (now : ℕ) (b : Block) (l : Link) (rest : List ℕ) (e : IoError)
    → IsBlock b
    → l.tun.cancelled ≡ true
    → l.incoming ≡ record { bytes = (pack b).0 ++ rest; ends = e }
    → (l' : Link) × (inbound_turn now l ≡ ended l') × (l'.output ≡ l.output ++ (arrived b ∷ []))
unfolding drained arrived
drained_block now b l rest e w c i =
    let bare = record b { packed = none } in
    let s : Stream = record { bytes = rest; ends = e } in
    let l0 = record l { incoming = s } in
    let l1 = count_recv (length (pack bare).0) l0 in
    (
      record l1 { output = l1.output ++ (arrived b ∷ []) },
      last_turn now l (ok bare, s) c
          (ap new_block_from_reader i ∙ new_block_from_reader-pack b rest e w),
      ap (λ (x : List Block). x ++ (arrived b ∷ [])) (counted_lem (length (pack bare).0) l0).0,
    )
