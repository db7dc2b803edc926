-- ===== src/TunnelPool/EndToEnd.antt =====
-- What the loop of OutboundRelay in tunnel_pool/tunnel.go has written, read by InboundRelay.
use rabbit_mtcp_ws_socks.Prelude.{◌≡◌, none, List, ◌++◌}
use rabbit_mtcp_ws_socks.Block.{Block}
use rabbit_mtcp_ws_socks.TunnelPool.Relay.{Link}
use rabbit_mtcp_ws_socks.TunnelPool.Receive.{packed_all}

record Wrote (l0 l : Link) (sent : List Block) : Type 0 where
  unbroken : l.broken ≡ none
  written : l.written ≡ l0.written ++ packed_all sent
