-- ===== src/TunnelPool.antt =====
-- The tunnel_pool package: the tunnels of a peer, their manager, and the relays of one tunnel.
pub mod Countdown
pub mod Pool
pub mod Members
pub mod Removal
pub mod Exchange
pub mod Relay
pub mod Receive
pub mod Deliver
pub mod Sending
pub mod Priority
pub mod EndToEnd
pub mod PingPong
pub mod Endpoints
pub mod DialTurns
pub mod Filling
mod Tests
mod SendingTests
pub mod Dial
