-- ===== src/Client.antt =====
-- The client package: the SOCKS5 server.
pub mod Socks
pub mod Accept
pub mod Login
pub mod Serving
pub mod Relay
mod Tests
