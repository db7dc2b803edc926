-- ===== src/Tunnel.antt =====
-- The tunnel package: encryption of a byte stream in records.
pub mod Nonce
pub mod Crypt
pub mod Records
pub mod RoundTrip
pub mod Cipher
pub mod Conn
pub mod Websocket
mod Tests
