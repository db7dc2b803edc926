-- ===== src/Pools.antt =====
-- The pools of connections and of peers.
pub mod ConnectionPool
pub mod PeerGroup
pub mod Entries
pub mod Routing
pub mod Counting
pub mod Dial
pub mod Owners
mod Tests
