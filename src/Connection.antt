-- ===== src/Connection.antt =====
-- The connection package.
pub mod RingBuffer
pub mod Processor
pub mod Inbound
pub mod Reading
pub mod ReadLoops
pub mod ReadWait
pub mod Read
pub mod Write
pub mod Arrivals
pub mod Receiving
pub mod Relay
pub mod Delivery
pub mod Outbound
pub mod OutboundRelays
pub mod OutboundEnd
pub mod LastReads
pub mod AnyOrder
mod Tests
