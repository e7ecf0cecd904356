-- ===== src/Transport.antt =====
-- RNS/Transport.py: the transport headers that Transport.outbound inserts, the packet filter with
-- its two generations of seen hashes, and the path table.
pub mod Header
pub mod Filter
pub mod Paths
pub mod Announces
pub mod Replay
pub mod Rate
pub mod Ifac
pub mod Forward
pub mod Outbound
pub mod Culling
mod ForwardTests
mod OutboundTests
mod CullingTests
mod Tests
