-- ===== src/Core.antt =====
-- core/crates/aetherlink-core: the transfer itself.
pub mod Errors
pub mod Config
pub mod Control
pub mod Platform
pub mod Offer
pub mod Source
pub mod Transfer
pub mod Dispatch
pub mod Delivery
pub mod Tls
pub mod Link
pub mod Crash
pub mod Sink
pub mod Progress
pub mod Recv
pub mod Resume
pub mod Send
