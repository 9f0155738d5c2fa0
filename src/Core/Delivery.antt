-- ===== src/Core/Delivery.antt =====
-- core/crates/aetherlink-core/src/send.rs and recv.rs together: what one side announces and the other
-- receives.
pub mod Chunks
pub mod Delivers
pub mod Holds
pub mod Lands
pub mod Origin
mod Tests
