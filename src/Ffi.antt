-- ===== src/Ffi.antt =====
-- core/crates/aetherlink-ffi/src/lib.rs: the surface for Kotlin and Swift. The observer is the list of
-- the notices that it was given; the throughput figure and the elapsed time are left out.
pub mod Fingerprint
pub mod Settings
pub mod Session
