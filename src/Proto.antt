-- ===== src/Proto.antt =====
-- core/crates/aetherlink-proto: chunk geometry, the bitmap of chunks, the frame header and the
-- manifest. This crate does no input or output.
pub mod Errors
pub mod Chunk
pub mod Bitmap
pub mod Frame
pub mod Hashes
pub mod Manifest
