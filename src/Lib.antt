-- ===== src/Lib.antt =====
-- Aetherlink, the transfer engine of speeed: the protocol crate core/crates/aetherlink-proto/src, and
-- from core/crates/aetherlink-core/src the control messages, the sender, the receiver, the resume
-- record, the throttle of progress events and the platform hooks; and the session that the mobile platforms
-- drive, core/crates/aetherlink-ffi/src.
--
-- A file is cut into chunks. The sender sends them as frames on several streams, so they arrive in
-- any order; the receiver verifies each against the hash that was offered, writes it at its offset,
-- and marks it in a bitmap. From time to time it syncs the file and records the bitmap beside it, so
-- that a broken transfer resumes with the chunks that are missing. The paths that a peer offers pass
-- one gate before they are joined to a local directory.
--
-- Files:
--   Base            shared names, and lists, bytes, bits, sums and results over native numbers
--   Proto/Errors    aetherlink-proto lib.rs: `Error`, and the checked arithmetic on u64
--   Proto/Chunk     chunk.rs: `ChunkLayout`, the geometry of the chunks of one file
--   Proto/Hashes    chunk.rs: `hash_chunk`, `root_from_chunk_hashes`, `ChunkHashSet`
--   Proto/Bitmap    bitmap.rs: `ChunkBitmap`
--   Proto/Frame     frame.rs: `Flags`, `MsgType`, `FrameHeader`
--   Proto/Manifest  manifest.rs: `sanitize_relative_path`, `Manifest`
--   Core/Source     io.rs: `SourceFile`
--   Core/Config     aetherlink-core lib.rs: `Config`
--   Core/Control    control.rs: the messages of the control stream, `write_control`, `read_control`
--   Core/Platform   platform.rs: `preallocate`, `page_size`, `bind_to_interface`, `set_socket_buffers`
--   Core/Offer      recv.rs: of `run` the hello and the offer, up to the states of the files; and io.rs:
--                   `SinkFile::create`
--   Core/Transfer   recv.rs: of `run` the workers and the end of the transfer
--   Core/Errors     aetherlink-core lib.rs: `Error`
--   Core/Sink       io.rs: `verify_and_write`, `SinkFile::read_chunk`
--   Core/Progress   progress.rs: `Throttled`
--   Core/Recv       recv.rs: `drain_stream`, `checkpoint_if_due`, `checkpoint`, `split_hashes`
--   Core/Resume     resume.rs: `persist`, `load`, `rebuild_by_verification`; Core/Resume/Names:
--                   `state_path`, `discard`, and what they and `persist` do to the names in a directory
--   Core/Crash      recv.rs: `checkpoint`, and resume.rs: `persist`, step by step, with the device
--                   beneath them
--   Core/Delivery   send.rs and recv.rs together: the files of the sender and those of the receiver
--   Core/Tls        tls.rs: `HostIdentity`, `PinnedCertVerifier` and the configurations of TLS
--   Core/Link       link.rs: `Dialer` and `Acceptor`, and the entry points of send.rs and recv.rs, in
--                   which `run` is a parameter
--   Core/Dispatch   send.rs: of `run` the answer to the offer, the workers and the end of the transfer
--   Core/Send       send.rs: `ReadCursor`, and of `run` the offer, the work queue and the frames of a
--                   chunk
--   Cli             aetherlink-cli main.rs: the commands; Cli/Payload: `write_source`
--   Ffi/Fingerprint aetherlink-ffi lib.rs: `parse_fingerprint`, and tls.rs: `fingerprint_hex`
--   Ffi/Settings    aetherlink-ffi lib.rs: `TransferConfig`
--   Ffi/Session     aetherlink-ffi lib.rs: `EngineSession`, `Reporter`
--
-- A function that returns `Result` returns `Result E A` here, with a third case `panic` for an index
-- out of bounds or an overflow (as in a debug build; a theorem whose result is `ok` says that it is
-- not reached). A method that changes `self` returns the new record; after an error the record is the
-- one before. A u64 is a native number, with `add_u64`, `mul_u64` and `sub_u64` where the source
-- computes; where a bound is needed it is a hypothesis. A string is the list of its UTF-8 bytes, a
-- file is the list of its bytes. Loops over a range are recursion on the rounds that are left. The
-- loop of `drain_stream` runs on fuel, one more than the bytes of its input: each round takes a
-- header of 32 bytes from it.
--
-- The workers of the receiver share their files; one step of the model is one frame of one stream, and
-- `Core/Transfer` runs the workers in the order of a schedule. Whether `try_lock` takes the lock of a
-- checkpoint is a parameter of the session. There the files are separate: a checkpoint of one changes
-- only its own state. Core/Resume/Names has the one directory in which their names and those of their
-- records stand, and Core/Delivery/Lands puts the two together, for offers in which no file has the
-- name of a record of another. The workers of the sender share the queue: in
-- `Core/Dispatch` one step takes an item under the lock of the queue, and the next one has sent it.
--
-- Not modelled: BLAKE3, which is the parameter `blake3`, prost, tokio, rustls and the operating
-- system, which are not in the repository; failures of the operating system in the middle of a write
-- of a file, or in a checkpoint but for Core/Crash; links in a directory; the closing of sockets; what
-- the command line parses and prints; and the binding generator.
pub mod Base
pub mod Cli
pub mod Core
pub mod Ffi
pub mod Proto
