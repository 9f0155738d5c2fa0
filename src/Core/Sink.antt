-- ===== src/Core/Sink.antt =====
-- core/crates/aetherlink-core/src/io.rs: the file that is received. Its content is a byte string;
-- failures of the operating system in the middle of a write are not modelled.
pub mod Content
use speeed.Base.{
  ℕ, zero, suc, ◌+◌, ◌≤◌, Bool, true, false, not, ltb, if◌then◌else◌, List, [], ◌∷◌, ◌++◌, length,
  take, drop, Result, ok, err, ◌>>=◌, ◌>>◌, refuse_if, map_err,
}
use speeed.Base.Bytes.{Bytes, bytes_eq}
use speeed.Proto.Chunk.{ChunkLayout, range}
use speeed.Proto.Hashes.{Hash, hash_chunk}
use speeed.Core.Errors.{CoreError, io, wire, chunk_verification_failed}

-- `write_all_at`: bytes behind the end of the file are zero until they are written.
abbrev pub write_all_at : Bytes → ℕ → Bytes → Bytes
write_all_at content zero bytes = bytes ++ drop (length bytes) content
write_all_at [] (suc offset) bytes = 0 ∷ write_all_at [] offset bytes
write_all_at (b ∷ content) (suc offset) bytes = b ∷ write_all_at content offset bytes

-- `read_exact_at`
abbrev pub read_exact_at : Bytes → ℕ → ℕ → Result CoreError Bytes
read_exact_at content offset len =
    if ltb (length content) (offset + len) then err io else ok (take len (drop offset content))

unfoldable pub read_chunk : Bytes → ChunkLayout → ℕ → Result CoreError Bytes
read_chunk content layout index = do
  (offset, len) ← map_err wire (range layout index)
  read_exact_at content offset len

-- The content after the write.
unfoldable pub verify_and_write : (Bytes → Hash) → Bytes → ℕ → Bytes → Hash → Result CoreError Bytes
verify_and_write blake3 content offset bytes expected = do
  refuse_if (not (bytes_eq (hash_chunk blake3 bytes) expected)) (chunk_verification_failed offset)
  ok (write_all_at content offset bytes)
