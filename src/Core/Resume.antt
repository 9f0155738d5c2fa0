-- ===== src/Core/Resume.antt =====
-- core/crates/aetherlink-core/src/resume.rs: the record beside a file that is received, and the bitmap
-- that is rebuilt without it. BLAKE3 is the parameter `blake3`. The file system gives the bytes of
-- the record and the length of the staging file, or nothing; its failures in `persist` are not
-- modelled, since the rename leaves the old record or the new one.
pub mod Names
pub mod Sidecar
pub mod Rebuild
mod Tests
use speeed.Base.{
  ℕ, zero, suc, ◌+◌, ◌-◌, ◌*◌, Bool, true, false, not, ◌&&◌, ◌||◌, ltb, ◌==◌, if◌then◌else◌, Option,
  none, some, List, [], ◌∷◌, ◌++◌, length, get_elem?, take, drop, Result, ok, err, panic, ◌>>=◌,
  or_panic, map_err, to_option,
}
use speeed.Base.Bytes.{Bytes, to_le_bytes, from_le_bytes, slice, bytes_eq}
use speeed.Proto.Chunk.{ChunkLayout}
use speeed.Proto.Hashes.{Hash, hash_chunk}
use speeed.Proto.Bitmap
use speeed.Proto.Bitmap.{ChunkBitmap, from_bytes, as_bytes}
use speeed.Core.Errors.{CoreError, wire}
use speeed.Core.Sink.{read_chunk}

-- b"AETHRSM1"
abbrev pub magic : Bytes
magic = b'A' ∷ b'E' ∷ b'T' ∷ b'H' ∷ b'R' ∷ b'S' ∷ b'M' ∷ b'1' ∷ []

abbrev pub default_checkpoint_bytes : ℕ
default_checkpoint_bytes = 64 * 1024 * 1024

abbrev pub header_len : ℕ
header_len = 8 + 4 + 8 + 8 + 32

pub record StateKey : Type 0 where
  pub root_hash : Hash
  pub file_size : ℕ
  pub chunk_size : ℕ

-- The record before its checksum.
unfoldable pub record_body : StateKey → ChunkBitmap → Bytes
record_body key bitmap =
    magic
    ++ (to_le_bytes 4 key.chunk_size
        ++ (to_le_bytes 8 bitmap.count
            ++ (to_le_bytes 8 key.file_size ++ (key.root_hash ++ as_bytes bitmap))))

-- The bytes that the record holds after `persist`.
unfoldable pub persist : (Bytes → Hash) → StateKey → ChunkBitmap → Bytes
persist blake3 key bitmap = record_body key bitmap ++ blake3 (record_body key bitmap)

-- The tests on the fields of the record, and the bitmap behind them.
unfoldable pub accept : StateKey → ℕ → Bytes → Option ℕ → StateKey → Option ChunkBitmap
accept found chunk_count bits staging_len key =
    let bitmap = to_option (from_bytes bits chunk_count) in
    if not (found.chunk_size == key.chunk_size)
      || not (found.file_size == key.file_size)
      || not (bytes_eq found.root_hash key.root_hash)
    then none
    else elim staging_len [
      | none ↦ none
      | some len ↦ if not (len == found.file_size) then none else bitmap
    ]

-- What is left to test once the checksum is right.
unfoldable pub load_body : Option ℕ → StateKey → Bytes → Option ChunkBitmap
load_body staging_len key body =
    let found : StateKey = record {
      root_hash = slice body 28 60;
      file_size = from_le_bytes (slice body 20 28);
      chunk_size = from_le_bytes (slice body 8 12);
    } in
    let bitmap =
      accept found (from_le_bytes (slice body 12 20)) (drop header_len body) staging_len key in
    if not (bytes_eq (slice body 0 8) magic) then none else bitmap

-- `sidecar` is what reading the record gives, `staging_len` what the metadata of the file gives.
unfoldable pub load : (Bytes → Hash) → Option Bytes → Option ℕ → StateKey → Option ChunkBitmap
unfolding load_body
load blake3 none staging_len key = none
load blake3 (some raw) staging_len key =
    let body = take (length raw - 32) raw in
    let stored_checksum = drop (length raw - 32) raw in
    let found = load_body staging_len key body in
    if ltb (length raw) (header_len + 32)
    then none
    else if not (bytes_eq (blake3 body) stored_checksum)
    then none
    else found

-- A chunk that could be read.
pub check_chunk :
    (Bytes → Hash) → List Hash → ℕ → ChunkBitmap → Bytes → Result CoreError ChunkBitmap
check_chunk blake3 chunk_hashes index bitmap bytes = do
  expected ← or_panic (get_elem? chunk_hashes index)
  let marked = map_err wire (Bitmap.set bitmap index)
  if bytes_eq (hash_chunk blake3 bytes) expected then marked else ok bitmap

-- The rounds for the chunks `index`, …, `index + n - 1`.
pub rebuild_from :
    (Bytes → Hash)
    → Bytes
    → ChunkLayout
    → List Hash
    → ℕ
    → ℕ
    → ChunkBitmap
    → Result CoreError ChunkBitmap
rebuild_from blake3 content layout chunk_hashes zero index bitmap = ok bitmap
rebuild_from blake3 content layout chunk_hashes (suc n) index bitmap =
    elim (read_chunk content layout index) [
      | ok bytes ↦
          check_chunk blake3 chunk_hashes index bitmap bytes
          >>= rebuild_from blake3 content layout chunk_hashes n (index + 1)
      | err e ↦ rebuild_from blake3 content layout chunk_hashes n (index + 1) bitmap
      | panic ↦ panic
    ]

unfoldable pub rebuild_by_verification :
    (Bytes → Hash) → Bytes → ChunkLayout → List Hash → Result CoreError ChunkBitmap
rebuild_by_verification blake3 content layout chunk_hashes =
    rebuild_from blake3 content layout chunk_hashes layout.count 0 (Bitmap.new layout.count)
