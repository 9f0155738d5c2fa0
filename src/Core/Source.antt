-- ===== src/Core/Source.antt =====
-- core/crates/aetherlink-core/src/io.rs: the file that is sent. Its mapping is the byte string that the
-- file holds; what the kernel is advised to release is a list of ranges of it.
pub mod Hashes
pub mod Pages
mod Tests
use speeed.Base.{
  ℕ, zero, suc, ◌+◌, ◌-◌, ◌*◌, ◌/◌, ◌^◌, min, max, Bool, true, false, ◌&&◌, ltb, leb, if◌then◌else◌,
  Option, none, some, List, [], ◌∷◌, ◌++◌, length, take, drop, Result, ok, err, panic, ◌>>=◌,
  map_err,
}
use speeed.Base.Bytes.{Bytes}
use speeed.Proto.Errors.{add_u64}
use speeed.Proto.Chunk
use speeed.Proto.Chunk.{ChunkLayout, range, div_ceil}
use speeed.Proto.Hashes.{Hash, hash_chunk}
use speeed.Core.Errors.{CoreError, io, wire}
use speeed.Core.Platform.{page_size}
use speeed.Core.Send.{saturating_mul}

abbrev pub release_batch_bytes : ℕ
release_batch_bytes = 32 * 1024 * 1024

abbrev pub hash_pass_release_threshold : ℕ
hash_pass_release_threshold = 128 * 1024 * 1024

pub record SourceFile : Type 0 where
  pub map : Bytes
  pub layout : ChunkLayout
  pub page_size : ℕ

-- The bytes of the file, or nothing when it cannot be opened and mapped; `raw` is what `sysconf` says.
unfoldable pub open_source : Option Bytes → ℕ → Option ℕ → Result CoreError SourceFile
open_source none chunk_size raw = err io
open_source (some content) chunk_size raw = do
  layout ← map_err wire (Chunk.new (length content) chunk_size)
  ok (record { map = content; layout = layout; page_size = page_size raw })

-- A slice that is not inside the mapping panics.
abbrev pub slice_at : Bytes → ℕ → ℕ → Result CoreError Bytes
slice_at bytes offset len =
    if ltb (length bytes) (offset + len) then panic else ok (take len (drop offset bytes))

unfoldable pub chunk : SourceFile → ℕ → Result CoreError Bytes
chunk src index = do
  (offset, len) ← map_err wire (range src.layout index)
  slice_at src.map offset len

-- The start and the length of the range that is advised, if there is a whole page.
unfoldable pub release_range : ℕ → ℕ → ℕ → Option (ℕ × ℕ)
release_range ps start end =
    let first_whole_page = div_ceil start ps * ps in
    let last_whole_page = end / ps * ps in
    if leb last_whole_page first_whole_page
    then none
    else some (first_whole_page, last_whole_page - first_whole_page)

unfoldable pub end_of_chunk : SourceFile → ℕ → ℕ
end_of_chunk src index = min (saturating_mul index src.layout.chunk_size) src.layout.file_size

-- The hashes so far, up to where pages were released, and the ranges that `release_range` was given.
pub record Hashing : Type 0 where
  pub out : List Hash
  pub released_to : ℕ
  pub released : List (ℕ × ℕ)

unfoldable pub release_behind : ℕ → ℕ → Hashing → Hashing
release_behind batch end st =
    if leb batch (end - st.released_to)
    then record st { released_to = end; released = st.released ++ (st.released_to, end) ∷ [] }
    else st

unfoldable pub hash_one :
    (Bytes → Hash) → SourceFile → Bool → ℕ → ℕ → Hashing → Result CoreError Hashing
hash_one blake3 src release batch index st = do
  (offset, len) ← map_err wire (range src.layout index)
  bytes ← chunk src index
  let hashed = record st { out = st.out ++ hash_chunk blake3 bytes ∷ [] }
  let behind = (do end ← add_u64 offset len; ok (release_behind batch end hashed))
  if release then behind else ok hashed

-- The rounds for the chunks `index`, …, `index + n - 1`.
unfoldable pub hash_from :
    (Bytes → Hash) → SourceFile → Bool → ℕ → ℕ → ℕ → Hashing → Result CoreError Hashing
hash_from blake3 src release batch zero index st = ok st
hash_from blake3 src release batch (suc n) index st =
    hash_one blake3 src release batch index st >>= hash_from blake3 src release batch n (index + 1)

-- The hashes are the field `out`.
unfoldable pub chunk_hashes : (Bytes → Hash) → SourceFile → Bool → Result CoreError Hashing
chunk_hashes blake3 src release_pages =
    hash_from blake3 src (release_pages && ltb hash_pass_release_threshold src.layout.file_size)
      (max release_batch_bytes src.layout.chunk_size) src.layout.count 0
      (record { out = []; released_to = 0; released = [] })
