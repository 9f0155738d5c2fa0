-- ===== src/Core/Resume/Tests.antt =====
-- core/crates/aetherlink-core/src/resume.rs: the theorems at concrete inputs.
use speeed.Base.{
  ℕ, ◌<◌, ◌≡◌, refl, ◌&&◌, if◌then◌else◌, none, some, [], ◌∷◌, ◌++◌, length-append, length-take,
  take, replicate, arith, ok,
}
use speeed.Base.Bytes.{Bytes}
use speeed.Proto.Chunk.{ChunkLayout}
use speeed.Proto.Chunk.Layout
use speeed.Proto.Hashes.{Hash}
use speeed.Proto.Hashes.Root.{IsHash}
use speeed.Proto.Bitmap
use speeed.Proto.Bitmap.{ChunkBitmap, get}
use speeed.Proto.Bitmap.Invariant
use speeed.Proto.Bitmap.Parse
use speeed.Core.Resume.{StateKey, persist, load, rebuild_by_verification}
use speeed.Core.Resume.Sidecar.{same_key, is_long, load-persist}
use speeed.Core.Resume.Rebuild.{is_there, rebuild_by_verification-is_there}

-- A stand-in for BLAKE3 that gives 32 bytes.
abbrev padded : Bytes → Hash
padded bytes = take 32 (bytes ++ replicate 32 0)

padded-IsHash : (bytes : Bytes) → IsHash (padded bytes)
padded-IsHash bytes =
    omega (arith, length-take 32 (bytes ++ replicate 32 0), length-append bytes (replicate 32 0))

abbrev own_key : StateKey
own_key = record { root_hash = replicate 32 9; file_size = 3; chunk_size = 65536 }

abbrev one_chunk : ChunkBitmap
one_chunk = record { bits = 0 ∷ []; count = 1; set_count = 0 }

one_chunk-IsValid : Invariant.IsValid one_chunk
unfolding Bitmap.new
one_chunk-IsValid = Parse.new-IsValid 1

load-persist_example :
    load padded (some (persist padded own_key one_chunk)) (some 3) own_key
    ≡ (if same_key own_key own_key && is_long (some 3) 3 then some one_chunk else none)
load-persist_example =
    load-persist padded (some 3) own_key own_key one_chunk padded-IsHash one_chunk-IsValid (record {
      root_hash = refl;
      file_size = omega arith;
      chunk_size = omega arith;
      count = omega arith;
    })

abbrev three_bytes : ChunkLayout
three_bytes = record { file_size = 3; chunk_size = 65536; count = 1 }

three_bytes-IsValid : Layout.IsValid three_bytes
three_bytes-IsValid = record {
  sized = omega arith;
  at_least = omega arith;
  at_most = omega arith;
  counted = refl;
}

rebuild_by_verification-is_there_example :
    (b : ChunkBitmap) × (rebuild_by_verification padded
        (7 ∷ 8 ∷ 9 ∷ [])
        three_bytes
        (padded (7 ∷ 8 ∷ 9 ∷ []) ∷ [])
      ≡ ok b)
    × Invariant.IsValid b
    × (b.count ≡ 1)
    × ((i : ℕ)
        → i < 1
        → get b i
          ≡ ok (is_there padded (7 ∷ 8 ∷ 9 ∷ []) three_bytes (padded (7 ∷ 8 ∷ 9 ∷ []) ∷ []) i))
rebuild_by_verification-is_there_example =
    rebuild_by_verification-is_there padded (7 ∷ 8 ∷ 9 ∷ []) three_bytes
      (padded (7 ∷ 8 ∷ 9 ∷ []) ∷ []) three_bytes-IsValid refl refl
