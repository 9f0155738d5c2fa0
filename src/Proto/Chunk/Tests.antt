-- ===== src/Proto/Chunk/Tests.antt =====
-- core/crates/aetherlink-proto/src/chunk.rs: the theorems at concrete inputs.
use speeed.Base.{◌<◌, ◌≡◌, refl, arith, ok}
use speeed.Base.Sums.{sum_below}
use speeed.Proto.Chunk.{ChunkLayout, range}
use speeed.Proto.Chunk.Layout
use speeed.Proto.Chunk.Layout.{len_at, range_tiles, index_of_iff, Covers}

-- 150,000 bytes: two whole chunks and a short one.
abbrev three_chunks : ChunkLayout
three_chunks = record { file_size = 150000; chunk_size = 65536; count = 3 }

three_chunks-IsValid : Layout.IsValid three_chunks
three_chunks-IsValid = record {
  sized = omega arith;
  at_least = omega arith;
  at_most = omega arith;
  counted = refl;
}

range_tiles_example :
    (range three_chunks 2 ≡ ok (sum_below 2 (len_at three_chunks), len_at three_chunks 2))
    × (0 < len_at three_chunks 2)
    × (sum_below 3 (len_at three_chunks) ≡ 150000)
range_tiles_example = range_tiles three_chunks-IsValid 2 (omega arith)
