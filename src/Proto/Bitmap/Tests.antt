-- ===== src/Proto/Bitmap/Tests.antt =====
-- core/crates/aetherlink-proto/src/bitmap.rs: the theorems at concrete inputs.
use speeed.Base.{ℕ, ◌≡◌, refl, List, [], ◌∷◌, arith, ok}
use speeed.Base.Bits.{count_ones}
use speeed.Proto.Chunk.{ChunkLayout}
use speeed.Proto.Chunk.Layout
use speeed.Proto.Chunk.Layout.{len_at, range_tiles, index_of_iff, Covers}
use speeed.Proto.Bitmap
use speeed.Proto.Bitmap.{
  ChunkBitmap, from_bytes, as_bytes, is_complete, get, set, missing_ranges, remaining_bytes,
  has_padding,
}
use speeed.Proto.Bitmap.Invariant.{IsValid}
use speeed.Proto.Bitmap.Complete.{all_present, is_complete-all_present}
use speeed.Proto.Bitmap.Parse.{new-IsValid, from_bytes-IsValid}
use speeed.Proto.Bitmap.Missing.{expand, missing_from, Runs, missing_ranges-expand}

-- 150,000 bytes: two whole chunks and a short one.
abbrev three_chunks : ChunkLayout
three_chunks = record { file_size = 150000; chunk_size = 65536; count = 3 }

three_chunks-IsValid : Layout.IsValid three_chunks
three_chunks-IsValid = record {
  sized = omega arith;
  at_least = omega arith;
  at_most = omega arith;
  counted = refl;
}

-- Ten chunks of which 0, 2 and 9 are there.
abbrev ten_chunks : ChunkBitmap
ten_chunks = record { bits = 5 ∷ 2 ∷ []; count = 10; set_count = 3 }

ten_chunks_read : from_bytes (5 ∷ 2 ∷ []) 10 ≡ ok ten_chunks
unfolding from_bytes has_padding count_ones
ten_chunks_read = refl

from_bytes-IsValid_example :
    IsValid ten_chunks × (as_bytes ten_chunks ≡ 5 ∷ 2 ∷ []) × (ten_chunks.count ≡ 10)
from_bytes-IsValid_example =
    from_bytes-IsValid (5 ∷ 2 ∷ []) 10 (omega arith, (omega arith, tt)) ten_chunks_read

ten_chunks-IsValid : IsValid ten_chunks
ten_chunks-IsValid =
    (from_bytes-IsValid (5 ∷ 2 ∷ []) 10 (omega arith, (omega arith, tt)) ten_chunks_read).0

abbrev four_marked : ChunkBitmap
four_marked = record { bits = 21 ∷ 2 ∷ []; count = 10; set_count = 4 }

mark_4 : set ten_chunks 4 ≡ ok four_marked
unfolding set
mark_4 = refl

is_complete-all_present_example : is_complete ten_chunks ≡ all_present ten_chunks 10
is_complete-all_present_example = is_complete-all_present ten_chunks-IsValid

new-IsValid_example : IsValid (Bitmap.new 10)
new-IsValid_example = new-IsValid 10

missing_ranges-expand_example :
    (ranges : List (ℕ × ℕ)) × (missing_ranges ten_chunks ≡ ok ranges)
    × (expand ranges ≡ missing_from ten_chunks 10 0)
    × Runs 0 ranges
missing_ranges-expand_example = missing_ranges-expand ten_chunks-IsValid

-- Of the three chunks the middle one is there.
abbrev middle : ChunkBitmap
middle = record { bits = 2 ∷ []; count = 3; set_count = 1 }

middle_read : from_bytes (2 ∷ []) 3 ≡ ok middle
unfolding from_bytes has_padding count_ones
middle_read = refl
