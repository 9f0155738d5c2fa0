-- ===== src/Proto/Bitmap.antt =====
-- core/crates/aetherlink-proto/src/bitmap.rs: one bit for each chunk, the lowest bit of a byte first.
pub mod Bits
pub mod Invariant
pub mod Complete
pub mod Parse
pub mod Missing
pub mod Remaining
mod Tests
use speeed.Base.{
  ℕ, zero, suc, ◌+◌, ◌-◌, ◌*◌, ◌/◌, ◌%◌, ◌^◌, Bool, true, false, not, ◌&&◌, leb, ltb, ◌==◌,
  if◌then◌else◌, Option, none, some, List, [], ◌∷◌, ◌++◌, map, length, get_elem?, get_last?,
  replicate, set as set_elem, Result, ok, err, panic, ◌>>=◌, ◌>>◌, refuse_if, or_panic,
}
use Prim.Native.Nat.{bit_and, bit_or}
use speeed.Base.Bits.{count_ones}
use speeed.Base.Bytes.{Bytes}
use speeed.Base.Sums.{sum}
use speeed.Proto.Errors.{
  Error, chunk_out_of_range, bitmap_length_mismatch, bitmap_padding_set, add_u64, mul_u64, sub_u64,
}
use speeed.Proto.Chunk.{ChunkLayout, div_ceil, range}

pub record ChunkBitmap : Type 0 where
  pub bits : Bytes
  pub count : ℕ
  pub set_count : ℕ

unfoldable pub new : ℕ → ChunkBitmap
new count = record { bits = replicate (div_ceil count 8) 0; count = count; set_count = 0 }

-- `!(0xFF >> trailing)`
abbrev padding_of : ℕ → ℕ
padding_of trailing = 255 - 255 / 2 ^ trailing

has_padding : ℕ → Option ℕ → Bool
has_padding trailing none = false
has_padding trailing (some last) = not (bit_and last (padding_of trailing) == 0)

-- The sum of the ones is at most 8 for each byte of a slice, which fits a u64.
pub from_bytes : Bytes → ℕ → Result Error ChunkBitmap
from_bytes bytes count = do
  let expected = div_ceil count 8
  refuse_if (not (length bytes == expected)) (bitmap_length_mismatch (length bytes) expected)
  bit_count ← mul_u64 expected 8
  trailing ← sub_u64 bit_count count
  refuse_if (ltb 0 trailing && has_padding trailing (get_last? bytes)) bitmap_padding_set
  ok (record { bits = bytes; count = count; set_count = sum (map count_ones bytes) })

abbrev pub as_bytes : ChunkBitmap → Bytes
as_bytes b = b.bits

unfoldable pub is_complete : ChunkBitmap → Bool
is_complete b = b.set_count == b.count

unfoldable pub get : ChunkBitmap → ℕ → Result Error Bool
get b index = if leb b.count index then err (chunk_out_of_range index b.count) else do
  byte ← or_panic (get_elem? b.bits (index / 8))
  ok (not (bit_and byte (2 ^ (index % 8)) == 0))

-- The bitmap after `set`; after an error it is the one before.
unfoldable pub set : ChunkBitmap → ℕ → Result Error ChunkBitmap
set b index = if leb b.count index then err (chunk_out_of_range index b.count) else do
  byte ← or_panic (get_elem? b.bits (index / 8))
  let mask = 2 ^ (index % 8)
  ok (
      if bit_and byte mask == 0
      then record b {
        bits = set_elem b.bits (index / 8) (bit_or byte mask);
        set_count = b.set_count + 1;
      }
      else b)

-- What one index does to the run that is open and to the runs that are closed.
advance : Bool → ℕ → Option ℕ → List (ℕ × ℕ) → Option ℕ × List (ℕ × ℕ)
advance false i none ranges = (some i, ranges)
advance true i (some start) ranges = (none, ranges ++ (start, i) ∷ [])
advance false i (some start) ranges = (some start, ranges)
advance true i none ranges = (none, ranges)

-- The loop of `missing_ranges`, with the rounds that are left.
scan : Bytes → ℕ → ℕ → Option ℕ → List (ℕ × ℕ) → Result Error (Option ℕ × List (ℕ × ℕ))
unfolding advance
scan bits zero i run_start ranges = ok (run_start, ranges)
scan bits (suc n) i run_start ranges = do
  byte ← or_panic (get_elem? bits (i / 8))
  let present = not (bit_and byte (2 ^ (i % 8)) == 0)
  let (run', ranges') = advance present i run_start ranges
  scan bits n (i + 1) run' ranges'

close_run : ℕ → Option ℕ × List (ℕ × ℕ) → List (ℕ × ℕ)
close_run count (none, ranges) = ranges
close_run count (some start, ranges) = ranges ++ (start, count) ∷ []

-- The only way to fail is the index into the bytes.
unfoldable pub missing_ranges : ChunkBitmap → Result Error (List (ℕ × ℕ))
unfolding scan close_run
missing_ranges b = do out ← scan b.bits b.count 0 none []; ok (close_run b.count out)

-- `for i in start..start + n`
add_chunks : ChunkLayout → ℕ → ℕ → ℕ → Result Error ℕ
add_chunks layout zero i total = ok total
add_chunks layout (suc n) i total = do
  (_, len) ← range layout i
  total' ← add_u64 total len
  add_chunks layout n (i + 1) total'

add_ranges : ChunkLayout → List (ℕ × ℕ) → ℕ → Result Error ℕ
unfolding add_chunks
add_ranges layout [] total = ok total
add_ranges layout ((start, end) ∷ ranges) total = do
  total' ← add_chunks layout (end - start) start total
  add_ranges layout ranges total'

pub remaining_bytes : ChunkBitmap → ChunkLayout → Result Error ℕ
remaining_bytes b layout = do ranges ← missing_ranges b; add_ranges layout ranges 0
