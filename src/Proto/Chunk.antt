-- ===== src/Proto/Chunk.antt =====
-- core/crates/aetherlink-proto/src/chunk.rs: the geometry of one file's chunks.
pub mod Layout
mod Tests
use speeed.Base.{
  ℕ, zero, suc, ◌+◌, ◌-◌, ◌*◌, ◌/◌, ◌^◌, min, Bool, true, false, not, ◌&&◌, ◌||◌, leb, ◌==◌,
  if◌then◌else◌, Result, ok, err, panic, ◌>>=◌, ◌>>◌, refuse_if,
}
use speeed.Proto.Errors.{
  Error, invalid_chunk_size, chunk_out_of_range, offset_out_of_range, mul_u64, sub_u64,
}

abbrev pub default_chunk_size : ℕ
default_chunk_size = 4 * 1024 * 1024

abbrev pub min_chunk_size : ℕ
min_chunk_size = 64 * 1024

abbrev pub max_chunk_size : ℕ
max_chunk_size = 64 * 1024 * 1024

pub record ChunkLayout : Type 0 where
  pub file_size : ℕ
  pub chunk_size : ℕ
  pub count : ℕ

-- `div_ceil`, for a positive divisor.
abbrev pub div_ceil : ℕ → ℕ → ℕ
div_ceil a b = (a + (b - 1)) / b

-- One of 2 ^ 0, …, 2 ^ (n - 1).
power_below : ℕ → ℕ → Bool
power_below zero v = false
power_below (suc n) v = v == 2 ^ n || power_below n v

-- `u32::is_power_of_two`
unfoldable pub is_power_of_two : ℕ → Bool
unfolding power_below
is_power_of_two v = power_below 32 v

unfoldable pub new : ℕ → ℕ → Result Error ChunkLayout
new file_size chunk_size = do
  refuse_if (not (leb min_chunk_size chunk_size && leb chunk_size max_chunk_size))
      (invalid_chunk_size chunk_size)
  refuse_if (not (is_power_of_two chunk_size)) (invalid_chunk_size chunk_size)
  ok (record {
    file_size = file_size;
    chunk_size = chunk_size;
    count = div_ceil file_size chunk_size;
  })

-- The offset and the length of a chunk.
unfoldable pub range : ChunkLayout → ℕ → Result Error (ℕ × ℕ)
range l index = if leb l.count index then err (chunk_out_of_range index l.count) else do
  offset ← mul_u64 index l.chunk_size
  rest ← sub_u64 l.file_size offset
  ok (offset, min rest l.chunk_size)

unfoldable pub index_of : ChunkLayout → ℕ → Result Error ℕ
index_of l offset =
    if leb l.file_size offset
    then err (offset_out_of_range offset l.file_size)
    else ok (offset / l.chunk_size)
