-- ===== src/Ffi/Settings.antt =====
-- core/crates/aetherlink-ffi/src/lib.rs: the configuration that the platform passes. The number of
-- cores is what `available_parallelism` gives, or nothing.
mod Tests
use speeed.Base.{
  ℕ, ◌*◌, ◌+◌, ◌^◌, ◌≤◌, ◌<◌, ◌≡◌, ◌≢◌, ◌⊎◌, inl, inr, refl, ap, min, max, Bool, true, ◌==◌, ==_iff,
  if◌then◌else◌, Bool-cases, Option, none, some, arith,
}
use speeed.Proto.Chunk.{default_chunk_size}
use speeed.Proto.Frame.{default_frame_payload}
use speeed.Core.Config
use speeed.Core.Config.{Config}

pub record TransferConfig : Type 0 where
  pub stream_count : ℕ
  pub frame_size_bytes : ℕ
  pub chunk_size_bytes : ℕ
  pub max_streams : ℕ
  pub max_file_bytes : ℕ
  pub resume : Bool
  pub checkpoint_bytes : ℕ
  pub bound_interface_index : ℕ
  pub socket_send_buffer_bytes : ℕ
  pub socket_recv_buffer_bytes : ℕ
  pub release_read_pages : Bool

abbrev pub default : TransferConfig
default = record {
  stream_count = 0;
  frame_size_bytes = 262144;
  chunk_size_bytes = 4 * 1024 * 1024;
  max_streams = 32;
  max_file_bytes = 2 * 2 ^ 40;
  resume = true;
  checkpoint_bytes = 64 * 1024 * 1024;
  bound_interface_index = 0;
  socket_send_buffer_bytes = 0;
  socket_recv_buffer_bytes = 0;
  release_read_pages = true;
}

-- `unwrap_or(4)`
abbrev cores_or_four : Option ℕ → ℕ
cores_or_four none = 4
cores_or_four (some n) = n

-- `clamp(2, 8)`; the cast to u8 keeps a number that small.
unfoldable pub default_stream_count : Option ℕ → ℕ
default_stream_count cores = min (max (cores_or_four cores) 2) 8

unfoldable pub resolve : TransferConfig → Option ℕ → Config
resolve c cores = record {
  stream_count = if c.stream_count == 0 then default_stream_count cores else c.stream_count;
  frame_size = c.frame_size_bytes;
  chunk_size = c.chunk_size_bytes;
  max_streams = c.max_streams;
  max_file_bytes = c.max_file_bytes;
  resume = c.resume;
  checkpoint_bytes = c.checkpoint_bytes;
  bound_interface_index = c.bound_interface_index;
  socket_send_buffer_bytes = c.socket_send_buffer_bytes;
  socket_recv_buffer_bytes = c.socket_recv_buffer_bytes;
  release_read_pages = c.release_read_pages;
}

unfoldable pub resolved_stream_count : TransferConfig → Option ℕ → ℕ
unfolding resolve
resolved_stream_count c cores = (resolve c cores).stream_count

-- Whatever the platform asks for and however many cores there are, the engine opens at least one
-- stream. It opens as many as asked for, unless zero was: then between two and eight.
pub resolved_stream_count_bounds :
    (c : TransferConfig) (cores : Option ℕ)
    → (0 < resolved_stream_count c cores)
      × ((c.stream_count ≢ 0) × (resolved_stream_count c cores ≡ c.stream_count)
          ⊎ ((c.stream_count ≡ 0)
              × (2 ≤ resolved_stream_count c cores)
              × (resolved_stream_count c cores ≤ 8)))
unfolding resolved_stream_count resolve default_stream_count
resolved_stream_count_bounds c cores = elim (Bool-cases (c.stream_count == 0)) [
  | inl zero ↦
      let eq : c.stream_count ≡ 0 = (==_iff c.stream_count 0).0 zero in
      rw zero (omega arith, inr (eq, omega arith, omega arith))
  | inr other ↦
      let ne : c.stream_count ≢ 0 = λ e. cc (other, (==_iff c.stream_count 0).1 e) in
      rw other (ground (arith, other), inl (ne, refl))
]
