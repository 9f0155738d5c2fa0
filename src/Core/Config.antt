-- ===== src/Core/Config.antt =====
-- core/crates/aetherlink-core/src/lib.rs: the tuning knobs.
use speeed.Base.{ℕ, ◌*◌, ◌^◌, Bool, true}
use speeed.Proto.Chunk.{default_chunk_size}
use speeed.Proto.Frame.{default_frame_payload}
use speeed.Core.Resume.{default_checkpoint_bytes}

pub record Config : Type 0 where
  pub stream_count : ℕ
  pub frame_size : ℕ
  pub chunk_size : ℕ
  pub max_streams : ℕ
  pub max_file_bytes : ℕ
  pub resume : Bool
  pub checkpoint_bytes : ℕ
  pub bound_interface_index : ℕ
  pub socket_send_buffer_bytes : ℕ
  pub socket_recv_buffer_bytes : ℕ
  pub release_read_pages : Bool

abbrev pub default : Config
default = record {
  stream_count = 8;
  frame_size = default_frame_payload;
  chunk_size = default_chunk_size;
  max_streams = 32;
  max_file_bytes = 2 * 2 ^ 40;
  resume = true;
  checkpoint_bytes = default_checkpoint_bytes;
  bound_interface_index = 0;
  socket_send_buffer_bytes = 0;
  socket_recv_buffer_bytes = 0;
  release_read_pages = true;
}
