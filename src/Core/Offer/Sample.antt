-- ===== src/Core/Offer/Sample.antt =====
-- core/crates/aetherlink-core/src/recv.rs: an offer of one file of three bytes.
use speeed.Base.{
  length-append, length-take, ◌≡◌, refl, none, [], ◌∷◌, ◌++◌, take, replicate, All, arith, ok,
}
use speeed.Base.Bytes.{Bytes}
use speeed.Proto.Chunk
use speeed.Proto.Chunk.{ChunkLayout, is_power_of_two}
use speeed.Proto.Hashes.{Hash, root_input, root_from_chunk_hashes}
use speeed.Proto.Hashes.Root.{IsHash}
use speeed.Proto.Bitmap
use speeed.Proto.Manifest.Plain.{plain, plain_passes}
use speeed.Core.Config
use speeed.Core.Control.{FileEntry, Hello, ManifestOffer, hello, offer}
use speeed.Core.Platform.{linux, success, preallocate, reserve_blocks}
use speeed.Core.Resume.{load}
use speeed.Core.Recv.{FileState, split_hashes}
use speeed.Core.Offer.{
  Setup, Accepting, check_hello, choose_bitmap, prepare, check_entry, accept_entry, accept_entries,
  nothing_yet, handshake,
}
use speeed.Core.Offer.Accepts.{Sound}

-- A stand-in for BLAKE3: the first 32 bytes.
abbrev pub prefix : Bytes → Hash
prefix bytes = take 32 (bytes ++ replicate 32 0)

pub prefix-IsHash : (bytes : Bytes) → IsHash (prefix bytes)
prefix-IsHash bytes =
    omega (arith, length-take 32 (bytes ++ replicate 32 0), length-append bytes (replicate 32 0))

abbrev pub content : Bytes
content = 7 ∷ 8 ∷ 9 ∷ []

abbrev pub setup : Setup
setup = record {
  blake3 = prefix;
  config = record Config.default { checkpoint_bytes = 0 };
  disk = record {
    os = linux;
    fallocate = success;
    allocate_contig = success;
    allocate_all = success;
    set_len = success;
  };
  place = λ path. record { existing = none; sidecar = none };
}

abbrev pub entry : FileEntry
entry = record {
  file_id = 0;
  relative_path = plain;
  size_bytes = 3;
  mime_type = [];
  root_hash = root_from_chunk_hashes prefix (prefix content ∷ []);
  chunk_hashes = prefix content;
  modified_unix_ms = 0;
  created_unix_ms = 0;
}

abbrev pub one_file : ManifestOffer
one_file = record { chunk_size = 65536; files = entry ∷ [] }

abbrev pub greeting : Hello
greeting = record { protocol_version = 1; session_id = []; stream_count = 1 }

abbrev pub layout : ChunkLayout
layout = record { file_size = 3; chunk_size = 65536; count = 1 }

abbrev pub awaited : FileState
awaited = record {
  content = 0 ∷ 0 ∷ 0 ∷ [];
  layout = layout;
  chunk_hashes = prefix content ∷ [];
  bitmap = record { bits = 0 ∷ []; count = 1; set_count = 0 };
  since_checkpoint = 0;
  synced = 0 ∷ 0 ∷ 0 ∷ [];
  recorded = none;
}

abbrev pub accepted : Accepting
accepted = record {
  files = (0, awaited) ∷ [];
  accepted = 0 ∷ [];
  progress = record { file_id = 0; have_bitmap = 0 ∷ [] } ∷ [];
  seen_paths = plain ∷ [];
  total_bytes = 3;
  resumed_bytes = 0;
}

checked : check_entry setup one_file entry [] ≡ ok (plain, layout, prefix content ∷ [])
unfolding check_entry Chunk.new is_power_of_two split_hashes root_input
checked = rw plain_passes refl

prepared : prepare setup one_file entry plain layout (prefix content ∷ []) ≡ ok awaited
unfolding prepare choose_bitmap preallocate reserve_blocks load Bitmap.new
prepared = refl

entry_accepted : accept_entry setup one_file entry nothing_yet ≡ ok accepted
unfolding accept_entry
entry_accepted = rw (checked, prepared) refl

pub hands_shaken : handshake setup (hello greeting) (offer one_file) ≡ ok (1, accepted)
unfolding handshake check_hello accept_entries
hands_shaken = rw entry_accepted refl

pub entry-Sound : All (Sound setup one_file) one_file.files
unfolding load
entry-Sound = (
  record {
    sized = omega arith;
    vacant = λ path safe none_there. absurd (omega arith);
    honest = λ path content layout hashes b cut made counted found. cc;
  },
  tt,
)
