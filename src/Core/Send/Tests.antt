-- ===== src/Core/Send/Tests.antt =====
-- core/crates/aetherlink-core/src/send.rs: the theorems at concrete inputs.
use speeed.Base.{
  List, All, ◌<◌, ◌^◌, ℕ, true, none, ◌++◌, length, length-take, length-append, length-replicate,
  replicate, ok, ◌≡◌, refl, some, [], ◌∷◌, arith,
}
use speeed.Base.Bytes.{Bytes}
use speeed.Proto.Chunk
use speeed.Proto.Chunk.{is_power_of_two}
use speeed.Proto.Hashes.Root.{IsHash}
use speeed.Proto.Bitmap.{get}
use speeed.Proto.Manifest.Plain.{plain, plain_passes}
use speeed.Core.Config
use speeed.Core.Config.{Config}
use speeed.Core.Control.{FileEntry, hello}
use speeed.Core.Recv.{FileState, World, get_state, drain_stream}
use speeed.Core.Offer.{check_entry, start}
use speeed.Core.Offer.Accepts.{handshake-AllValid}
use speeed.Core.Offer.Sample.{
  prefix, content, setup, one_file, greeting, awaited, accepted, hands_shaken, entry-Sound,
}
use speeed.Core.Source.{SourceFile, open_source}
use speeed.Core.Source.Hashes.{hashes_of}
use speeed.Core.Transfer.{session_of}
use speeed.Proto.Chunk.{ChunkLayout}
use speeed.Proto.Chunk.Layout
use speeed.Proto.Bitmap
use speeed.Proto.Bitmap.{from_bytes}
use speeed.Proto.Bitmap.Invariant.{is_true}
use speeed.Proto.Bitmap.Parse.{new-IsValid, from_bytes-as_bytes}
use speeed.Core.Send.Queue.{chunk_frames, Entry, FileProgress, have, build_queue}
use speeed.Core.Send.Planned.{Answered, wanted, wanted_bytes, build_queue-wanted}
use speeed.Core.Send.Announce.{OutgoingFile, announce, check_entry-announce}
use speeed.Core.Send.Arrives.{drain_stream-chunk_frames}
use speeed.Core.Send.{ReadCursor, finish}
use speeed.Core.Send.Cursor.{IsSafe}

-- Chunks 1 and 2 are in flight, and chunk 0 is released.
abbrev two_readers : ReadCursor
two_readers = record { in_flight = 2 ∷ 1 ∷ []; next_dispatch = 3; released_to = 100 }

two_readers-IsSafe : IsSafe 100 two_readers
two_readers-IsSafe = record {
  reading = (omega arith, (omega arith, tt));
  ahead = omega arith;
  ordered = (omega arith, (omega arith, tt));
}

-- Chunk 2 is still read, so the pages of chunk 1 are released and no more.
one_released : (finish two_readers 1 100 100 250).1 ≡ some (100, 200)
unfolding finish
one_released = refl

abbrev holiday : OutgoingFile
holiday = record { content = some content; relative_path = plain; mime_type = [] }

abbrev source : SourceFile
source = record {
  map = content;
  layout = record { file_size = 3; chunk_size = 65536; count = 1 };
  page_size = 4096;
}

abbrev sender : Config
sender = record Config.default { chunk_size = 65536 }

opens : open_source (some content) 65536 none ≡ ok source
unfolding open_source Chunk.new is_power_of_two
opens = refl

prefix-IsHash : (bytes : Bytes) → IsHash (prefix bytes)
prefix-IsHash bytes = omega (
  arith,
  length-take 32 (bytes ++ replicate 32 0),
  length-append bytes (replicate 32 0),
  length-replicate {A = ℕ} 32 0,
)

check_entry-announce_example :
    (entry : FileEntry) × (announce prefix sender none 5 holiday ≡ ok (source, entry))
    × (entry.file_id ≡ 5)
    × (entry.size_bytes ≡ length content)
    × (check_entry setup one_file entry []
        ≡ ok (plain, source.layout, hashes_of prefix content source.layout 1 0))
check_entry-announce_example =
    check_entry-announce setup sender none 5 holiday content plain source one_file [] prefix-IsHash
      refl (omega arith) opens refl plain_passes refl (omega arith)

awaited_there : get_state (start accepted).files 0 ≡ some awaited
unfolding get_state
awaited_there = refl

-- Two frames, of two bytes and of one.
drain_stream-chunk_frames_example :
    (frames : Bytes) × (w' : World) × (st' : FileState) × (chunk_frames 0 0 2 content ≡ ok frames)
    × (drain_stream (session_of setup (λ w. true) accepted) (start accepted) frames ≡ (w', ok tt))
    × (get_state w'.files 0 ≡ some st')
    × (get st'.bitmap 0 ≡ ok true)
drain_stream-chunk_frames_example =
    drain_stream-chunk_frames (session_of setup (λ w. true) accepted) (start accepted) awaited 0 0 2
      content awaited_there
      (handshake-AllValid setup (hello greeting) one_file 1 accepted entry-Sound hands_shaken).0
      (omega arith) refl refl (omega arith) (omega arith) (omega arith) (omega arith) (omega arith)

-- Two files of one chunk each; the receiver has accepted the second, of which it has nothing.
abbrev one_chunk : ChunkLayout
one_chunk = source.layout

abbrev two_entries : List Entry
two_entries =
    record { file_id = 0; layout = one_chunk } ∷ record { file_id = 1; layout = one_chunk } ∷ []

abbrev has_nothing : List FileProgress
has_nothing = record { file_id = 1; have_bitmap = 0 ∷ [] } ∷ []

one_chunk-IsValid : Layout.IsValid one_chunk
one_chunk-IsValid = record {
  sized = omega arith;
  at_least = omega arith;
  at_most = omega arith;
  counted = refl;
}

all_missing : from_bytes (0 ∷ []) 1 ≡ ok (Bitmap.new 1)
unfolding Bitmap.new
all_missing = from_bytes-as_bytes (Bitmap.new 1) (new-IsValid 1) (omega arith)

two_entries-Answered : All (Answered has_nothing) two_entries
unfolding have Bitmap.new
two_entries-Answered = (
  record {
    geometry = one_chunk-IsValid;
    bitmap = Bitmap.new 1;
    answers = refl;
    valid = new-IsValid 1;
    counted = refl;
  },
  (
    record {
      geometry = one_chunk-IsValid;
      bitmap = Bitmap.new 1;
      answers = rw all_missing refl;
      valid = new-IsValid 1;
      counted = refl;
    },
    tt,
  ),
)

few_bytes : wanted_bytes (1 ∷ []) has_nothing two_entries < 2 ^ 64
unfolding have Bitmap.new get is_true
few_bytes = rw all_missing (omega arith)

build_queue-wanted_example :
    build_queue (1 ∷ []) has_nothing two_entries
    ≡ ok (record {
      queue = wanted (1 ∷ []) has_nothing two_entries 0;
      bytes_to_send = wanted_bytes (1 ∷ []) has_nothing two_entries;
    })
build_queue-wanted_example =
    build_queue-wanted (1 ∷ []) has_nothing two_entries two_entries-Answered few_bytes
