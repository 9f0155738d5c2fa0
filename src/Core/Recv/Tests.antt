-- ===== src/Core/Recv/Tests.antt =====
-- core/crates/aetherlink-core/src/recv.rs: the theorems at concrete inputs.
use speeed.Base.{◌≢◌, panic, zero, suc, ◌≡◌, refl, true, none, [], ◌∷◌, ◌++◌, take, arith, ok}
use speeed.Base.Bytes.{Bytes}
use speeed.Proto.Chunk.{index_of, range}
use speeed.Proto.Chunk.Layout
use speeed.Proto.Hashes.{Hash, root_from_chunk_hashes}
use speeed.Proto.Bitmap
use speeed.Proto.Bitmap.{ChunkBitmap, get}
use speeed.Proto.Bitmap.Invariant
use speeed.Proto.Bitmap.Parse
use speeed.Proto.Frame.{FrameHeader, file_data, no_flags, to_bytes}
use speeed.Core.Sink.{verify_and_write}
use speeed.Core.Recv.{
  FileState, World, Stream, Session, on_progress, on_file_completed, get_state, put_state,
  checkpoint_if_due, on_frame, on_data, open_chunk, check_frame, finish_chunk, drain, drain_stream,
}
use speeed.Core.Recv.Verified.{Verified}
use speeed.Core.Recv.Preserved.{IsValid, AllValid}
use speeed.Core.Recv.Frames.{Opens, Kept, on_frame-Kept}
use speeed.Core.Recv.Total.{drain_stream-ne-panic}
use speeed.Core.Recv.Streams.{drain_stream-AllValid}
use speeed.Core.Recv.Complete.{hashes_from, is_complete-root}

-- A stand-in for BLAKE3.
abbrev prefix : Bytes → Hash
prefix bytes = take 32 bytes

-- A file of three bytes, of which nothing is there yet.
abbrev awaited : FileState
awaited = record {
  content = 0 ∷ 0 ∷ 0 ∷ [];
  layout = record { file_size = 3; chunk_size = 65536; count = 1 };
  chunk_hashes = (7 ∷ 8 ∷ 9 ∷ []) ∷ [];
  bitmap = record { bits = 0 ∷ []; count = 1; set_count = 0 };
  since_checkpoint = 0;
  synced = [];
  recorded = none;
}

-- The same file when it is there.
abbrev arrived : FileState
arrived = record {
  content = 7 ∷ 8 ∷ 9 ∷ [];
  layout = record { file_size = 3; chunk_size = 65536; count = 1 };
  chunk_hashes = (7 ∷ 8 ∷ 9 ∷ []) ∷ [];
  bitmap = record { bits = 1 ∷ []; count = 1; set_count = 1 };
  since_checkpoint = 3;
  synced = [];
  recorded = none;
}

geometry_of_three : Layout.IsValid awaited.layout
geometry_of_three = record {
  sized = omega arith;
  at_least = omega arith;
  at_most = omega arith;
  counted = refl;
}

awaited_bits : Invariant.IsValid awaited.bitmap
unfolding Bitmap.new
awaited_bits = Parse.new-IsValid 1

nothing_there : Verified prefix awaited.layout awaited.chunk_hashes awaited.content awaited.bitmap
unfolding get
nothing_there zero h e = cc
nothing_there (suc i) h e = absurd (omega arith)

awaited-IsValid : IsValid prefix awaited
awaited-IsValid = record {
  geometry = geometry_of_three;
  sized = refl;
  bitmap = awaited_bits;
  counted = refl;
  hashed = refl;
  verified = nothing_there;
  recorded = λ b e. cc;
}

arrived_bits : Invariant.IsValid arrived.bitmap
unfolding Bitmap.set
arrived_bits =
    let (b, e, v, _) = Invariant.set-IsValid awaited_bits 0 (omega arith) in
    let same : b ≡ arrived.bitmap = cc in rw (← same) v

all_there : Verified prefix arrived.layout arrived.chunk_hashes arrived.content arrived.bitmap
all_there zero h e = refl
all_there (suc i) h e = absurd (omega arith)

arrived-IsValid : IsValid prefix arrived
arrived-IsValid = record {
  geometry = geometry_of_three;
  sized = refl;
  bitmap = arrived_bits;
  counted = refl;
  hashed = refl;
  verified = all_there;
  recorded = λ b e. cc;
}

is_complete-root_example :
    (hashes_from prefix arrived 1 0 ≡ (7 ∷ 8 ∷ 9 ∷ []) ∷ [])
    × (root_from_chunk_hashes prefix (hashes_from prefix arrived 1 0)
        ≡ root_from_chunk_hashes prefix ((7 ∷ 8 ∷ 9 ∷ []) ∷ []))
unfolding Bitmap.is_complete
is_complete-root_example = is_complete-root prefix arrived arrived-IsValid refl

abbrev session : Session
session = record { blake3 = prefix; free = λ w. true; total_bytes = 3; checkpoint_bytes = 1000 }

abbrev waiting : World
waiting = record { files = (1, awaited) ∷ []; counter = 0; events = [] }

abbrev received : World
received = record {
  files = (1, arrived) ∷ [];
  counter = 3;
  events = on_progress 3 3 ∷ on_file_completed 1 ∷ [];
}

abbrev idle : Stream
idle = record { buf = []; current = none }

abbrev whole_chunk : FrameHeader
whole_chunk = record { msg_type = file_data; flags = no_flags; file_id = 1; offset = 0; length = 3 }

frame_taken : on_frame session waiting idle whole_chunk (7 ∷ 8 ∷ 9 ∷ []) ≡ ok (received, idle)
unfolding on_frame on_data open_chunk check_frame finish_chunk get_state put_state checkpoint_if_due
    index_of range verify_and_write Bitmap.set Bitmap.is_complete
frame_taken = refl

on_frame-Kept_example : Kept prefix waiting received idle × Opens received.files idle
on_frame-Kept_example =
    on_frame-Kept session waiting received idle idle idle whole_chunk (7 ∷ 8 ∷ 9 ∷ [])
      (awaited-IsValid, tt) (λ c e. cc) (λ c e. cc) frame_taken

drain_stream-AllValid_example :
    AllValid prefix (drain_stream session waiting (to_bytes whole_chunk ++ 7 ∷ 8 ∷ 9 ∷ [])).0.files
    × (drain 100 session waiting idle (to_bytes whole_chunk ++ 7 ∷ 8 ∷ 9 ∷ [])
        ≡ drain_stream session waiting (to_bytes whole_chunk ++ 7 ∷ 8 ∷ 9 ∷ []))
unfolding to_bytes
drain_stream-AllValid_example =
    drain_stream-AllValid session waiting (to_bytes whole_chunk ++ 7 ∷ 8 ∷ 9 ∷ []) 100
      (awaited-IsValid, tt) (omega arith)

drain_stream-ne-panic_example :
    (drain_stream session waiting (to_bytes whole_chunk ++ 7 ∷ 8 ∷ 9 ∷ [])).1 ≢ panic
unfolding to_bytes
drain_stream-ne-panic_example =
    drain_stream-ne-panic session waiting (to_bytes whole_chunk ++ 7 ∷ 8 ∷ 9 ∷ [])
      (awaited-IsValid, tt) (omega arith)
