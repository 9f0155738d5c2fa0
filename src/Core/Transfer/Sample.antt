-- ===== src/Core/Transfer/Sample.antt =====
-- core/crates/aetherlink-core/src/recv.rs: a transfer of the file of the sample offer.
use speeed.Base.{◌≡◌, refl, true, some, [], ◌∷◌, ◌++◌, ok}
use speeed.Base.Bytes.{Bytes}
use speeed.Proto.Chunk.{index_of, range}
use speeed.Proto.Bitmap
use speeed.Proto.Frame
use speeed.Proto.Frame.{FrameHeader, file_data, to_bytes, from_u8, check_fields, decode}
use speeed.Core.Sink.{verify_and_write}
use speeed.Core.Control.{hello, offer}
use speeed.Core.Recv.{
  FileState, get_state, put_state, checkpoint_if_due, on_frame, on_data, open_chunk, check_frame,
  finish_chunk, take_frame, close,
}
use speeed.Core.Offer.Sample.{content, setup, one_file, greeting, awaited, hands_shaken}
use speeed.Core.Transfer.{
  round, advance, turn, run_schedule, first_error, complete_files, conclude, spawn_all, transfer,
}

-- The whole file in one frame.
abbrev pub wire : Bytes
wire = to_bytes (Frame.new file_data 0 0 3) ++ content

abbrev pub received : FileState
received = record awaited {
  content = content;
  synced = content;
  bitmap = record { bits = 1 ∷ []; count = 1; set_count = 1 };
}

-- Two turns: one takes the frame, the other finds the end of the stream.
pub two_turns :
    transfer setup (λ w. true) (hello greeting) (offer one_file) (λ i. wire) (0 ∷ 0 ∷ [])
    ≡ ok (some ((0, received) ∷ [], ok 3))
unfolding transfer run_schedule turn advance round take_frame on_frame on_data open_chunk
    check_frame finish_chunk checkpoint_if_due get_state put_state close decode from_u8 check_fields
    to_bytes index_of range verify_and_write Bitmap.set Bitmap.is_complete first_error
    complete_files conclude spawn_all
two_turns = rw hands_shaken refl
