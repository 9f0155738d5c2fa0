-- ===== src/Core/Recv.antt =====
-- core/crates/aetherlink-core/src/recv.rs: what arrives on a data stream. A `World` is what the
-- workers share, a `Stream` what one of them keeps between two frames. An error leaves the world as
-- it was before the frame.
pub mod Verified
pub mod Preserved
pub mod Frames
pub mod Streams
pub mod Unchanged
pub mod Complete
pub mod Room
pub mod Total
mod Tests
use speeed.Base.{
  ℕ, zero, suc, ◌+◌, ◌*◌, ◌%◌, ◌^◌, Bool, true, false, not, ltb, ◌==◌, if◌then◌else◌, Option, none,
  some, List, [], ◌∷◌, ◌++◌, length, get_elem?, take, drop, Result, ok, err, panic, ◌>>=◌, ◌>>◌,
  ok_or, or_panic, refuse_if, map_err,
}
use speeed.Base.Bytes.{Bytes}
use speeed.Proto.Errors.{add_u64}
use speeed.Proto.Chunk.{ChunkLayout, range, index_of}
use speeed.Proto.Hashes.{Hash}
use speeed.Proto.Bitmap
use speeed.Proto.Bitmap.{ChunkBitmap}
use speeed.Proto.Frame.{FrameHeader, control, file_data, file_end, keepalive, decode, header_len}
use speeed.Core.Errors.{
  CoreError, protocol, io, wire, incomplete, unexpected_message, unknown_file_id, not_at_own_offset,
  interleaved_files, out_of_order, overruns_chunk, wrong_hash_bytes,
}
use speeed.Core.Sink.{verify_and_write}

-- `content` is the file behind the sink; `synced` and `recorded` are what the last checkpoint has
-- put on the device: the content that it synced, and the bitmap of the record beside it. The key of
-- that record is left out, and so is the lock `checkpointing`: see `checkpoint_if_due`. So is the path:
-- the states are separate files, and what the names of their records do to one another in a
-- directory is in Core/Resume/Names.
pub record FileState : Type 0 where
  pub content : Bytes
  pub layout : ChunkLayout
  pub chunk_hashes : List Hash
  pub bitmap : ChunkBitmap
  pub since_checkpoint : ℕ
  pub synced : Bytes
  pub recorded : Option ChunkBitmap

pub data Event : Type 0 where
  on_progress : ℕ → ℕ → Event
  on_file_completed : ℕ → Event

pub record World : Type 0 where
  pub files : List (ℕ × FileState)
  pub counter : ℕ
  pub events : List Event

pub record Current : Type 0 where
  pub file_id : ℕ
  pub chunk_index : ℕ
  pub start : ℕ
  pub expected_len : ℕ

pub record Stream : Type 0 where
  pub buf : Bytes
  pub current : Option Current

-- `files.get`, and the change of a state through its `Arc`.
unfoldable pub get_state : List (ℕ × FileState) → ℕ → Option FileState
get_state [] file_id = none
get_state ((k, st) ∷ files) file_id =
    let rest = get_state files file_id in if k == file_id then some st else rest

unfoldable pub put_state : List (ℕ × FileState) → ℕ → FileState → List (ℕ × FileState)
put_state [] file_id st = []
put_state ((k, old) ∷ files) file_id st =
    let rest = put_state files file_id st in
    if k == file_id then (k, st) ∷ files else (k, old) ∷ rest

-- The snapshot of the bitmap, then the sync, then the record, where both succeed; Core/Crash has their
-- steps one by one, with failures between them.
unfoldable pub checkpoint : FileState → FileState
checkpoint st =
    if st.bitmap.set_count == 0
    then st
    else record st { synced = st.content; recorded = some st.bitmap }

-- `free` tells whether `try_lock` takes the lock.
unfoldable pub checkpoint_if_due : Bool → FileState → ℕ → ℕ → Result CoreError FileState
checkpoint_if_due free st added threshold = if threshold == 0 then ok st else do
  total ← add_u64 st.since_checkpoint added
  let counted = record st { since_checkpoint = total }
  ok (
      if ltb total threshold
      then counted
      else if free
      then checkpoint (record counted { since_checkpoint = 0 })
      else counted)

-- The chunk that a frame belongs to, and the bytes of it that are there.
unfoldable pub open_chunk : FileState → FrameHeader → Stream → Result CoreError (Current × Bytes)
open_chunk st h s = elim s.current [
  | some current ↦ ok (current, s.buf)
  | none ↦ do
    chunk_index ← map_err wire (index_of st.layout h.offset)
    (start, expected_len) ← map_err wire (range st.layout chunk_index)
    refuse_if (not (h.offset == start)) (protocol (not_at_own_offset h.offset start))
    ok (
      record {
        file_id = h.file_id;
        chunk_index = chunk_index;
        start = start;
        expected_len = expected_len;
      },
      [],
    )
]

unfoldable pub check_frame : Current → Bytes → FrameHeader → Result CoreError (Unit {0})
check_frame current buf h = do
  refuse_if (not (h.file_id == current.file_id)) (protocol interleaved_files)
  refuse_if (not (h.offset == current.start + length buf))
      (protocol (out_of_order h.offset (current.start + length buf)))
  refuse_if (ltb current.expected_len (length buf + h.length)) (protocol overruns_chunk)

abbrev pub read_payload : FrameHeader → Bytes → Result CoreError Bytes
read_payload h input = if ltb (length input) h.length then err io else ok (take h.length input)

-- The parameters of a session: BLAKE3, whether the lock of a checkpoint is free, the bytes of the
-- whole transfer and those between two checkpoints.
pub record Session : Type 0 where
  pub blake3 : Bytes → Hash
  pub free : World → Bool
  pub total_bytes : ℕ
  pub checkpoint_bytes : ℕ

-- A whole chunk is there.
unfoldable pub finish_chunk :
    Session → World → FileState → Current → Bytes → Result CoreError (World × Stream)
finish_chunk session w st current payload = do
  expected ← or_panic (get_elem? st.chunk_hashes current.chunk_index)
  content ← verify_and_write session.blake3 st.content current.start payload expected
  bitmap ← map_err wire (Bitmap.set st.bitmap current.chunk_index)
  done ← add_u64 w.counter current.expected_len
  let progressed = w.events ++ on_progress done session.total_bytes ∷ []
  st' ←
      checkpoint_if_due (session.free w) (record st { content = content; bitmap = bitmap })
        current.expected_len session.checkpoint_bytes
  ok (
    record {
      files = put_state w.files current.file_id st';
      counter = done;
      events =
          if Bitmap.is_complete bitmap
          then progressed ++ on_file_completed current.file_id ∷ []
          else progressed;
    },
    record { buf = []; current = none },
  )

-- One data frame, with the bytes behind its header.
unfoldable pub on_data :
    Session → World → Stream → FrameHeader → Bytes → Result CoreError (World × Stream)
on_data session w s h input = do
  st ← ok_or (get_state w.files h.file_id) (protocol (unknown_file_id h.file_id))
  (current, buf) ← open_chunk st h s
  check_frame current buf h
  payload ← read_payload h input
  let whole = finish_chunk session w st current (buf ++ payload)
  if length (buf ++ payload) == current.expected_len
      then whole
      else ok (w, record { buf = buf ++ payload; current = some current })

unfoldable pub on_frame :
    Session → World → Stream → FrameHeader → Bytes → Result CoreError (World × Stream)
on_frame session w s h input = elim h.msg_type [
  | file_data ↦ on_data session w s h input
  | keepalive ↦ ok (w, s)
  | control ↦ err (protocol unexpected_message)
  | file_end ↦ err (protocol unexpected_message)
]

-- After the loop.
unfoldable pub close : Stream → Result CoreError (Unit {0})
close s = elim s.current [ some current ↦ err incomplete | none ↦ ok tt ]

-- One round of the loop: a header and its frame, and the input that is left.
unfoldable pub take_frame :
    Session → World → Stream → Bytes → Result CoreError (World × Stream × Bytes)
take_frame session w s input = do
  h ← map_err wire (decode (take header_len input))
  let rest = drop header_len input
  (w', s') ← on_frame session w s h rest
  ok (w', s', drop h.length rest)

-- The world after all frames of a stream, and the result. A stream that ends inside a header ends
-- the loop, as `UnexpectedEof` does. Each round takes a header, so the length of the input is fuel
-- enough; without fuel the model panics.
unfoldable pub drain : ℕ → Session → World → Stream → Bytes → World × Result CoreError (Unit {0})
drain zero session w s input = (w, panic)
drain (suc n) session w s input =
    let next : World × Result CoreError (Unit {0}) = elim (take_frame session w s input) [
      | ok (w', s', rest) ↦ drain n session w' s' rest
      | err e ↦ (w, err e)
      | panic ↦ (w, panic)
    ] in
    if ltb (length input) header_len then (w, close s) else next

pub drain_stream : Session → World → Bytes → World × Result CoreError (Unit {0})
unfolding drain
drain_stream session w input =
    drain (suc (length input)) session w (record { buf = []; current = none }) input

-- `chunks_exact(32)`
abbrev pub chunks_of_32 : ℕ → Bytes → List Hash
chunks_of_32 zero bytes = []
chunks_of_32 (suc n) bytes = take 32 bytes ∷ chunks_of_32 n (drop 32 bytes)

unfoldable pub split_hashes : Bytes → ℕ → Result CoreError (List Hash)
split_hashes concatenated count = do
  refuse_if (not (length concatenated == count * 32))
      (protocol (wrong_hash_bytes (length concatenated) (count * 32)))
  ok (chunks_of_32 count concatenated)
