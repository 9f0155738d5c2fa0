-- ===== src/Core/Send/Queue.antt =====
-- core/crates/aetherlink-core/src/send.rs: the work queue, built from what the receiver has, and the
-- frames of one chunk.
use speeed.Base.{
  ℕ, zero, suc, ◌+◌, ◌-◌, ◌*◌, Bool, false, not, ◌||◌, ◌==◌, if◌then◌else◌, Option, none, some,
  List, [], ◌∷◌, ◌++◌, length, take, drop, Result, ok, panic, ◌>>=◌, map_err,
}
use speeed.Base.Bytes.{Bytes}
use speeed.Proto.Errors.{add_u64}
use speeed.Proto.Chunk.{ChunkLayout, range}
use speeed.Proto.Bitmap
use speeed.Proto.Bitmap.{ChunkBitmap, from_bytes, missing_ranges}
use speeed.Proto.Frame
use speeed.Proto.Frame.{FrameHeader, file_data, to_bytes}
use speeed.Core.Errors.{CoreError, wire}

-- A source and the id of its entry.
pub record Entry : Type 0 where
  pub file_id : ℕ
  pub layout : ChunkLayout

pub record FileProgress : Type 0 where
  pub file_id : ℕ
  pub have_bitmap : Bytes

pub record WorkItem : Type 0 where
  pub file_index : ℕ
  pub chunk_index : ℕ

pub record Work : Type 0 where
  pub queue : List WorkItem
  pub bytes_to_send : ℕ

-- `accepted_file_ids.contains`
abbrev pub contains : List ℕ → ℕ → Bool
contains [] file_id = false
contains (i ∷ is) file_id = i == file_id || contains is file_id

abbrev find_progress : List FileProgress → ℕ → Option FileProgress
find_progress [] file_id = none
find_progress (p ∷ ps) file_id =
    let rest = find_progress ps file_id in if p.file_id == file_id then some p else rest

-- What the receiver has of the file; nothing, when it says nothing of it.
unfoldable pub have : List FileProgress → Entry → Result CoreError ChunkBitmap
have progress entry = elim (find_progress progress entry.file_id) [
  | some p ↦ map_err wire (from_bytes p.have_bitmap entry.layout.count)
  | none ↦ ok (Bitmap.new entry.layout.count)
]

-- `for chunk_index in start..end`
unfoldable pub push_chunks : ChunkLayout → ℕ → ℕ → ℕ → Work → Result CoreError Work
push_chunks layout file_index zero chunk_index work = ok work
push_chunks layout file_index (suc n) chunk_index work = do
  (_, len) ← map_err wire (range layout chunk_index)
  total ← add_u64 work.bytes_to_send len
  push_chunks layout file_index n (chunk_index + 1) (record {
    queue = work.queue ++ record { file_index = file_index; chunk_index = chunk_index } ∷ [];
    bytes_to_send = total;
  })

unfoldable pub push_ranges : ChunkLayout → ℕ → List (ℕ × ℕ) → Work → Result CoreError Work
push_ranges layout file_index [] work = ok work
push_ranges layout file_index ((start, end) ∷ ranges) work = do
  work' ← push_chunks layout file_index (end - start) start work
  push_ranges layout file_index ranges work'

-- The rounds for the entries from `file_index` on.
unfoldable pub build_from :
    List ℕ → List FileProgress → List Entry → ℕ → Work → Result CoreError Work
build_from accepted progress [] file_index work = ok work
build_from accepted progress (entry ∷ entries) file_index work =
    let whole = (do
      bitmap ← have progress entry
      ranges ← map_err wire (missing_ranges bitmap)
      work' ← push_ranges entry.layout file_index ranges work
      build_from accepted progress entries (file_index + 1) work') in
    let skipped = build_from accepted progress entries (file_index + 1) work in
    if not (contains accepted entry.file_id) then skipped else whole

unfoldable pub build_queue : List ℕ → List FileProgress → List Entry → Result CoreError Work
build_queue accepted progress entries =
    build_from accepted progress entries 0 (record { queue = []; bytes_to_send = 0 })

-- The frames of a chunk from its byte `n * frame_size` on, with the rounds that are left: `chunks`
-- cuts the payload, and each part follows its header.
unfoldable pub frames_from : ℕ → ℕ → ℕ → ℕ → ℕ → Bytes → Bytes
frames_from zero file_index chunk_offset frame_size n payload = []
frames_from (suc rounds) file_index chunk_offset frame_size n payload =
    let part = take frame_size payload in
    let header = Frame.new file_data file_index (chunk_offset + n * frame_size) (length part) in
    let rest =
      frames_from rounds file_index chunk_offset frame_size (n + 1) (drop frame_size payload) in
    if length payload == 0 then [] else to_bytes header ++ part ++ rest

-- What is written for one chunk. `chunks` panics when the size is zero; otherwise each round takes a
-- byte at least, so the length of the payload is rounds enough.
unfoldable pub chunk_frames : ℕ → ℕ → ℕ → Bytes → Result CoreError Bytes
chunk_frames file_index chunk_offset frame_size payload =
    if frame_size == 0
    then panic
    else ok (frames_from (length payload) file_index chunk_offset frame_size 0 payload)
