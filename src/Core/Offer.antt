-- ===== src/Core/Offer.antt =====
-- core/crates/aetherlink-core/src/recv.rs, `run`: the hello and the offer, up to the states of the
-- files that the data streams share. What is at a destination, the answers of the disk and BLAKE3
-- are the parameters of a `Setup`; the entries of an offer have different paths, so what one entry
-- creates is not the file of another (a file system that tells fewer names apart is not modelled).
pub mod Valid
pub mod Accepts
pub mod Promises
pub mod Sample
pub mod Counts
mod Tests
use speeed.Base.{
  ℕ, zero, suc, ◌+◌, ◌*◌, ◌^◌, min, Bool, true, false, not, ◌||◌, ltb, ◌==◌, if◌then◌else◌, Option,
  none, some, List, [], ◌∷◌, ◌++◌, length, Result, ok, err, panic, ◌>>=◌, ◌>>◌, map_err, refuse_if,
}
use speeed.Base.Bytes.{Bytes, bytes_eq}
use speeed.Proto.Errors.{add_u64, mul_u64}
use speeed.Proto.Chunk
use speeed.Proto.Chunk.{ChunkLayout}
use speeed.Proto.Hashes.{Hash, root_from_chunk_hashes}
use speeed.Proto.Bitmap
use speeed.Proto.Bitmap.{ChunkBitmap, as_bytes}
use speeed.Proto.Frame.{protocol_version}
use speeed.Proto.Manifest.{sanitize_relative_path}
use speeed.Core.Errors.{
  CoreError, wire, protocol, peer_speaks, stream_count_refused, expected_hello, expected_offer,
  same_path, above_maximum, root_does_not_match,
}
use speeed.Core.Config.{Config}
use speeed.Core.Control.{
  FileEntry, FileProgress, ManifestOffer, ManifestAccept, Body, hello, offer, accept, complete,
  abort,
}
use speeed.Core.Platform.{Disk, preallocate}
use speeed.Core.Resume.{StateKey, load, rebuild_by_verification}
use speeed.Core.Recv.{FileState, World, split_hashes}

-- What is at a destination: the file, if there is one, and the record beside it.
pub record Place : Type 0 where
  pub existing : Option Bytes
  pub sidecar : Option Bytes

pub record Setup : Type 0 where
  pub blake3 : Bytes → Hash
  pub config : Config
  pub disk : Disk
  pub place : Bytes → Place

-- An error of `run`: the peer is told its text by `abort`, or is not told.
pub data Refusal : Type 0 where
  told : CoreError → Refusal
  quiet : CoreError → Refusal

-- The number of streams of an acceptable hello.
unfoldable pub check_hello : Config → Body → Result Refusal ℕ
check_hello config (hello h) = do
  refuse_if (not (h.protocol_version == protocol_version))
      (told (protocol (peer_speaks h.protocol_version)))
  refuse_if (h.stream_count == 0 || ltb config.max_streams h.stream_count)
      (told (protocol (stream_count_refused h.stream_count config.max_streams)))
  ok h.stream_count
check_hello config (offer _) = err (quiet (protocol expected_hello))
check_hello config (accept _) = err (quiet (protocol expected_hello))
check_hello config (complete _) = err (quiet (protocol expected_hello))
check_hello config (abort _) = err (quiet (protocol expected_hello))

abbrev pub expect_offer : Body → Result Refusal ManifestOffer
expect_offer (offer o) = ok o
expect_offer (hello _) = err (quiet (protocol expected_offer))
expect_offer (accept _) = err (quiet (protocol expected_offer))
expect_offer (complete _) = err (quiet (protocol expected_offer))
expect_offer (abort _) = err (quiet (protocol expected_offer))

-- `seen_paths.contains`
abbrev pub seen : List Bytes → Bytes → Bool
seen [] path = false
seen (p ∷ ps) path = bytes_eq p path || seen ps path

-- `HashMap::insert`
abbrev pub insert : List (ℕ × FileState) → ℕ → FileState → List (ℕ × FileState)
insert [] file_id st = (file_id, st) ∷ []
insert ((k, old) ∷ files) file_id st =
    let rest = insert files file_id st in if k == file_id then (k, st) ∷ files else (k, old) ∷ rest

-- What the loop over the entries has collected.
pub record Accepting : Type 0 where
  pub files : List (ℕ × FileState)
  pub accepted : List ℕ
  pub progress : List FileProgress
  pub seen_paths : List Bytes
  pub total_bytes : ℕ
  pub resumed_bytes : ℕ

abbrev pub nothing_yet : Accepting
nothing_yet = record {
  files = [];
  accepted = [];
  progress = [];
  seen_paths = [];
  total_bytes = 0;
  resumed_bytes = 0;
}

-- The file that `SinkFile::create` opens: what is there is kept.
abbrev pub opened : Option Bytes → Bytes
opened none = []
opened (some content) = content

abbrev pub create : Disk → Option Bytes → ℕ → Result CoreError Bytes
create disk existing size = preallocate disk (opened existing) size

-- The record that `resume::load` accepts; the file has the length that `create` gave it.
abbrev pub recorded : Setup → Place → Bytes → StateKey → Option ChunkBitmap
recorded setup place content key = load setup.blake3 place.sidecar (some (length content)) key

abbrev rebuilt :
    Setup → Option Bytes → Bytes → ChunkLayout → List Hash → Result CoreError ChunkBitmap
rebuilt setup none content layout hashes = ok (Bitmap.new layout.count)
rebuilt setup (some _) content layout hashes =
    rebuild_by_verification setup.blake3 content layout hashes

abbrev chosen :
    Setup
    → Option ChunkBitmap
    → Option Bytes
    → Bytes
    → ChunkLayout
    → List Hash
    → Result CoreError ChunkBitmap
chosen setup (some record_of_it) existing content layout hashes = ok record_of_it
chosen setup none existing content layout hashes = rebuilt setup existing content layout hashes

-- What is taken to be there: nothing, the record, or what hashing the file finds.
unfoldable pub choose_bitmap :
    Setup → Place → Bytes → StateKey → ChunkLayout → List Hash → Result CoreError ChunkBitmap
choose_bitmap setup place content key layout hashes =
    let found =
      chosen setup (recorded setup place content key) place.existing content layout hashes in
    if not setup.config.resume then ok (Bitmap.new layout.count) else found

-- The key of an entry whose hashes have this root.
abbrev pub key_of : Hash → ManifestOffer → FileEntry → StateKey
key_of computed o entry = record {
  root_hash = computed;
  file_size = entry.size_bytes;
  chunk_size = o.chunk_size;
}

-- What the receiver keeps of an entry that passed the tests on it.
pub prepare :
    Setup → ManifestOffer → FileEntry → Bytes → ChunkLayout → List Hash → Result CoreError FileState
prepare setup o entry path layout hashes = do
  let place = setup.place path
  let key = key_of (root_from_chunk_hashes setup.blake3 hashes) o entry
  content ← create setup.disk place.existing entry.size_bytes
  bitmap ← choose_bitmap setup place content key layout hashes
  ok (record {
    content = content;
    layout = layout;
    chunk_hashes = hashes;
    bitmap = bitmap;
    since_checkpoint = 0;
    synced = content;
    recorded = recorded setup place content key;
  })

-- The tests on an entry, up to the root of its hashes.
pub check_entry :
    Setup
    → ManifestOffer
    → FileEntry
    → List Bytes
    → Result Refusal (Bytes × ChunkLayout × List Hash)
check_entry setup o entry seen_paths = do
  path ← map_err (λ e. told (wire e)) (sanitize_relative_path entry.relative_path)
  refuse_if (seen seen_paths path) (told (protocol (same_path path)))
  layout ← map_err (λ e. quiet (wire e)) (Chunk.new entry.size_bytes o.chunk_size)
  refuse_if (ltb setup.config.max_file_bytes entry.size_bytes)
      (told (protocol (above_maximum entry.size_bytes)))
  hashes ← map_err quiet (split_hashes entry.chunk_hashes layout.count)
  refuse_if (not (bytes_eq entry.root_hash (root_from_chunk_hashes setup.blake3 hashes)))
      (told (protocol (root_does_not_match path)))
  ok (path, layout, hashes)

-- One round of the loop.
unfoldable pub accept_entry :
    Setup → ManifestOffer → FileEntry → Accepting → Result Refusal Accepting
accept_entry setup o entry a = do
  (path, layout, hashes) ← check_entry setup o entry a.seen_paths
  st ← map_err quiet (prepare setup o entry path layout hashes)
  there ← mul_u64 st.bitmap.set_count o.chunk_size
  resumed ← add_u64 a.resumed_bytes there
  total ← add_u64 a.total_bytes entry.size_bytes
  ok (record {
    files = insert a.files entry.file_id st;
    accepted = a.accepted ++ entry.file_id ∷ [];
    progress =
        a.progress ++ record { file_id = entry.file_id; have_bitmap = as_bytes st.bitmap } ∷ [];
    seen_paths = path ∷ a.seen_paths;
    total_bytes = total;
    resumed_bytes = resumed;
  })

unfoldable pub accept_entries :
    Setup → ManifestOffer → List FileEntry → Accepting → Result Refusal Accepting
accept_entries setup o [] a = ok a
accept_entries setup o (entry ∷ entries) a = do
  a' ← accept_entry setup o entry a
  accept_entries setup o entries a'

-- The answer to the offer, and what the data streams then share.
abbrev pub answer : Accepting → Body
answer a = accept (record { accepted_file_ids = a.accepted; progress = a.progress })

abbrev pub start : Accepting → World
start a = record { files = a.files; counter = min a.resumed_bytes a.total_bytes; events = [] }

-- The first two messages of the control stream, to the number of streams and the collected states.
unfoldable pub handshake : Setup → Body → Body → Result Refusal (ℕ × Accepting)
handshake setup first second = do
  stream_count ← check_hello setup.config first
  o ← expect_offer second
  a ← accept_entries setup o o.files nothing_yet
  ok (stream_count, a)
