-- ===== src/Core/Crash.antt =====
-- core/crates/aetherlink-core/src/resume.rs and recv.rs, `persist` and `checkpoint`: one file that is
-- received, its record, and the device beneath them, step by step. The process sees `content` and
-- `name`; a loss of power leaves `disk` and `name_disk`. Between two syncs the device takes any of the
-- bytes that were written, and it takes a rename when it likes. `choose_bitmap` is what a new session
-- does with what it finds. That the length of the file survives is taken as given.
pub mod WriteBack
pub mod Settled
pub mod Steps
pub mod Keeps
pub mod Recovery
mod Tests
use speeed.Base.{ℕ, ◌≡◌, ◌≢◌, ◌⊎◌, Option, none, some, List, [], ◌∷◌, length, get_elem?, ok}
use speeed.Base.Bytes.{Bytes}
use speeed.Proto.Chunk.{ChunkLayout, range}
use speeed.Proto.Hashes.{Hash}
use speeed.Proto.Bitmap
use speeed.Proto.Bitmap.{ChunkBitmap}
use speeed.Core.Sink.{verify_and_write}
use speeed.Core.Resume.{StateKey, persist}
use speeed.Core.Offer.{Setup, Place, choose_bitmap}

-- A file of a few bytes: what was written to it, and what of that is on the device.
pub record Inode : Type 0 where
  pub bytes : Bytes
  pub flushed : Bytes

-- How far a checkpoint has come, with the bitmap that it took.
pub data Phase : Type 0 where
  idle : Phase
  snapshotted : ChunkBitmap → Phase
  synced : ChunkBitmap → Phase
  created : ChunkBitmap → Phase
  filled : ChunkBitmap → Phase
  durable : ChunkBitmap → Phase

-- `writing` are the chunks that workers have written; they mark them after that.
pub record Machine : Type 0 where
  pub content : Bytes
  pub disk : Bytes
  pub bitmap : ChunkBitmap
  pub writing : List ℕ
  pub phase : Phase
  pub tmp : Option Inode
  pub name : Option Inode
  pub name_disk : Option Inode

-- The file that is received.
pub record Target : Type 0 where
  pub key : StateKey
  pub layout : ChunkLayout
  pub chunk_hashes : List Hash

-- Each byte of the last string is the one of the first string or the one of the second.
pub data Torn : Bytes → Bytes → Bytes → Type 0 where
  nil : Torn [] [] []
  byte :
      {x y z : ℕ} {xs ys zs : Bytes}
      → (z ≡ x) ⊎ (z ≡ y)
      → Torn xs ys zs
      → Torn (x ∷ xs) (y ∷ ys) (z ∷ zs)

abbrev pub IsAmong : ℕ → List ℕ → Type 0
IsAmong i [] = ⊥
IsAmong i (j ∷ js) = (j ≡ i) ⊎ IsAmong i js

abbrev pub fresh : Target → Bytes → Machine
fresh t content = record {
  content = content;
  disk = content;
  bitmap = Bitmap.new t.layout.count;
  writing = [];
  phase = idle;
  tmp = none;
  name = none;
  name_disk = none;
}

abbrev pub seen_bytes : Option Inode → Option Bytes
seen_bytes none = none
seen_bytes (some inode) = some inode.bytes

-- After a loss of power a file is what was on the device.
abbrev pub rebooted : Option Inode → Option Inode
rebooted none = none
rebooted (some inode) = some (record { bytes = inode.flushed; flushed = inode.flushed })

-- What a session finds that begins with these two files.
abbrev pub place_of : Bytes → Option Inode → Place
place_of content name = record { existing = some content; sidecar = seen_bytes name }

-- A checkpoint that fails is given up in any phase.
pub data Step (setup : Setup) (t : Target) : Machine → Machine → Type 0 where
  write :
      (m : Machine) (i start len : ℕ) (payload : Bytes) (expected : Hash) (content : Bytes)
      → range t.layout i ≡ ok (start, len)
      → length payload ≡ len
      → get_elem? t.chunk_hashes i ≡ some expected
      → verify_and_write setup.blake3 m.content start payload expected ≡ ok content
      → Step setup t m (record m { content = content; writing = i ∷ m.writing })
  mark :
      (m : Machine) (i : ℕ) (bitmap : ChunkBitmap)
      → IsAmong i m.writing
      → Bitmap.set m.bitmap i ≡ ok bitmap
      → Step setup t m (record m { bitmap = bitmap })
  write_back :
      (m : Machine) (disk : Bytes)
      → Torn m.disk m.content disk
      → Step setup t m (record m { disk = disk })
  snapshot :
      (m : Machine)
      → m.phase ≡ idle
      → m.bitmap.set_count ≢ 0
      → Step setup t m (record m { phase = snapshotted m.bitmap })
  sync_data :
      (m : Machine) (b : ChunkBitmap)
      → m.phase ≡ snapshotted b
      → Step setup t m (record m { disk = m.content; phase = synced b })
  create :
      (m : Machine) (b : ChunkBitmap)
      → m.phase ≡ synced b
      → Step setup t m
          (record m { tmp = some (record { bytes = []; flushed = [] }); phase = created b })
  write_all :
      (m : Machine) (b : ChunkBitmap)
      → m.phase ≡ created b
      → Step setup t m (record m {
        tmp = some (record { bytes = persist setup.blake3 t.key b; flushed = [] });
        phase = filled b;
      })
  write_tmp_back :
      (m : Machine) (b : ChunkBitmap) (inode : Inode) (some_of_it : Bytes)
      → m.phase ≡ filled b
      → m.tmp ≡ some inode
      → Step setup t m (record m { tmp = some (record inode { flushed = some_of_it }) })
  sync_all :
      (m : Machine) (b : ChunkBitmap) (inode : Inode)
      → m.phase ≡ filled b
      → m.tmp ≡ some inode
      → Step setup t m
          (record m { tmp = some (record inode { flushed = inode.bytes }); phase = durable b })
  rename :
      (m : Machine) (b : ChunkBitmap)
      → m.phase ≡ durable b
      → Step setup t m (record m { name = m.tmp; tmp = none; phase = idle })
  write_name_back : (m : Machine) → Step setup t m (record m { name_disk = m.name })
  discard : (m : Machine) → Step setup t m (record m { name = none; tmp = none })
  fail : (m : Machine) → Step setup t m (record m { phase = idle })
  kill :
      (m : Machine) (bitmap : ChunkBitmap)
      → choose_bitmap setup (place_of m.content m.name) m.content t.key t.layout t.chunk_hashes
        ≡ ok bitmap
      → Step setup t m (record m { bitmap = bitmap; writing = []; phase = idle })
  lose_power :
      (m : Machine) (tmp : Option Inode) (bitmap : ChunkBitmap)
      → choose_bitmap setup
          (place_of m.disk (rebooted m.name_disk))
          m.disk
          t.key
          t.layout
          t.chunk_hashes
        ≡ ok bitmap
      → Step setup t m (record {
        content = m.disk;
        disk = m.disk;
        bitmap = bitmap;
        writing = [];
        phase = idle;
        tmp = tmp;
        name = rebooted m.name_disk;
        name_disk = rebooted m.name_disk;
      })

pub data Reach (setup : Setup) (t : Target) (m : Machine) : Machine → Type 0 where
  here : Reach setup t m m
  next : {n o : Machine} → Reach setup t m n → Step setup t n o → Reach setup t m o
