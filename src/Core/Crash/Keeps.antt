-- ===== src/Core/Crash/Keeps.antt =====
-- What the parts of a step keep.
use speeed.Base.{ℕ, ◌≡◌, refl, ◌∙◌, inl, inr, Option, none, some, ◌∷◌, length}
use speeed.Base.Bytes.{Bytes}
use speeed.Proto.Bitmap.{ChunkBitmap}
use speeed.Core.Offer.{Setup}
use speeed.Core.Crash.{
  Inode, Phase, idle, snapshotted, synced, created, filled, durable, Machine, Target,
}
use speeed.Core.Crash.Settled.{Written}
use speeed.Core.Crash.Steps.{
  Safe, IsSettled, IsRecord, AtPhase, IsRecord-map, AtPhase-map, AtPhase-subst,
}

module _ (setup : Setup) (t : Target) where
  -- The steps that leave the file and the device alone.
  pub at_phase :
      (m : Machine) {phase : Phase}
      → Safe setup t m
      → m.phase ≡ phase
      → AtPhase setup t m.content m.disk m.tmp phase
  at_phase m s e = AtPhase-subst setup t m.content m.disk m.tmp e s.phase

  pub write-Safe :
      (m : Machine) (content : Bytes) (i : ℕ)
      → Safe setup t m
      → Written setup.blake3 t.layout t.chunk_hashes m.content content m.disk i
      → Safe setup t (record m { content = content; writing = i ∷ m.writing })
  write-Safe m content i s w = record {
    sized = w.sized ∙ s.sized;
    disk_sized = s.disk_sized;
    bitmap = w.honest m.bitmap s.bitmap;
    writing = λ j among. elim among [
      | inl same ↦ rw (← same) w.mine
      | inr before ↦ w.hashed j (s.writing j before)
    ];
    phase =
        AtPhase-map setup t m.content m.disk content m.disk m.tmp m.phase w.honest w.settled
          s.phase;
    name = IsRecord-map setup t m.content m.disk content m.disk m.name w.settled s.name;
    name_disk =
        IsRecord-map setup t m.content m.disk content m.disk m.name_disk w.settled s.name_disk;
  }

  pub move_disk :
      (m : Machine) (disk : Bytes)
      → length disk ≡ t.layout.file_size
      → ((b : ChunkBitmap)
          → IsSettled setup t m.content m.disk b
          → IsSettled setup t m.content disk b)
      → Safe setup t m
      → Safe setup t (record m { disk = disk })
  move_disk m disk sized f s = record {
    sized = s.sized;
    disk_sized = sized;
    bitmap = s.bitmap;
    writing = s.writing;
    phase = AtPhase-map setup t m.content m.disk m.content disk m.tmp m.phase (λ b h. h) f s.phase;
    name = IsRecord-map setup t m.content m.disk m.content disk m.name f s.name;
    name_disk = IsRecord-map setup t m.content m.disk m.content disk m.name_disk f s.name_disk;
  }

  -- A step of a checkpoint before the rename.
  pub move_phase :
      (m : Machine) (tmp : Option Inode) (phase : Phase)
      → AtPhase setup t m.content m.disk tmp phase
      → Safe setup t m
      → Safe setup t (record m { tmp = tmp; phase = phase })
  move_phase m tmp phase a s = record {
    sized = s.sized;
    disk_sized = s.disk_sized;
    bitmap = s.bitmap;
    writing = s.writing;
    phase = a;
    name = s.name;
    name_disk = s.name_disk;
  }

  pub renamed :
      (m : Machine) (b : ChunkBitmap) (tmp : Option Inode)
      → AtPhase setup t m.content m.disk tmp (durable b)
      → IsRecord setup t m.content m.disk tmp
  renamed m b none a = tt
  renamed m b (some inode) (a, r) = (b, a, (r inode refl).0, (r inode refl).1)

  pub removed :
      (content disk : Bytes) (tmp : Option Inode) (phase : Phase)
      → AtPhase setup t content disk tmp phase
      → AtPhase setup t content disk none phase
  removed content disk tmp idle a = tt
  removed content disk tmp (snapshotted b) a = a
  removed content disk tmp (synced b) a = a
  removed content disk tmp (created b) a = a
  removed content disk tmp (filled b) (a, r) = (a, λ inode is. cc)
  removed content disk tmp (durable b) (a, r) = (a, λ inode is. cc)
