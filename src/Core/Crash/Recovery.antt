-- ===== src/Core/Crash/Recovery.antt =====
-- Whenever the power fails, what a later session takes from the record is on the device.
use speeed.Base.{some_inj, ◌≡◌, ◌⊎◌, sym, ap, ◌∙◌, inl, inr, some, [], length}
use speeed.Base.Bytes.{Bytes}
use speeed.Proto.Hashes.Root.{IsHash}
use speeed.Proto.Bitmap.{ChunkBitmap}
use speeed.Core.Resume.{persist}
use speeed.Core.Offer.{Setup, recorded}
use speeed.Core.Offer.Valid.{new-Honest}
use speeed.Core.Delivery.Chunks.{Collision}
use speeed.Core.Crash.{
  idle, snapshotted, synced, created, filled, durable, Machine, Target, Step, Reach, fresh,
  place_of, rebooted, write, mark, write_back, snapshot, sync_data, create, write_all,
  write_tmp_back, sync_all, rename, write_name_back, discard, fail, kill, lose_power, here, next,
}
use speeed.Core.Crash.WriteBack.{length-Torn}
use speeed.Core.Crash.Settled.{Settled-sync, Settled-write_back, verify_and_write-Written}
use speeed.Core.Crash.Steps.{
  IsValid, Safe, IsHonest, AtPhase, AtPhase-subst, mark-IsHonest, recorded-IsHonest,
  rebooted-IsRecord, begun-IsHonest,
}
use speeed.Core.Crash.Keeps.{at_phase, write-Safe, move_disk, move_phase, renamed, removed}

module _ (setup : Setup) (t : Target) (hash : (bytes : Bytes) → IsHash (setup.blake3 bytes))
    (v : IsValid t) where
  Step-Safe :
      {m m' : Machine}
      → Step setup t m m'
      → Safe setup t m
      → Safe setup t m' ⊎ Collision setup.blake3
  Step-Safe (write m i start len payload expected content r long offered e) s =
      elim (verify_and_write-Written setup.blake3 t.chunk_hashes m.content m.disk payload i start
        len expected content v.geometry s.sized r long offered e) [
          | inl w ↦ inl (write-Safe setup t m content i s w)
          | inr found ↦ inr found
        ]
  Step-Safe (mark m i bitmap among e) s = inl (record {
    sized = s.sized;
    disk_sized = s.disk_sized;
    bitmap = mark-IsHonest setup t m.content m.bitmap bitmap i s.bitmap (s.writing i among) e;
    writing = s.writing;
    phase = s.phase;
    name = s.name;
    name_disk = s.name_disk;
  })
  Step-Safe (write_back m disk torn) s = inl (
      move_disk setup t m disk (length-Torn torn ∙ s.disk_sized) (λ b h. Settled-write_back torn h)
        s)
  Step-Safe (snapshot m e some_set) s =
      inl (move_phase setup t m m.tmp (snapshotted m.bitmap) s.bitmap s)
  Step-Safe (sync_data m b e) s =
      let moved = move_disk setup t m m.content s.sized (λ c h. Settled-sync h.honest) s in
      inl (
        move_phase setup t (record m { disk = m.content }) m.tmp (synced b)
          (Settled-sync (at_phase setup t m s e)) moved)
  Step-Safe (create m b e) s = inl (
      move_phase setup t m (some (record { bytes = []; flushed = [] })) (created b)
        (at_phase setup t m s e) s)
  Step-Safe (write_all m b e) s = inl (
      move_phase setup t m (some (record { bytes = persist setup.blake3 t.key b; flushed = [] }))
        (filled b) (at_phase setup t m s e, λ inode is. ap (λ x. x.bytes) (sym (some_inj is))) s)
  Step-Safe (write_tmp_back m b inode some_of_it e is) s =
      let (settled, whole) = at_phase setup t m s e in
      let a : AtPhase setup t m.content m.disk (some (record inode { flushed = some_of_it }))
          m.phase =
        AtPhase-subst setup t m.content m.disk (some (record inode { flushed = some_of_it }))
          (sym e)
          (settled, λ other same. ap (λ x. x.bytes) (sym (some_inj same)) ∙ whole inode is) in
      inl (move_phase setup t m (some (record inode { flushed = some_of_it })) m.phase a s)
  Step-Safe (sync_all m b inode e is) s =
      let (settled, whole) = at_phase setup t m s e in
      inl (
        move_phase setup t m (some (record inode { flushed = inode.bytes })) (durable b)
          (
            settled,
            λ other same. (
              ap (λ x. x.bytes) (sym (some_inj same)) ∙ whole inode is,
              ap (λ x. x.flushed) (sym (some_inj same)) ∙ whole inode is,
            ),
          )
          s)
  Step-Safe (rename m b e) s = inl (record {
    sized = s.sized;
    disk_sized = s.disk_sized;
    bitmap = s.bitmap;
    writing = s.writing;
    phase = tt;
    name = renamed setup t m b m.tmp (at_phase setup t m s e);
    name_disk = s.name_disk;
  })
  Step-Safe (write_name_back m) s = inl (record {
    sized = s.sized;
    disk_sized = s.disk_sized;
    bitmap = s.bitmap;
    writing = s.writing;
    phase = s.phase;
    name = s.name;
    name_disk = s.name;
  })
  Step-Safe (discard m) s = inl (record {
    sized = s.sized;
    disk_sized = s.disk_sized;
    bitmap = s.bitmap;
    writing = s.writing;
    phase = removed setup t m.content m.disk m.tmp m.phase s.phase;
    name = tt;
    name_disk = s.name_disk;
  })
  Step-Safe (fail m) s = inl (move_phase setup t m m.tmp idle tt s)
  Step-Safe (kill m bitmap e) s = inl (record {
    sized = s.sized;
    disk_sized = s.disk_sized;
    bitmap = begun-IsHonest setup t hash v m.content m.disk m.name bitmap s.sized s.name e;
    writing = λ i among. absurd among;
    phase = tt;
    name = s.name;
    name_disk = s.name_disk;
  })
  Step-Safe (lose_power m tmp bitmap e) s =
      let name = rebooted-IsRecord setup t hash v m.content m.disk m.name_disk s.name_disk in
      inl (record {
        sized = s.disk_sized;
        disk_sized = s.disk_sized;
        bitmap =
            begun-IsHonest setup t hash v m.disk m.disk (rebooted m.name_disk) bitmap s.disk_sized
              name e;
        writing = λ i among. absurd among;
        phase = tt;
        name = name;
        name_disk = name;
      })

  Reach-Safe :
      {m m' : Machine}
      → Safe setup t m
      → Reach setup t m m'
      → Safe setup t m' ⊎ Collision setup.blake3
  Reach-Safe s here = inl s
  Reach-Safe s (next r step) = elim (Reach-Safe s r) [
    | inl before ↦ Step-Safe step before
    | inr found ↦ inr found
  ]

  fresh-Safe :
      (content : Bytes) → length content ≡ t.layout.file_size → Safe setup t (fresh t content)
  fresh-Safe content sized = record {
    sized = sized;
    disk_sized = sized;
    bitmap = new-Honest setup t.layout t.chunk_hashes content v.geometry sized v.hashed;
    writing = λ i among. absurd among;
    phase = tt;
    name = tt;
    name_disk = tt;
  }

-- Resuming is safe. A file of its full length begins with no chunk marked; then workers write and mark
-- chunks, checkpoints run, fail or are cut short, the record is discarded, the device keeps any of the
-- written bytes, and the process is killed or the power lost, in any order and number. Whatever state
-- is reached: every chunk that is marked has the hash that was offered, in the file as the process
-- reads it; and so has, on the device, every chunk of a record that a session would accept if the
-- power failed now. Or else two different byte strings with one BLAKE3 hash were met. (BLAKE3 gives 32
-- bytes.)
pub Reach-recovers :
    (setup : Setup) (t : Target) (content : Bytes) (m : Machine)
    → ((bytes : Bytes) → IsHash (setup.blake3 bytes))
    → IsValid t
    → length content ≡ t.layout.file_size
    → Reach setup t (fresh t content) m
    → (IsHonest setup t m.content m.bitmap
        × ((b : ChunkBitmap)
            → recorded setup (place_of m.disk (rebooted m.name_disk)) m.disk t.key ≡ some b
            → IsHonest setup t m.disk b))
      ⊎ Collision setup.blake3
Reach-recovers setup t content m hash v sized r =
    elim (Reach-Safe setup t hash v (fresh-Safe setup t hash v content sized) r) [
      | inl s ↦ inl (
        s.bitmap,
        λ b e.
            recorded-IsHonest setup t hash v m.disk m.disk (rebooted m.name_disk) b
              (rebooted-IsRecord setup t hash v m.content m.disk m.name_disk s.name_disk) e,
      )
      | inr found ↦ inr found
    ]
