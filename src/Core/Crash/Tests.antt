-- ===== src/Core/Crash/Tests.antt =====
-- core/crates/aetherlink-core/src/resume.rs and recv.rs: the theorem at a concrete run.
use speeed.Base.{◌<◌, ◌≡◌, ◌⊎◌, ◌∙◌, refl, sym, ok_inj, inl, none, some, [], ◌∷◌, arith, ok}
use speeed.Proto.Chunk.{range}
use speeed.Proto.Bitmap
use speeed.Proto.Bitmap.{ChunkBitmap}
use speeed.Proto.Bitmap.Invariant
use speeed.Proto.Bitmap.Invariant.{set-IsValid}
use speeed.Proto.Bitmap.Parse
use speeed.Core.Sink.{verify_and_write}
use speeed.Core.Resume.{persist, load}
use speeed.Core.Resume.Sidecar.{load-persist}
use speeed.Core.Offer.{recorded, choose_bitmap}
use speeed.Core.Offer.Sample.{prefix, prefix-IsHash, content, setup, layout}
use speeed.Core.Delivery.Chunks.{Collision}
use speeed.Core.Crash.{
  Machine, Target, Reach, Inode, fresh, place_of, rebooted, idle, snapshotted, synced, created,
  filled, durable, write, mark, snapshot, sync_data, create, write_all, sync_all, rename,
  write_name_back, lose_power, here, next,
}
use speeed.Core.Crash.Steps.{IsValid, IsHonest}
use speeed.Core.Crash.Recovery.{Reach-recovers}

abbrev target : Target
target = record {
  key = record { root_hash = prefix content; file_size = 3; chunk_size = 65536 };
  layout = layout;
  chunk_hashes = prefix content ∷ [];
}

target-IsValid : IsValid target
target-IsValid = record {
  geometry = record {
    sized = omega arith;
    at_least = omega arith;
    at_most = omega arith;
    counted = refl;
  };
  root_hash = refl;
  file_size = refl;
  chunk_size = refl;
  hashed = refl;
}

abbrev marked : ChunkBitmap
marked = record { bits = 1 ∷ []; count = 1; set_count = 1 }

abbrev inode : Inode
inode = record {
  bytes = persist prefix target.key marked;
  flushed = persist prefix target.key marked;
}

-- The state after the rename has reached the device, and the power was lost.
abbrev resumed : Machine
resumed = record {
  content = content;
  disk = content;
  bitmap = marked;
  writing = [];
  phase = idle;
  tmp = none;
  name = some inode;
  name_disk = some inode;
}

new_one : 0 < (Bitmap.new 1).count
unfolding Bitmap.new
new_one = omega arith

first_marked : Bitmap.set (Bitmap.new 1) 0 ≡ ok marked
unfolding Bitmap.set Bitmap.new
first_marked = refl

marked-IsValid : Invariant.IsValid marked
marked-IsValid =
    let (b, e, v, _) = set-IsValid {b = Bitmap.new 1} (Parse.new-IsValid 1) 0 new_one in
    let same : b ≡ marked = ok_inj (sym e ∙ first_marked) in rw (← same) v

loaded : load prefix (some (persist prefix target.key marked)) (some 3) target.key ≡ some marked
loaded =
    load-persist prefix (some 3) target.key target.key marked prefix-IsHash marked-IsValid (record {
      root_hash = refl;
      file_size = omega arith;
      chunk_size = omega arith;
      count = omega arith;
    })

found :
    choose_bitmap setup
      (place_of content (some inode))
      content
      target.key
      target.layout
      target.chunk_hashes
    ≡ ok marked
unfolding choose_bitmap
found = rw loaded refl

one_checkpoint : Reach setup target (fresh target (0 ∷ 0 ∷ 0 ∷ [])) resumed
unfolding Bitmap.new Bitmap.set range verify_and_write
one_checkpoint =
    let m0 : Machine = fresh target (0 ∷ 0 ∷ 0 ∷ []) in
    let m1 : Machine = record m0 { content = content; writing = 0 ∷ [] } in
    let m2 : Machine = record m1 { bitmap = marked } in
    let m3 : Machine = record m2 { phase = snapshotted marked } in
    let m4 : Machine = record m3 { disk = content; phase = synced marked } in
    let m5 : Machine = record m4 {
      tmp = some (record { bytes = []; flushed = [] });
      phase = created marked;
    } in
    let m6 : Machine = record m5 {
      tmp = some (record inode { flushed = [] });
      phase = filled marked;
    } in
    let m7 : Machine = record m6 { tmp = some inode; phase = durable marked } in
    let m8 : Machine = record m7 { name = some inode; tmp = none; phase = idle } in
    let m9 : Machine = record m8 { name_disk = some inode } in
    next
      (next
        (next
          (next
            (next
              (next
                (next
                  (next
                    (next
                      (next here
                        (write m0 0 0 3 content (prefix content) content refl refl refl refl))
                      (mark m1 0 marked (inl refl) refl))
                    (snapshot m2 refl (omega arith)))
                  (sync_data m3 marked refl))
                (create m4 marked refl))
              (write_all m5 marked refl))
            (sync_all m6 marked (record inode { flushed = [] }) refl refl))
          (rename m7 marked refl))
        (write_name_back m8))
      (lose_power m9 none marked found)

Reach-recovers_example :
    (IsHonest setup target content marked
      × ((b : ChunkBitmap)
          → recorded setup (place_of content (rebooted (some inode))) content target.key ≡ some b
          → IsHonest setup target content b))
    ⊎ Collision prefix
Reach-recovers_example =
    Reach-recovers setup target (0 ∷ 0 ∷ 0 ∷ []) resumed prefix-IsHash target-IsValid refl
      one_checkpoint
