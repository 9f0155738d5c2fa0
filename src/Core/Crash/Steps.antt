-- ===== src/Core/Crash/Steps.antt =====
-- Each step of a worker, of a checkpoint, of the device, and each restart keeps what is promised.
use speeed.Base.{
  ℕ, ◌+◌, ◌*◌, ◌≤◌, ◌<◌, ◌≡◌, sym, ap, ◌∙◌, inl, inr, Bool, true, false, ◌&&◌, if◌then◌else◌,
  Bool-cases, Option, none, some, length, arith, ok, ok_inj, ◌==◌, ==_iff,
}
use speeed.Base.Bytes.{Bytes}
use speeed.Proto.Chunk.Layout
use speeed.Proto.Chunk.Layout.{count-le}
use speeed.Proto.Hashes.Root.{IsHash}
use speeed.Proto.Bitmap
use speeed.Proto.Bitmap.{ChunkBitmap, get}
use speeed.Proto.Bitmap.Invariant.{set-IsValid, set-lt-count, get-set}
use speeed.Core.Resume.{persist, load}
use speeed.Core.Resume.Sidecar.{Fits, same_key, is_long, load-persist}
use speeed.Core.Offer.{Setup, choose_bitmap, recorded}
use speeed.Core.Offer.Valid.{Honest, choose_bitmap-Honest}
use speeed.Core.Crash.{
  Inode, Phase, idle, snapshotted, synced, created, filled, durable, Machine, Target, IsAmong,
  place_of, rebooted,
}
use speeed.Core.Crash.Settled.{IsHashed, Settled, Settled-lose_power}

-- The layout is one that `new` gives, the key is that of the file, and each chunk has a hash.
pub record IsValid (t : Target) : Type 0 where
  pub geometry : Layout.IsValid t.layout
  pub root_hash : IsHash t.key.root_hash
  pub file_size : t.key.file_size ≡ t.layout.file_size
  pub chunk_size : t.key.chunk_size ≡ t.layout.chunk_size
  pub hashed : length t.chunk_hashes ≡ t.layout.count

key-Fits : {t : Target} (b : ChunkBitmap) → IsValid t → b.count ≡ t.layout.count → Fits t.key b
key-Fits {t} b v counted =
    let wide : t.layout.count * 65536 ≤ t.layout.count * t.layout.chunk_size =
      grind (arith, v.geometry.at_least) in
    let bound : t.layout.count * t.layout.chunk_size < t.layout.file_size + t.layout.chunk_size =
      rw v.geometry.counted (
        (Layout.div_ceil_bounds t.layout.file_size t.layout.chunk_size
          (omega (arith, v.geometry.at_least))).1) in
    record {
      root_hash = v.root_hash;
      file_size = omega (arith, v.file_size, v.geometry.sized);
      chunk_size = omega (arith, v.chunk_size, v.geometry.at_most);
      count = omega (arith, counted, wide, bound, v.geometry.sized, v.geometry.at_most);
    }

module _ (setup : Setup) (t : Target) where
  abbrev pub IsHonest : Bytes → ChunkBitmap → Type 0
  IsHonest = Honest setup.blake3 t.layout t.chunk_hashes

  abbrev pub IsSettled : Bytes → Bytes → ChunkBitmap → Type 0
  IsSettled = Settled setup.blake3 t.layout t.chunk_hashes

  -- A file that is whole, also on the device, and holds the record of a bitmap that is settled.
  abbrev pub IsRecord : Bytes → Bytes → Option Inode → Type 0
  IsRecord content disk none = Unit {0}
  IsRecord content disk (some inode) =
      (b : ChunkBitmap) × IsSettled content disk b
      × (inode.bytes ≡ persist setup.blake3 t.key b)
      × (inode.flushed ≡ persist setup.blake3 t.key b)

  abbrev pub AtPhase : Bytes → Bytes → Option Inode → Phase → Type 0
  AtPhase content disk tmp idle = Unit {0}
  AtPhase content disk tmp (snapshotted b) = IsHonest content b
  AtPhase content disk tmp (synced b) = IsSettled content disk b
  AtPhase content disk tmp (created b) = IsSettled content disk b
  AtPhase content disk tmp (filled b) =
      IsSettled content disk b
      × ((inode : Inode) → tmp ≡ some inode → inode.bytes ≡ persist setup.blake3 t.key b)
  AtPhase content disk tmp (durable b) =
      IsSettled content disk b
      × ((inode : Inode)
          → tmp ≡ some inode
          → (inode.bytes ≡ persist setup.blake3 t.key b)
            × (inode.flushed ≡ persist setup.blake3 t.key b))

  pub record Safe (m : Machine) : Type 0 where
    pub sized : length m.content ≡ t.layout.file_size
    pub disk_sized : length m.disk ≡ t.layout.file_size
    pub bitmap : IsHonest m.content m.bitmap
    pub writing :
        (i : ℕ) → IsAmong i m.writing → IsHashed setup.blake3 t.layout t.chunk_hashes m.content i
    pub phase : AtPhase m.content m.disk m.tmp m.phase
    pub name : IsRecord m.content m.disk m.name
    pub name_disk : IsRecord m.content m.disk m.name_disk

  pub IsRecord-map :
      (content disk content' disk' : Bytes) (name : Option Inode)
      → ((b : ChunkBitmap) → IsSettled content disk b → IsSettled content' disk' b)
      → IsRecord content disk name
      → IsRecord content' disk' name
  IsRecord-map content disk content' disk' none f r = tt
  IsRecord-map content disk content' disk' (some inode) f (b, s, bytes, flushed) =
      (b, f b s, bytes, flushed)

  pub AtPhase-map :
      (content disk content' disk' : Bytes) (tmp : Option Inode) (phase : Phase)
      → ((b : ChunkBitmap) → IsHonest content b → IsHonest content' b)
      → ((b : ChunkBitmap) → IsSettled content disk b → IsSettled content' disk' b)
      → AtPhase content disk tmp phase
      → AtPhase content' disk' tmp phase
  AtPhase-map content disk content' disk' tmp idle f g a = tt
  AtPhase-map content disk content' disk' tmp (snapshotted b) f g a = f b a
  AtPhase-map content disk content' disk' tmp (synced b) f g a = g b a
  AtPhase-map content disk content' disk' tmp (created b) f g a = g b a
  AtPhase-map content disk content' disk' tmp (filled b) f g (a, r) = (g b a, r)
  AtPhase-map content disk content' disk' tmp (durable b) f g (a, r) = (g b a, r)

  pub AtPhase-subst :
      (content disk : Bytes) (tmp : Option Inode) {phase phase' : Phase}
      → phase ≡ phase'
      → AtPhase content disk tmp phase
      → AtPhase content disk tmp phase'
  AtPhase-subst content disk tmp e a = rw (← e) a

  pub mark-IsHonest :
      (content : Bytes) (b b' : ChunkBitmap) (i : ℕ)
      → IsHonest content b
      → IsHashed setup.blake3 t.layout t.chunk_hashes content i
      → Bitmap.set b i ≡ ok b'
      → IsHonest content b'
  mark-IsHonest content b b' i h (lt, hashed) e =
      let (b1, e1, v1, c1) = set-IsValid h.valid i (set-lt-count b i e) in
      let same : b1 ≡ b' = ok_inj (sym e1 ∙ e) in
      record {
        valid = rw (← same) v1;
        counted = ap (λ x. x.count) (sym same) ∙ c1 ∙ h.counted;
        verified = λ j lj is_set.
            let after = get-set h.valid i j (omega (arith, lj, h.counted)) e in
            elim (Bool-cases (j == i)) [
              | inl here ↦ rw ((==_iff j i).0 here) hashed
              | inr there ↦ h.verified j lj (sym (rw there at after) ∙ is_set)
            ];
      }

  if_some :
      (c : Bool) (b r : ChunkBitmap)
      → ◌≡◌ {A = Option ChunkBitmap} (if c then some b else none) (some r)
      → b ≡ r
  if_some true b r e = cc
  if_some false b r e = cc

  module _ (hash : (bytes : Bytes) → IsHash (setup.blake3 bytes)) (v : IsValid t) where
    -- What a session that begins now would take from the record is true of the file.
    pub recorded-IsHonest :
        (content disk : Bytes) (name : Option Inode) (r : ChunkBitmap)
        → IsRecord content disk name
        → recorded setup (place_of content name) content t.key ≡ some r
        → IsHonest content r
    unfolding load
    recorded-IsHonest content disk none r n e = cc
    recorded-IsHonest content disk (some inode) r (b, s, bytes, flushed) e =
        let loaded =
          load-persist setup.blake3 (some (length content)) t.key t.key b hash s.honest.valid
            (key-Fits b v s.honest.counted) in
        let same : b ≡ r =
          if_some (same_key t.key t.key && is_long (some (length content)) t.key.file_size) b r (
            sym loaded
            ∙ ap (λ x. load setup.blake3 (some x) (some (length content)) t.key) (sym bytes)
            ∙ e) in
        rw (← same) s.honest

    pub rebooted-IsRecord :
        (content disk : Bytes) (name : Option Inode)
        → IsRecord content disk name
        → IsRecord disk disk (rebooted name)
    rebooted-IsRecord content disk none n = tt
    rebooted-IsRecord content disk (some inode) (b, s, bytes, flushed) =
        (b, Settled-lose_power s, flushed, flushed)

    -- The bitmap of a session that begins with these two files.
    pub begun-IsHonest :
        (content disk : Bytes) (name : Option Inode) (b : ChunkBitmap)
        → length content ≡ t.layout.file_size
        → IsRecord content disk name
        → choose_bitmap setup (place_of content name) content t.key t.layout t.chunk_hashes ≡ ok b
        → IsHonest content b
    begun-IsHonest content disk name b sized n e =
        choose_bitmap-Honest setup t.layout t.chunk_hashes content v.geometry sized v.hashed
          (place_of content name) t.key b (λ r found. recorded-IsHonest content disk name r n found)
          e
