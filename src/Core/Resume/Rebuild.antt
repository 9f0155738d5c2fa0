-- ===== src/Core/Resume/Rebuild.antt =====
-- The bitmap that is rebuilt from the file marks the chunks that are there, and no others.
use speeed.Base.{
  ℕ, zero, suc, ◌+◌, ◌*◌, ◌<◌, ◌≡◌, refl, ap, ◌∙◌, Bool, true, false, ◌&&◌, ltb, ◌==◌, ==_iff,
  Option, none, some, inl, inr, Bool-cases, List, [], ◌∷◌, length, get_elem?, arith, ok,
  le→ltb_false,
}
use speeed.Base.Bytes.{Bytes, bytes_eq}
use speeed.Proto.Chunk.{ChunkLayout}
use speeed.Proto.Chunk.Layout
use speeed.Proto.Chunk.Layout.{len_at, range-len_at}
use speeed.Proto.Hashes.{Hash}
use speeed.Proto.Bitmap
use speeed.Proto.Bitmap.{ChunkBitmap, get, new}
use speeed.Proto.Bitmap.Invariant
use speeed.Proto.Bitmap.Invariant.{set-IsValid, get-set, get-bit_at}
use speeed.Proto.Bitmap.Parse.{new-IsValid, zero_byte}
use speeed.Core.Sink.{read_chunk}
use speeed.Core.Recv.Verified.{chunk_bytes, in_file}
use speeed.Core.Resume.{check_chunk, rebuild_from, rebuild_by_verification}

-- The bytes of chunk `i` in the file have the hash that was offered for it.
abbrev pub has_hash : Option Hash → Hash → Bool
has_hash none actual = false
has_hash (some expected) actual = bytes_eq actual expected

abbrev pub is_there : (Bytes → Hash) → Bytes → ChunkLayout → List Hash → ℕ → Bool
is_there blake3 content l hashes i =
    has_hash (get_elem? hashes i) (blake3 (chunk_bytes content l i))

pub get-new : (count i : ℕ) → i < count → get (new count) i ≡ ok false
unfolding new
get-new count i h = get-bit_at (new-IsValid count) i h ∙ ap (λ n. ok (n == 1)) (zero_byte _ i)

pub new-count : (count : ℕ) → (new count).count ≡ count
unfolding new
new-count count = refl

read_chunk-chunk_bytes :
    {l : ChunkLayout} (content : Bytes) (i : ℕ)
    → Layout.IsValid l
    → length content ≡ l.file_size
    → i < l.count
    → read_chunk content l i ≡ ok (chunk_bytes content l i)
unfolding read_chunk
read_chunk-chunk_bytes {l} content i v sized h =
    rw
      (
        range-len_at v i h,
        le→ltb_false (length content) (i * l.chunk_size + len_at l i)
            (omega (arith, sized, in_file v i h)),
      )
      refl

in_range : (hs : List Hash) (i : ℕ) → i < length hs → (h : Hash) × (get_elem? hs i ≡ some h)
in_range [] i lt = elim lt [ ]
in_range (h ∷ hs) zero lt = (h, refl)
in_range (h ∷ hs) (suc i) lt = in_range hs i (omega arith)

module _ (blake3 : Bytes → Hash) (content : Bytes) {l : ChunkLayout} (hashes : List Hash)
    (v : Layout.IsValid l) (sized : length content ≡ l.file_size)
    (hashed : length hashes ≡ l.count) where
  -- The marked chunks are those below `i` that are there.
  abbrev Marks : ℕ → ChunkBitmap → Type 0
  Marks i b = (j : ℕ) → j < l.count → get b j ≡ ok (ltb j i && is_there blake3 content l hashes j)

  Marks-skip :
      (i : ℕ) (b : ChunkBitmap)
      → is_there blake3 content l hashes i ≡ false
      → Marks i b
      → Marks (i + 1) b
  Marks-skip i b absent m j h =
      m j h
      ∙ ap ok (elim (Bool-cases (j == i)) [
        | inl same ↦ let eq : j ≡ i = (==_iff j i).0 same in rw (eq, absent) (ground arith)
        | inr other ↦
            ap (λ t. t && is_there blake3 content l hashes j)
              (let e : ltb j i ≡ ltb j (i + 1) = ground arith in e)
      ])

  Marks-set :
      (i : ℕ) {b b' : ChunkBitmap}
      → Invariant.IsValid b
      → b.count ≡ l.count
      → is_there blake3 content l hashes i ≡ true
      → Bitmap.set b i ≡ ok b'
      → Marks i b
      → Marks (i + 1) b'
  Marks-set i {b} {b'} w count there e m j h =
      get-set w i j (rw count h) e ∙ elim (Bool-cases (j == i)) [
        | inl same ↦
            let eq : j ≡ i = (==_iff j i).0 same in rw same (ap ok (rw (eq, there) (ground arith)))
        | inr other ↦ rw other (
            m j h
            ∙ ap (λ t. ok (t && is_there blake3 content l hashes j))
                (let e : ltb j i ≡ ltb j (i + 1) = ground arith in e))
      ]

  rebuild_step :
      (n i : ℕ) (b b1 b2 : ChunkBitmap) (bytes : Bytes)
      → read_chunk content l i ≡ ok bytes
      → check_chunk blake3 hashes i b bytes ≡ ok b1
      → rebuild_from blake3 content l hashes n (i + 1) b1 ≡ ok b2
      → rebuild_from blake3 content l hashes (suc n) i b ≡ ok b2
  unfolding rebuild_from
  rebuild_step n i b b1 b2 bytes read checked rest = rw (rebuild_from, read, checked) rest

  check_chunk-there :
      (i : ℕ) (b b1 : ChunkBitmap) (bytes : Bytes) (expected : Hash)
      → get_elem? hashes i ≡ some expected
      → bytes_eq (blake3 bytes) expected ≡ true
      → Bitmap.set b i ≡ ok b1
      → check_chunk blake3 hashes i b bytes ≡ ok b1
  unfolding check_chunk
  check_chunk-there i b b1 bytes expected at there e = rw (at, there, e) refl

  check_chunk-absent :
      (i : ℕ) (b : ChunkBitmap) (bytes : Bytes) (expected : Hash)
      → get_elem? hashes i ≡ some expected
      → bytes_eq (blake3 bytes) expected ≡ false
      → check_chunk blake3 hashes i b bytes ≡ ok b
  unfolding check_chunk
  check_chunk-absent i b bytes expected at absent = rw (at, absent) refl

  rebuild_from-Marks :
      (n i : ℕ) (b : ChunkBitmap)
      → n + i ≡ l.count
      → Invariant.IsValid b
      → b.count ≡ l.count
      → Marks i b
      → (b' : ChunkBitmap) × (rebuild_from blake3 content l hashes n i b ≡ ok b')
        × Invariant.IsValid b'
        × (b'.count ≡ l.count)
        × Marks l.count b'
  unfolding rebuild_from
  rebuild_from-Marks zero i b e w count m = (
    b,
    refl,
    w,
    count,
    λ j h. m j h ∙ ap (λ t. ok (ltb j t && is_there blake3 content l hashes j)) (omega arith),
  )
  rebuild_from-Marks (suc n) i b e w count m =
      let lt : i < l.count = omega arith in
      let read = read_chunk-chunk_bytes content i v sized lt in
      let (expected, at) = in_range hashes i (omega (arith, hashed)) in
      elim (Bool-cases (bytes_eq (blake3 (chunk_bytes content l i)) expected)) [
        | inl there ↦
            let (b1, e1, w1, c1) = set-IsValid w i (omega (arith, count)) in
            let m1 = Marks-set i w count (rw at there) e1 m in
            let (b2, e2, w2, c2, m2) =
              rebuild_from-Marks n (i + 1) b1 (omega arith) w1 (c1 ∙ count) m1 in
            (
              b2,
              rebuild_step n i b b1 b2 _ read (check_chunk-there i b b1 _ expected at there e1) e2,
              w2,
              c2,
              m2,
            )
        | inr absent ↦
            let (b2, e2, w2, c2, m2) =
              rebuild_from-Marks n (i + 1) b (omega arith) w count
                (Marks-skip i b (rw at absent) m) in
            (
              b2,
              rebuild_step n i b b b2 _ read (check_chunk-absent i b _ expected at absent) e2,
              w2,
              c2,
              m2,
            )
      ]

-- For a file of the length of its layout and one hash for each chunk, `rebuild_by_verification`
-- succeeds with a valid bitmap of the layout's count, at which `get` answers for each chunk whether
-- its bytes in the file have its hash.
pub rebuild_by_verification-is_there :
    (blake3 : Bytes → Hash) (content : Bytes) (l : ChunkLayout) (hashes : List Hash)
    → Layout.IsValid l
    → length content ≡ l.file_size
    → length hashes ≡ l.count
    → (b : ChunkBitmap) × (rebuild_by_verification blake3 content l hashes ≡ ok b)
      × Invariant.IsValid b
      × (b.count ≡ l.count)
      × ((i : ℕ) → i < l.count → get b i ≡ ok (is_there blake3 content l hashes i))
unfolding rebuild_by_verification
rebuild_by_verification-is_there blake3 content l hashes v sized hashed =
    let (b, e, w, count, m) =
      rebuild_from-Marks blake3 content hashes v sized hashed l.count 0 (new l.count) (omega arith)
        (new-IsValid l.count) (new-count l.count)
        (λ j h.
          get-new l.count j h
          ∙ ap (λ t. ok (t && is_there blake3 content l hashes j))
              (let e : false ≡ ltb j 0 = ground arith in e)) in
    (
      b,
      e,
      w,
      count,
      λ i h.
          m i h
          ∙ ap (λ t. ok (t && is_there blake3 content l hashes i))
              (let e : ltb i l.count ≡ true = ground arith in e),
    )
