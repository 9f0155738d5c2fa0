-- ===== src/Core/Recv/Verified.antt =====
-- No chunk is marked whose bytes in the file do not have the hash that was offered.
use speeed.Base.{
  ℕ, suc, ◌+◌, ◌*◌, ◌≤◌, ◌<◌, ◌≡◌, sym, ap, ◌∙◌, inl, inr, true, false, leb, ltb, ◌==◌, ==_iff,
  Bool-cases, some, List, length, get_elem?, take, drop, arith, ok, ok_inj,
}
use speeed.Base.Bytes.{Bytes}
use speeed.Proto.Chunk.{ChunkLayout, range}
use speeed.Proto.Chunk.Layout
use speeed.Proto.Chunk.Layout.{len_at, range-len_at, offset-lt}
use speeed.Proto.Hashes.{Hash}
use speeed.Proto.Bitmap
use speeed.Proto.Bitmap.{ChunkBitmap, get}
use speeed.Proto.Bitmap.Invariant
use speeed.Proto.Bitmap.Invariant.{get-set}
use speeed.Core.Sink.{write_all_at}
use speeed.Core.Sink.Content.{written, kept_before, kept_after}

-- The bytes of chunk `i`.
abbrev pub chunk_bytes : Bytes → ChunkLayout → ℕ → Bytes
chunk_bytes content l i = take (len_at l i) (drop (i * l.chunk_size) content)

-- Each chunk at which the bitmap answers true has in `content` the bytes whose hash was offered.
abbrev pub Verified : (Bytes → Hash) → ChunkLayout → List Hash → Bytes → ChunkBitmap → Type 0
Verified blake3 l hashes content b =
    (i : ℕ)
    → i < l.count
    → get b i ≡ ok true
    → get_elem? hashes i ≡ some (blake3 (chunk_bytes content l i))

-- A range that is returned is that of a chunk of the file.
pub record InFile (l : ChunkLayout) (i start len : ℕ) : Type 0 where
  pub below : i < l.count
  pub starts : start ≡ i * l.chunk_size
  pub long : len ≡ len_at l i

pub range-InFile :
    {l : ChunkLayout} {i start len : ℕ}
    → Layout.IsValid l
    → range l i ≡ ok (start, len)
    → InFile l i start len
unfolding range
range-InFile {l} {i} {start} {len} v e = elim (Bool-cases (leb l.count i)) [
  | inl past ↦ cc (rw past at e)
  | inr inside ↦
      let below : i < l.count = ground arith in
      let same = ok_inj (sym (range-len_at v i below) ∙ e) in
      record { below = below; starts = sym (ap (λ t. t.0) same); long = sym (ap (λ t. t.1) same) }
]

-- Chunks do not overlap.
chunk_end-le :
    (l : ChunkLayout) (i j : ℕ) → i < j → i * l.chunk_size + len_at l i ≤ j * l.chunk_size
chunk_end-le l i j h = let le : suc i * l.chunk_size ≤ j * l.chunk_size = grind arith in omega arith

pub in_file :
    {l : ChunkLayout}
    → Layout.IsValid l
    → (i : ℕ) → i < l.count
    → i * l.chunk_size + len_at l i ≤ l.file_size
in_file {l} v i h = omega (arith, offset-lt v i h)

module _ {l : ChunkLayout} (v : Layout.IsValid l) (content payload : Bytes) (i : ℕ)
    (h : i < l.count) (sized : length content ≡ l.file_size)
    (long : length payload ≡ len_at l i) where
  pub own_chunk : chunk_bytes (write_all_at content (i * l.chunk_size) payload) l i ≡ payload
  own_chunk =
      ap (λ n. take n (drop (i * l.chunk_size) (write_all_at content (i * l.chunk_size) payload)))
        (sym long)
      ∙ written content (i * l.chunk_size) payload (omega (arith, in_file v i h))

  pub other_chunk :
      (j : ℕ)
      → j < l.count
      → (j == i) ≡ false
      → chunk_bytes (write_all_at content (i * l.chunk_size) payload) l j ≡ chunk_bytes content l j
  other_chunk j hj ne = elim (Bool-cases (ltb j i)) [
    | inl before ↦
        kept_before content (i * l.chunk_size) (j * l.chunk_size) (len_at l j) payload
          (chunk_end-le l j i (ground arith)) (omega (arith, in_file v i h))
    | inr after ↦ ap (take (len_at l j)) (
        kept_after content (i * l.chunk_size) (j * l.chunk_size) payload
          (let lt : i < j = ground arith in omega (arith, chunk_end-le l i j lt))
          (omega (arith, in_file v i h)))
  ]

  -- A chunk with the hash that was offered, written and marked.
  pub store-Verified :
      (blake3 : Bytes → Hash) (hashes : List Hash) {b b' : ChunkBitmap}
      → Invariant.IsValid b
      → b.count ≡ l.count
      → Verified blake3 l hashes content b
      → get_elem? hashes i ≡ some (blake3 payload)
      → Bitmap.set b i ≡ ok b'
      → Verified blake3 l hashes (write_all_at content (i * l.chunk_size) payload) b'
  store-Verified blake3 hashes {b} {b'} w count old right marked j hj is_set =
      let after = get-set w i j (rw count hj) marked in
      elim (Bool-cases (j == i)) [
        | inl same ↦ let eq : j ≡ i = (==_iff j i).0 same in rw (eq, own_chunk) right
        | inr other ↦
            let was : get b j ≡ ok true = sym (rw other at after) ∙ is_set in
            rw (other_chunk j hj other) (old j hj was)
      ]
