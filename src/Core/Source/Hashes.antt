-- ===== src/Core/Source/Hashes.antt =====
-- The hashes that the sender commits to are those of the chunks of its file.
use speeed.Base.{
  ℕ, zero, suc, ◌+◌, ◌-◌, ◌*◌, ◌^◌, ◌<◌, ◌≡◌, refl, sym, ap, ◌∙◌, inl, inr, Bool, true, false, ◌&&◌,
  ltb, leb, Bool-cases, Option, some, List, [], ◌∷◌, ◌++◌, append_assoc, append-nil, length, max,
  All, arith, ok, >>=-eq-ok, ok_inj, map_err-eq-ok, map_err, le→ltb_false,
}
use speeed.Base.Bytes.{Bytes}
use speeed.Proto.Errors.{add_u64_fits}
use speeed.Proto.Chunk
use speeed.Proto.Chunk.{ChunkLayout, range}
use speeed.Proto.Chunk.Layout
use speeed.Proto.Chunk.Layout.{len_at, range-len_at, new-IsValid}
use speeed.Proto.Hashes.{Hash}
use speeed.Proto.Hashes.Root.{IsHash}
use speeed.Core.Errors.{CoreError, wire}
use speeed.Core.Platform.{page_size}
use speeed.Core.Recv.Verified.{chunk_bytes, in_file}
use speeed.Core.Source.{
  SourceFile, open_source, chunk, Hashing, hash_pass_release_threshold, release_batch_bytes,
  release_behind, hash_one, hash_from, chunk_hashes,
}

-- The hashes of the chunks i, …, i + n - 1 of a file.
abbrev pub hashes_of : (Bytes → Hash) → Bytes → ChunkLayout → ℕ → ℕ → List Hash
hashes_of blake3 content l zero i = []
hashes_of blake3 content l (suc n) i =
    blake3 (chunk_bytes content l i) ∷ hashes_of blake3 content l n (i + 1)

pub hashes_of-All :
    (blake3 : Bytes → Hash) (content : Bytes) (l : ChunkLayout) (n i : ℕ)
    → ((bytes : Bytes) → IsHash (blake3 bytes))
    → All IsHash (hashes_of blake3 content l n i) × (length (hashes_of blake3 content l n i) ≡ n)
hashes_of-All blake3 content l zero i h = (tt, refl)
hashes_of-All blake3 content l (suc n) i h =
    let (a, e) = hashes_of-All blake3 content l n (i + 1) h in ((h _, a), ap suc e)

release_behind-out : (batch end : ℕ) (st : Hashing) → (release_behind batch end st).out ≡ st.out
unfolding release_behind
release_behind-out batch end st = elim (Bool-cases (leb batch (end - st.released_to))) [
  | inl enough ↦ rw enough refl
  | inr less ↦ rw less refl
]

module _ (blake3 : Bytes → Hash) (src : SourceFile) (v : Layout.IsValid src.layout)
    (sized : length src.map ≡ src.layout.file_size) where
  chunk-chunk_bytes :
      (i : ℕ) → i < src.layout.count → chunk src i ≡ ok (chunk_bytes src.map src.layout i)
  unfolding chunk
  chunk-chunk_bytes i h =
      rw
        (
          range-len_at v i h,
          le→ltb_false (length src.map) (i * src.layout.chunk_size + len_at src.layout i)
              (omega (arith, sized, in_file v i h)),
        )
        refl

  hash_one-out :
      (release : Bool) (batch i : ℕ) (st : Hashing)
      → i < src.layout.count
      → (st' : Hashing) × (hash_one blake3 src release batch i st ≡ ok st')
        × (st'.out ≡ st.out ++ blake3 (chunk_bytes src.map src.layout i) ∷ [])
  unfolding hash_one
  hash_one-out true batch i st h =
      let hashed : Hashing = record st {
        out = st.out ++ blake3 (chunk_bytes src.map src.layout i) ∷ [];
      } in
      let end = i * src.layout.chunk_size + len_at src.layout i in
      let fits =
        add_u64_fits {E = CoreError} (i * src.layout.chunk_size) (len_at src.layout i)
          (omega (arith, in_file v i h, v.sized)) in
      (
        release_behind batch end hashed,
        rw (range-len_at v i h, chunk-chunk_bytes i h, fits) refl,
        release_behind-out batch end hashed,
      )
  hash_one-out false batch i st h =
      let hashed : Hashing = record st {
        out = st.out ++ blake3 (chunk_bytes src.map src.layout i) ∷ [];
      } in
      (hashed, rw (range-len_at v i h, chunk-chunk_bytes i h) refl, refl)

  hash_from-out :
      (release : Bool) (batch n i : ℕ) (st : Hashing)
      → i + n ≡ src.layout.count
      → (st' : Hashing) × (hash_from blake3 src release batch n i st ≡ ok st')
        × (st'.out ≡ st.out ++ hashes_of blake3 src.map src.layout n i)
  unfolding hash_from
  hash_from-out release batch zero i st e = (st, refl, sym (append-nil st.out))
  hash_from-out release batch (suc n) i st e =
      let (st1, e1, o1) = hash_one-out release batch i st (omega arith) in
      let (st2, e2, o2) = hash_from-out release batch n (i + 1) st1 (omega arith) in
      (
        st2,
        rw e1 e2,
        o2
            ∙ ap (λ t. t ++ hashes_of blake3 src.map src.layout n (i + 1)) o1
            ∙ append_assoc st.out _ (hashes_of blake3 src.map src.layout n (i + 1)),
      )

-- A source file that was opened is hashed without an error or a panic: whether pages are released or
-- not, the hashes are those of its chunks in their order, as many as its layout counts.
pub chunk_hashes-hashes_of :
    (blake3 : Bytes → Hash) (content : Bytes) (chunk_size : ℕ) (raw : Option ℕ) (src : SourceFile)
    (release_pages : Bool)
    → length content < 2 ^ 64
    → open_source (some content) chunk_size raw ≡ ok src
    → (st : Hashing) × (chunk_hashes blake3 src release_pages ≡ ok st)
      × (st.out ≡ hashes_of blake3 content src.layout src.layout.count 0)
unfolding chunk_hashes open_source
chunk_hashes-hashes_of blake3 content chunk_size raw src release_pages h e =
    let (l, e1, f1) = >>=-eq-ok (map_err wire (Chunk.new (length content) chunk_size)) _ e in
    let (v, size_is, _, _) = new-IsValid (length content) chunk_size h (map_err-eq-ok wire _ e1) in
    let same = ok_inj f1 in
    let (st, e2, o) =
      hash_from-out blake3 (record { map = content; layout = l; page_size = page_size raw }) v
        (sym size_is) (release_pages && ltb hash_pass_release_threshold l.file_size)
        (max release_batch_bytes l.chunk_size) l.count 0 _ (omega arith) in
    rw (← same) (st, e2, o)

-- The layout of an opened file is the one that its length and the chunk size give.
pub opened_layout :
    (content : Bytes) (chunk_size : ℕ) (raw : Option ℕ) (src : SourceFile)
    → length content < 2 ^ 64
    → open_source (some content) chunk_size raw ≡ ok src
    → (Chunk.new (length content) chunk_size ≡ ok src.layout)
      × (src.layout.file_size ≡ length content)
unfolding open_source
opened_layout content chunk_size raw src h e =
    let (l, e1, f1) = >>=-eq-ok (map_err wire (Chunk.new (length content) chunk_size)) _ e in
    let cut = map_err-eq-ok wire (Chunk.new (length content) chunk_size) e1 in
    let (_, size_is, _, _) = new-IsValid (length content) chunk_size h cut in
    rw (← ap (λ s. s.layout) (ok_inj f1)) (cut, size_is)
