-- ===== src/Core/Recv/Complete.antt =====
-- A file whose bitmap is complete is the file that was offered.
use speeed.Base.{
  some_inj, ℕ, zero, suc, ◌+◌, ◌<◌, ◌≡◌, refl, sym, ap, ◌∙◌, Bool, true, List, [], ◌∷◌, length,
  get_elem?, some, inl, inr, Bool-cases, ◌==◌, ==_iff, arith, Result, ok, err, panic,
}
use speeed.Base.Bytes.{Bytes}
use speeed.Proto.Errors
use speeed.Proto.Hashes.{Hash, root_from_chunk_hashes}
use speeed.Proto.Bitmap
use speeed.Proto.Bitmap.{ChunkBitmap, get}
use speeed.Proto.Bitmap.Invariant.{is_true}
use speeed.Proto.Bitmap.Complete.{all_present, is_complete-all_present}
use speeed.Core.Recv.{FileState}
use speeed.Core.Recv.Verified.{chunk_bytes}
use speeed.Core.Recv.Preserved.{IsValid}

-- The hashes of the chunks i, …, i + n - 1 as they are in the file.
abbrev pub hashes_from : (Bytes → Hash) → FileState → ℕ → ℕ → List Hash
hashes_from blake3 st zero i = []
hashes_from blake3 st (suc n) i =
    blake3 (chunk_bytes st.content st.layout i) ∷ hashes_from blake3 st n (suc i)

is_true→ok : (m : Result Errors.Error Bool) → is_true m ≡ true → m ≡ ok true
unfolding is_true
is_true→ok (ok b) e = ap ok e
is_true→ok (err x) e = cc
is_true→ok panic e = cc

all_present-get : (b : ChunkBitmap) (n i : ℕ) → all_present b n ≡ true → i < n → get b i ≡ ok true
unfolding all_present
all_present-get b zero i e h = elim h [ ]
all_present-get b (suc n) i e h =
    let last : is_true (get b n) ≡ true = ground arith in
    let below : all_present b n ≡ true = ground arith in
    elim (Bool-cases (i == n)) [
      | inl same ↦ rw ((==_iff i n).0 same) (is_true→ok (get b n) last)
      | inr other ↦ all_present-get b n i below (ground arith)
    ]

-- A list with these hashes, and as many, is the list of them.
hashes_from_unique :
    (blake3 : Bytes → Hash) (st : FileState) (hs : List Hash) (i : ℕ)
    → ((j : ℕ)
        → j < length hs
        → get_elem? hs j ≡ some (blake3 (chunk_bytes st.content st.layout (j + i))))
    → hashes_from blake3 st (length hs) i ≡ hs
hashes_from_unique blake3 st [] i h = refl
hashes_from_unique blake3 st (k ∷ hs) i h =
    let here : k ≡ blake3 (chunk_bytes st.content st.layout i) = some_inj (
      h zero (omega arith)
      ∙ ap (λ n. some (blake3 (chunk_bytes st.content st.layout n)))
          (let e : 0 + i ≡ i = omega arith in e)) in
    let next = hashes_from_unique blake3 st hs (suc i) λ j lt.
      h (suc j) (omega arith)
      ∙ ap (λ n. some (blake3 (chunk_bytes st.content st.layout n))) (omega arith) in
    cc (here, next)

-- When the bitmap of a valid file state is complete, as the receiver tests before it reports success,
-- the file as it stands has the chunk hashes that were offered, each in its place, and so the root.
pub is_complete-root :
    (blake3 : Bytes → Hash) (st : FileState)
    → IsValid blake3 st
    → Bitmap.is_complete st.bitmap ≡ true
    → (hashes_from blake3 st st.layout.count 0 ≡ st.chunk_hashes)
      × (root_from_chunk_hashes blake3 (hashes_from blake3 st st.layout.count 0)
          ≡ root_from_chunk_hashes blake3 st.chunk_hashes)
is_complete-root blake3 st v e =
    let all : all_present st.bitmap st.bitmap.count ≡ true =
      sym (is_complete-all_present v.bitmap) ∙ e in
    let read : (j : ℕ)
        → j < length st.chunk_hashes
        → get_elem? st.chunk_hashes j ≡ some (blake3 (chunk_bytes st.content st.layout (j + 0))) =
      λ j lt.
        v.verified j (omega (arith, v.hashed))
          (all_present-get st.bitmap st.bitmap.count j all (omega (arith, v.hashed, v.counted)))
        ∙ ap (λ n. some (blake3 (chunk_bytes st.content st.layout n))) (omega arith) in
    let same : hashes_from blake3 st st.layout.count 0 ≡ st.chunk_hashes =
      ap (λ n. hashes_from blake3 st n 0) (sym v.hashed)
      ∙ hashes_from_unique blake3 st st.chunk_hashes 0 read in
    (same, ap (root_from_chunk_hashes blake3) same)
