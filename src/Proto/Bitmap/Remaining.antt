-- ===== src/Proto/Bitmap/Remaining.antt =====
-- `remaining_bytes` is the sum of the lengths of the missing chunks.
use speeed.Base.{
  ℕ, zero, suc, ◌+◌, ◌-◌, ◌^◌, ◌≤◌, ◌<◌, ◌≡◌, refl, ap, List, [], ◌∷◌, ◌++◌, map, All, All-left,
  All-right, ◌∙◌, arith, ok, Bool-cases, inl, inr,
}
use speeed.Base.Sums.{sum, sum-append, sum_below}
use speeed.Proto.Errors.{Error, add_u64_fits}
use speeed.Proto.Chunk.{ChunkLayout}
use speeed.Proto.Chunk.Layout
use speeed.Proto.Chunk.Layout.{len_at, range-len_at, sum_len_at}
use speeed.Proto.Bitmap
use speeed.Proto.Bitmap.{ChunkBitmap, add_chunks, add_ranges, missing_ranges, remaining_bytes}
use speeed.Proto.Bitmap.Invariant.{IsValid, is_true}
use speeed.Proto.Bitmap.Missing.{span, span-snoc, expand, missing_from, missing_ranges-expand}
use mathlib.Core.List.{map-append}

-- The bytes of the listed chunks.
abbrev pub bytes_of : ChunkLayout → List ℕ → ℕ
bytes_of l chunks = sum (map (len_at l) chunks)

module _ {l : ChunkLayout} (v : Layout.IsValid l) where
  add_chunks-bytes_of :
      (n i total : ℕ)
      → All (λ k. k < l.count) (span n i)
      → total + bytes_of l (span n i) < 2 ^ 64
      → add_chunks l n i total ≡ ok (total + bytes_of l (span n i))
  unfolding add_chunks
  add_chunks-bytes_of zero i total h fits = ap ok (omega arith)
  add_chunks-bytes_of (suc n) i total h fits = rw (range-len_at v i h.0) (
      rw (add_u64_fits {E = Error} total (len_at l i) (omega arith)) (
        rw (add_chunks-bytes_of n (i + 1) (total + len_at l i) h.1 (omega arith))
          (ap ok (omega arith))))

  add_ranges-bytes_of :
      (ranges : List (ℕ × ℕ)) (total : ℕ)
      → All (λ k. k < l.count) (expand ranges)
      → total + bytes_of l (expand ranges) < 2 ^ 64
      → add_ranges l ranges total ≡ ok (total + bytes_of l (expand ranges))
  unfolding add_ranges
  add_ranges-bytes_of [] total h fits = ap ok (omega arith)
  add_ranges-bytes_of ((start, end) ∷ ranges) total h fits =
      let here = span (end - start) start in
      let all : bytes_of l (here ++ expand ranges) ≡ bytes_of l here + bytes_of l (expand ranges) =
        ap sum (map-append (len_at l) here (expand ranges))
        ∙ sum-append (map (len_at l) here) (map (len_at l) (expand ranges)) in
      let first = All-left (λ k. k < l.count) here (expand ranges) h in
      let later = All-right (λ k. k < l.count) here (expand ranges) h in
      rw (add_chunks-bytes_of (end - start) start total first (omega arith)) (
        add_ranges-bytes_of ranges (total + bytes_of l here) later (omega arith)
        ∙ ap ok (omega arith))

bytes_of-missing_from :
    (l : ChunkLayout) (b : ChunkBitmap) (n i : ℕ)
    → bytes_of l (missing_from b n i) ≤ bytes_of l (span n i)
bytes_of-missing_from l b zero i = omega arith
bytes_of-missing_from l b (suc n) i = elim (Bool-cases (is_true (Bitmap.get b i))) [
  | inl e ↦ rw e (omega (arith, bytes_of-missing_from l b n (i + 1)))
  | inr e ↦ rw e (omega (arith, bytes_of-missing_from l b n (i + 1)))
]

bytes_of-span : (l : ChunkLayout) (n : ℕ) → bytes_of l (span n 0) ≡ sum_below n (len_at l)
bytes_of-span l zero = refl
bytes_of-span l (suc n) =
    let all : bytes_of l (span n 0 ++ n ∷ []) ≡ bytes_of l (span n 0) + bytes_of l (n ∷ []) =
      ap sum (map-append (len_at l) (span n 0) (n ∷ []))
      ∙ sum-append (map (len_at l) (span n 0)) (map (len_at l) (n ∷ [])) in
    let last : 0 + n ≡ n = omega arith in
    ap (bytes_of l) (span-snoc n 0 ∙ ap (λ k. span n 0 ++ k ∷ []) last)
    ∙ omega (arith, all, bytes_of-span l n)

pub All-missing_from :
    (b : ChunkBitmap) (n i m : ℕ) → i + n ≤ m → All (λ k. k < m) (missing_from b n i)
All-missing_from b zero i m h = tt
All-missing_from b (suc n) i m h = elim (Bool-cases (is_true (Bitmap.get b i))) [
  | inl e ↦ rw e (All-missing_from b n (i + 1) m (omega arith))
  | inr e ↦ rw e (omega arith, All-missing_from b n (i + 1) m (omega arith))
]

-- For a valid bitmap and the layout of its file, `remaining_bytes` is the sum of the lengths of the
-- chunks at which `get` does not answer true, with no overflow.
pub remaining_bytes-bytes_of :
    {b : ChunkBitmap} {l : ChunkLayout}
    → IsValid b
    → Layout.IsValid l
    → b.count ≡ l.count
    → remaining_bytes b l ≡ ok (bytes_of l (missing_from b b.count 0))
unfolding remaining_bytes
remaining_bytes-bytes_of {b} {l} v w same =
    let (ranges, e, listed, _) = missing_ranges-expand v in
    let within = All-missing_from b b.count 0 l.count (omega arith) in
    let fits : bytes_of l (missing_from b b.count 0) < 2 ^ 64 = omega (
      arith,
      bytes_of-missing_from l b b.count 0,
      bytes_of-span l b.count,
      sum_len_at w,
      ap (λ n. sum_below n (len_at l)) same,
    ) in
    rw e (
      add_ranges-bytes_of w ranges 0 (rw listed within) (rw listed (omega arith))
      ∙ ap ok (rw listed (omega arith)))
