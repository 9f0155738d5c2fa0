-- ===== src/Core/Send/Pushed.antt =====
-- What pushing the ranges of a file adds to the work queue.
use speeed.Base.{
  ℕ, zero, suc, ◌+◌, ◌-◌, ◌^◌, ◌<◌, ◌≡◌, sym, ap, ◌∙◌, List, [], ◌∷◌, ◌++◌, append_assoc,
  append-nil, map, All, All-left, All-right, arith, ok,
}
use mathlib.Core.List.{map-append}
use speeed.Base.Sums.{sum, sum-append}
use speeed.Proto.Errors.{add_u64_fits}
use speeed.Proto.Chunk.{ChunkLayout}
use speeed.Proto.Chunk.Layout
use speeed.Proto.Chunk.Layout.{len_at, range-len_at}
use speeed.Proto.Bitmap.Missing.{span, expand}
use speeed.Proto.Bitmap.Remaining.{bytes_of}
use speeed.Core.Errors.{CoreError}
use speeed.Core.Send.Queue.{WorkItem, Work, push_chunks, push_ranges}

abbrev pub item : ℕ → ℕ → WorkItem
item file_index chunk_index = record { file_index = file_index; chunk_index = chunk_index }

-- The work with these chunks of a file behind it.
abbrev pub with_chunks : ChunkLayout → ℕ → List ℕ → Work → Work
with_chunks l file_index chunks work = record {
  queue = work.queue ++ map (item file_index) chunks;
  bytes_to_send = work.bytes_to_send + bytes_of l chunks;
}

with_chunks-append :
    (l : ChunkLayout) (file_index : ℕ) (xs ys : List ℕ) (work : Work)
    → with_chunks l file_index ys (with_chunks l file_index xs work)
      ≡ with_chunks l file_index (xs ++ ys) work
with_chunks-append l file_index xs ys work =
    let queue : (work.queue ++ map (item file_index) xs) ++ map (item file_index) ys
        ≡ work.queue ++ map (item file_index) (xs ++ ys) =
      append_assoc work.queue (map (item file_index) xs) (map (item file_index) ys)
      ∙ ap (λ t. work.queue ++ t) (sym (map-append (item file_index) xs ys)) in
    let bytes : work.bytes_to_send + bytes_of l xs + bytes_of l ys
        ≡ work.bytes_to_send + bytes_of l (xs ++ ys) =
      omega (
        arith,
        sum-append (map (len_at l) xs) (map (len_at l) ys),
        ap sum (map-append (len_at l) xs ys),
      ) in
    λ k. record { queue = queue k; bytes_to_send = bytes k }

module _ {l : ChunkLayout} (v : Layout.IsValid l) (file_index : ℕ) where
  push_chunks-span :
      (n i : ℕ) (work : Work)
      → All (λ k. k < l.count) (span n i)
      → work.bytes_to_send + bytes_of l (span n i) < 2 ^ 64
      → push_chunks l file_index n i work ≡ ok (with_chunks l file_index (span n i) work)
  unfolding push_chunks
  push_chunks-span zero i work h fits =
      let bytes : work.bytes_to_send ≡ work.bytes_to_send + 0 = omega arith in
      λ k. ok (record { queue = sym (append-nil work.queue) k; bytes_to_send = bytes k })
  push_chunks-span (suc n) i work h fits =
      let first = with_chunks l file_index (i ∷ []) work in
      let one : bytes_of l (i ∷ []) ≡ len_at l i = omega arith in
      let small = add_u64_fits {E = CoreError} work.bytes_to_send (len_at l i) (omega arith) in
      let counted : record first { bytes_to_send = work.bytes_to_send + len_at l i } ≡ first =
        λ k. record first { bytes_to_send = work.bytes_to_send + sym one k } in
      let rest = push_chunks-span n (i + 1) first h.1 (omega (arith, one)) in
      rw (range-len_at v i h.0, small, counted, rest)
        (ap ok (with_chunks-append l file_index (i ∷ []) (span n (i + 1)) work))

  pub push_ranges-expand :
      (ranges : List (ℕ × ℕ)) (work : Work)
      → All (λ k. k < l.count) (expand ranges)
      → work.bytes_to_send + bytes_of l (expand ranges) < 2 ^ 64
      → push_ranges l file_index ranges work ≡ ok (with_chunks l file_index (expand ranges) work)
  unfolding push_ranges
  push_ranges-expand [] work h fits =
      let bytes : work.bytes_to_send ≡ work.bytes_to_send + 0 = omega arith in
      λ k. ok (record { queue = sym (append-nil work.queue) k; bytes_to_send = bytes k })
  push_ranges-expand ((start, end) ∷ ranges) work h fits =
      let here = span (end - start) start in
      let all : bytes_of l (here ++ expand ranges) ≡ bytes_of l here + bytes_of l (expand ranges) =
        ap sum (map-append (len_at l) here (expand ranges))
        ∙ sum-append (map (len_at l) here) (map (len_at l) (expand ranges)) in
      let first =
        push_chunks-span (end - start) start work
          (All-left (λ k. k < l.count) here (expand ranges) h) (omega (arith, all)) in
      let rest =
        push_ranges-expand ranges (with_chunks l file_index here work)
          (All-right (λ k. k < l.count) here (expand ranges) h) (omega (arith, all)) in
      rw (first, rest) (ap ok (with_chunks-append l file_index here (expand ranges) work))
