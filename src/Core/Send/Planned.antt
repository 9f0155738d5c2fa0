-- ===== src/Core/Send/Planned.antt =====
-- The work queue is what the receiver still lacks.
use speeed.Base.{
  ℕ, ◌+◌, ◌^◌, ◌<◌, ◌≡◌, refl, sym, ap, ◌∙◌, inl, inr, true, false, Bool-cases, if◌then◌else◌, List,
  [], ◌∷◌, ◌++◌, append_assoc, append-nil, map, All, arith, Result, ok, err, panic,
}
use speeed.Proto.Chunk.{ChunkLayout}
use speeed.Proto.Chunk.Layout
use speeed.Proto.Chunk.Layout.{len_at, range-len_at}
use speeed.Proto.Bitmap.{ChunkBitmap, missing_ranges}
use speeed.Proto.Bitmap.Invariant
use speeed.Proto.Bitmap.Missing.{expand, missing_from, missing_ranges-expand}
use speeed.Proto.Bitmap.Remaining.{bytes_of, All-missing_from}
use speeed.Core.Errors.{CoreError}
use speeed.Core.Send.Queue.{
  Entry, FileProgress, WorkItem, Work, contains, have, push_ranges, build_from, build_queue,
}
use speeed.Core.Send.Pushed.{item, with_chunks, push_ranges-expand}

-- What the receiver has of an entry, when its answer fits the entry.
pub record Answered (progress : List FileProgress) (entry : Entry) : Type 0 where
  pub geometry : Layout.IsValid entry.layout
  pub bitmap : ChunkBitmap
  pub answers : have progress entry ≡ ok bitmap
  pub valid : Invariant.IsValid bitmap
  pub counted : bitmap.count ≡ entry.layout.count

-- The chunks of an entry that the receiver has not.
abbrev pub lacks : Result CoreError ChunkBitmap → List ℕ
lacks (ok b) = missing_from b b.count 0
lacks (err e) = []
lacks panic = []

abbrev pub wanted_of : List ℕ → List FileProgress → Entry → List ℕ
wanted_of accepted progress entry =
    if contains accepted entry.file_id then lacks (have progress entry) else []

-- For each accepted entry in its order, its missing chunks in theirs.
abbrev pub wanted : List ℕ → List FileProgress → List Entry → ℕ → List WorkItem
wanted accepted progress [] file_index = []
wanted accepted progress (entry ∷ entries) file_index =
    map (item file_index) (wanted_of accepted progress entry)
    ++ wanted accepted progress entries (file_index + 1)

abbrev pub wanted_bytes : List ℕ → List FileProgress → List Entry → ℕ
wanted_bytes accepted progress [] = 0
wanted_bytes accepted progress (entry ∷ entries) =
    bytes_of entry.layout (wanted_of accepted progress entry)
    + wanted_bytes accepted progress entries

-- The work with what an entry adds to it.
abbrev with_entry : List ℕ → List FileProgress → Entry → ℕ → Work → Work
with_entry accepted progress entry file_index work =
    with_chunks entry.layout file_index (wanted_of accepted progress entry) work

build_taken :
    (accepted : List ℕ) (progress : List FileProgress) (entry : Entry) (entries : List Entry)
    (file_index : ℕ) (work work' : Work) (b : ChunkBitmap) (ranges : List (ℕ × ℕ))
    → contains accepted entry.file_id ≡ true
    → have progress entry ≡ ok b
    → missing_ranges b ≡ ok ranges
    → push_ranges entry.layout file_index ranges work ≡ ok work'
    → build_from accepted progress (entry ∷ entries) file_index work
      ≡ build_from accepted progress entries (file_index + 1) work'
unfolding build_from
build_taken accepted progress entry entries file_index work work' b ranges takes answers e pushed =
    rw (takes, answers, e, pushed) refl

build_skipped :
    (accepted : List ℕ) (progress : List FileProgress) (entry : Entry) (entries : List Entry)
    (file_index : ℕ) (work : Work)
    → contains accepted entry.file_id ≡ false
    → build_from accepted progress (entry ∷ entries) file_index work
      ≡ build_from accepted progress entries (file_index + 1) work
unfolding build_from
build_skipped accepted progress entry entries file_index work refuses = rw refuses refl

with_chunks-nothing :
    (l : ChunkLayout) (file_index : ℕ) (work : Work) → work ≡ with_chunks l file_index [] work
with_chunks-nothing l file_index work =
    let bytes : work.bytes_to_send ≡ work.bytes_to_send + 0 = omega arith in
    λ k. record { queue = sym (append-nil work.queue) k; bytes_to_send = bytes k }

build_step :
    (accepted : List ℕ) (progress : List FileProgress) (entry : Entry) (entries : List Entry)
    (file_index : ℕ) (work : Work)
    → Answered progress entry
    → work.bytes_to_send + bytes_of entry.layout (wanted_of accepted progress entry) < 2 ^ 64
    → build_from accepted progress (entry ∷ entries) file_index work
      ≡ build_from accepted progress entries
          (file_index + 1)
          (with_entry accepted progress entry file_index work)
build_step accepted progress entry entries file_index work a fits =
    elim (Bool-cases (contains accepted entry.file_id)) [
      | inl takes ↦
          let (ranges, e, listed, _) = missing_ranges-expand a.valid in
          let within =
            All-missing_from a.bitmap a.bitmap.count 0 entry.layout.count
              (omega (arith, a.counted)) in
          let chunks : wanted_of accepted progress entry ≡ expand ranges =
            rw (takes, a.answers) (sym listed) in
          let small : work.bytes_to_send + bytes_of entry.layout (expand ranges) < 2 ^ 64 =
            rw chunks at fits in
          let pushed =
            push_ranges-expand a.geometry file_index ranges work (rw listed within) small in
          build_taken accepted progress entry entries file_index work _ a.bitmap ranges takes
            a.answers e
            (pushed ∙ ap (λ t. ok (with_chunks entry.layout file_index t work)) (sym chunks))
      | inr refuses ↦
          let chunks : wanted_of accepted progress entry ≡ [] = rw refuses refl in
          build_skipped accepted progress entry entries file_index work refuses
          ∙ ap (build_from accepted progress entries (file_index + 1)) (
              with_chunks-nothing entry.layout file_index work
              ∙ ap (λ t. with_chunks entry.layout file_index t work) (sym chunks))
    ]

build_from-wanted :
    (accepted : List ℕ) (progress : List FileProgress) (entries : List Entry) (file_index : ℕ)
    (work : Work)
    → All (Answered progress) entries
    → work.bytes_to_send + wanted_bytes accepted progress entries < 2 ^ 64
    → build_from accepted progress entries file_index work
      ≡ ok (record {
        queue = work.queue ++ wanted accepted progress entries file_index;
        bytes_to_send = work.bytes_to_send + wanted_bytes accepted progress entries;
      })
unfolding build_from
build_from-wanted accepted progress [] file_index work a fits =
    let bytes : work.bytes_to_send ≡ work.bytes_to_send + 0 = omega arith in
    λ k. ok (record { queue = sym (append-nil work.queue) k; bytes_to_send = bytes k })
build_from-wanted accepted progress (entry ∷ entries) file_index work a fits =
    let here = map (item file_index) (wanted_of accepted progress entry) in
    let later = wanted accepted progress entries (file_index + 1) in
    let own = bytes_of entry.layout (wanted_of accepted progress entry) in
    let rest = wanted_bytes accepted progress entries in
    let queue : (work.queue ++ here) ++ later ≡ work.queue ++ (here ++ later) =
      append_assoc work.queue here later in
    let bytes : work.bytes_to_send + own + rest ≡ work.bytes_to_send + (own + rest) = omega arith in
    build_step accepted progress entry entries file_index work a.0 (omega arith)
    ∙ build_from-wanted accepted progress entries (file_index + 1)
        (with_entry accepted progress entry file_index work) a.1 (omega arith)
    ∙ (λ k. ok (record { queue = queue k; bytes_to_send = bytes k }))

-- The sender sends what the receiver lacks, and nothing else. When the answer of the receiver fits each
-- entry and the total is a u64, the work queue is, for each accepted entry in its order, the chunks
-- that the receiver's bitmap does not mark, in theirs, and the bytes to send are the sum of their
-- lengths; an entry that was not accepted adds nothing.
pub build_queue-wanted :
    (accepted : List ℕ) (progress : List FileProgress) (entries : List Entry)
    → All (Answered progress) entries
    → wanted_bytes accepted progress entries < 2 ^ 64
    → build_queue accepted progress entries
      ≡ ok (record {
        queue = wanted accepted progress entries 0;
        bytes_to_send = wanted_bytes accepted progress entries;
      })
unfolding build_queue
build_queue-wanted accepted progress entries a fits =
    build_from-wanted accepted progress entries 0 (record { queue = []; bytes_to_send = 0 }) a
      (omega arith)
    ∙ (let bytes : 0 + wanted_bytes accepted progress entries
            ≡ wanted_bytes accepted progress entries =
          omega arith in
        λ k. ok (record { queue = wanted accepted progress entries 0; bytes_to_send = bytes k }))
