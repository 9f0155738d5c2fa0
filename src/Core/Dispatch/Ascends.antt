-- ===== src/Core/Dispatch/Ascends.antt =====
-- In the work queue the chunks of each file ascend.
use speeed.Base.{
  All-map, ℕ, zero, suc, ◌+◌, ◌≤◌, ◌<◌, ◌≡◌, inl, inr, Bool-cases, List, [], ◌∷◌, ◌++◌, map, All,
  All-append, Result, ok, err, panic, arith,
}
use speeed.Proto.Bitmap
use speeed.Proto.Bitmap.{ChunkBitmap}
use speeed.Proto.Bitmap.Invariant.{is_true}
use speeed.Proto.Bitmap.Missing.{missing_from}
use speeed.Core.Errors.{CoreError}
use speeed.Core.Send.Queue.{Entry, FileProgress, WorkItem, contains, have}
use speeed.Core.Send.Pushed.{item}
use speeed.Core.Send.Planned.{lacks, wanted_of, wanted}
use speeed.Core.Dispatch.Tidy.{IsBefore, Rises}

abbrev Ascends : List ℕ → Type 0
Ascends [] = Unit {0}
Ascends (i ∷ is) = All (λ j. i < j) is × Ascends is

missing_from-from : (b : ChunkBitmap) (n i m : ℕ) → m ≤ i → All (λ j. m ≤ j) (missing_from b n i)
missing_from-from b zero i m le = tt
missing_from-from b (suc n) i m le =
    let rest = missing_from-from b n (i + 1) m (omega arith) in
    elim (Bool-cases (is_true (Bitmap.get b i))) [
      | inl there ↦ rw there rest
      | inr lacks_it ↦ rw lacks_it (le, rest)
    ]

missing_from-Ascends : (b : ChunkBitmap) (n i : ℕ) → Ascends (missing_from b n i)
missing_from-Ascends b zero i = tt
missing_from-Ascends b (suc n) i =
    let rest = missing_from-Ascends b n (i + 1) in
    elim (Bool-cases (is_true (Bitmap.get b i))) [
      | inl there ↦ rw there rest
      | inr lacks_it ↦ rw lacks_it (
        All-map (λ j. i + 1 ≤ j) (λ j. i < j) (missing_from b n (i + 1)) (λ j le. omega arith)
            (missing_from-from b n (i + 1) (i + 1) (omega arith)),
        rest,
      )
    ]

wanted_of-Ascends :
    (accepted : List ℕ) (progress : List FileProgress) (entry : Entry)
    → Ascends (wanted_of accepted progress entry)
wanted_of-Ascends accepted progress entry = elim (Bool-cases (contains accepted entry.file_id)) [
  | inl takes ↦ rw takes (lacked (have progress entry))
  | inr refuses ↦ rw refuses tt
]
  where
    lacked : (m : Result CoreError ChunkBitmap) → Ascends (lacks m)
    lacked (ok b) = missing_from-Ascends b b.count 0
    lacked (err e) = tt
    lacked panic = tt

map-IsBefore : (k i : ℕ) (is : List ℕ) → All (λ j. i < j) is → IsBefore (item k i) (map (item k) is)
map-IsBefore k i [] a = tt
map-IsBefore k i (j ∷ is) a = (λ _. a.0, map-IsBefore k i is a.1)

-- The chunks of a file in front of later files.
Rises-map :
    (k : ℕ) (is : List ℕ) (rest : List WorkItem)
    → Ascends is
    → All (λ (l : WorkItem). k + 1 ≤ l.file_index) rest
    → Rises rest
    → Rises (map (item k) is ++ rest)
Rises-map k [] rest up later rises = rises
Rises-map k (i ∷ is) rest up later rises =
    let elsewhere : IsBefore (item k i) rest =
      All-map (λ (l : WorkItem). k + 1 ≤ l.file_index)
        (λ (l : WorkItem). l.file_index ≡ k → i < l.chunk_index) rest
        (λ l le same. absurd (omega (arith, le, same))) later in
    (
      All-append (λ (l : WorkItem). l.file_index ≡ k → i < l.chunk_index) (map (item k) is) rest
          (map-IsBefore k i is up.0) elsewhere,
      Rises-map k is rest up.1 later rises,
    )

map-item-from :
    (k m : ℕ) (is : List ℕ) → m ≤ k → All (λ (l : WorkItem). m ≤ l.file_index) (map (item k) is)
map-item-from k m [] le = tt
map-item-from k m (i ∷ is) le = (le, map-item-from k m is le)

wanted-from :
    (accepted : List ℕ) (progress : List FileProgress) (entries : List Entry) (k m : ℕ)
    → m ≤ k
    → All (λ (l : WorkItem). m ≤ l.file_index) (wanted accepted progress entries k)
wanted-from accepted progress [] k m le = tt
wanted-from accepted progress (entry ∷ entries) k m le =
    All-append (λ (l : WorkItem). m ≤ l.file_index)
      (map (item k) (wanted_of accepted progress entry)) (wanted accepted progress entries (k + 1))
      (map-item-from k m (wanted_of accepted progress entry) le)
      (wanted-from accepted progress entries (k + 1) m (omega arith))

pub wanted-Rises :
    (accepted : List ℕ) (progress : List FileProgress) (entries : List Entry) (k : ℕ)
    → Rises (wanted accepted progress entries k)
wanted-Rises accepted progress [] k = tt
wanted-Rises accepted progress (entry ∷ entries) k =
    Rises-map k (wanted_of accepted progress entry) (wanted accepted progress entries (k + 1))
      (wanted_of-Ascends accepted progress entry)
      (wanted-from accepted progress entries (k + 1) (k + 1) (omega arith))
      (wanted-Rises accepted progress entries (k + 1))
