-- ===== src/Core/Recv/Preserved.antt =====
-- Every frame keeps the states of the files valid.
use speeed.Base.{
  ℕ, ◌+◌, ◌*◌, ◌≤◌, ◌≡◌, refl, sym, ap, ◌∙◌, inl, inr, Bool, ltb, ◌==◌, Bool-cases, some, List, [],
  ◌∷◌, length, get_elem?, All, arith, ok, >>=-eq-ok, ok_inj,
}
use speeed.Base.Bytes.{Bytes}
use speeed.Proto.Errors.{add_u64}
use speeed.Proto.Chunk.{range}
use speeed.Proto.Chunk.Layout
use speeed.Proto.Hashes.{Hash}
use speeed.Proto.Bitmap
use speeed.Proto.Bitmap.{ChunkBitmap, get}
use speeed.Proto.Bitmap.Invariant
use speeed.Proto.Bitmap.Invariant.{set-IsValid}
use speeed.Core.Sink.{write_all_at}
use speeed.Core.Sink.Content.{length-write_all_at}
use speeed.Core.Recv.{FileState, get_state, put_state, checkpoint, checkpoint_if_due}
use speeed.Core.Recv.Verified.{Verified, range-InFile, in_file, store-Verified}

-- What holds of the state of a file that is received: its parts fit to one another, the marked chunks
-- are verified in the file, and those of the record on disk in what was synced before it.
pub record IsValid (blake3 : Bytes → Hash) (st : FileState) : Type 0 where
  pub geometry : Layout.IsValid st.layout
  pub sized : length st.content ≡ st.layout.file_size
  pub bitmap : Invariant.IsValid st.bitmap
  pub counted : st.bitmap.count ≡ st.layout.count
  pub hashed : length st.chunk_hashes ≡ st.layout.count
  pub verified : Verified blake3 st.layout st.chunk_hashes st.content st.bitmap
  pub recorded :
      (b : ChunkBitmap)
      → st.recorded ≡ some b
      → Verified blake3 st.layout st.chunk_hashes st.synced b

checkpoint-IsValid :
    {blake3 : Bytes → Hash} {st : FileState}
    → IsValid blake3 st
    → IsValid blake3 (checkpoint st) × ((checkpoint st).layout ≡ st.layout)
unfolding checkpoint
checkpoint-IsValid {blake3} {st} v = elim (Bool-cases (st.bitmap.set_count == 0)) [
  | inl none_set ↦ rw none_set (v, refl)
  | inr some_set ↦ rw some_set (
    record {
      geometry = v.geometry;
      sized = v.sized;
      bitmap = v.bitmap;
      counted = v.counted;
      hashed = v.hashed;
      verified = v.verified;
      recorded = λ b e. let same : st.bitmap ≡ b = cc in rw (← same) v.verified;
    },
    refl,
  )
]

-- The counter of bytes is not part of the invariant.
recount-IsValid :
    {blake3 : Bytes → Hash} {st : FileState} (n : ℕ)
    → IsValid blake3 st
    → IsValid blake3 (record st { since_checkpoint = n })
recount-IsValid n v = record {
  geometry = v.geometry;
  sized = v.sized;
  bitmap = v.bitmap;
  counted = v.counted;
  hashed = v.hashed;
  verified = v.verified;
  recorded = v.recorded;
}

pub checkpoint_if_due-IsValid :
    {blake3 : Bytes → Hash} (free : Bool) {st st' : FileState} (added threshold : ℕ)
    → IsValid blake3 st
    → checkpoint_if_due free st added threshold ≡ ok st'
    → IsValid blake3 st' × (st'.layout ≡ st.layout)
unfolding checkpoint_if_due
checkpoint_if_due-IsValid {blake3} free {st} {st'} added threshold v e =
    elim (Bool-cases (threshold == 0)) [
      | inl off ↦ rw (← ok_inj (rw off at e)) (v, refl)
      | inr on ↦
          let (total, _, e2) = >>=-eq-ok (add_u64 st.since_checkpoint added) _ (rw on at e) in
          let counted = recount-IsValid total v in
          let kept = checkpoint-IsValid (recount-IsValid 0 counted) in
          elim (Bool-cases (ltb total threshold)) [
            | inl early ↦ rw (← ok_inj (rw early at e2)) (counted, refl)
            | inr due ↦ elim (Bool-cases free) [
              | inl taken ↦ rw (← ok_inj (rw (due, taken) at e2)) kept
              | inr lost ↦ rw (← ok_inj (rw (due, lost) at e2)) (counted, refl)
            ]
          ]
    ]

-- Each state is valid.
abbrev pub AllValid : (Bytes → Hash) → List (ℕ × FileState) → Type 0
AllValid blake3 files = All (λ f. IsValid blake3 f.1) files

-- Each file that was there is there, with its layout.
abbrev pub SameLayouts : List (ℕ × FileState) → List (ℕ × FileState) → Type 0
SameLayouts files files' =
    (k : ℕ) (st : FileState)
    → get_state files k ≡ some st
    → (st' : FileState) × (get_state files' k ≡ some st') × (st'.layout ≡ st.layout)

pub get_state-IsValid :
    (blake3 : Bytes → Hash) (files : List (ℕ × FileState)) (k : ℕ) {st : FileState}
    → AllValid blake3 files
    → get_state files k ≡ some st
    → IsValid blake3 st
unfolding get_state
get_state-IsValid blake3 [] k a e = cc
get_state-IsValid blake3 ((j, old) ∷ files) k {st} a e = elim (Bool-cases (j == k)) [
  | inl here ↦ let same : old ≡ st = cc (rw here at e) in rw (← same) a.0
  | inr there ↦ get_state-IsValid blake3 files k a.1 (rw there at e)
]

pub put_state-AllValid :
    (blake3 : Bytes → Hash) (files : List (ℕ × FileState)) (k : ℕ) (st : FileState)
    → AllValid blake3 files
    → IsValid blake3 st
    → AllValid blake3 (put_state files k st)
unfolding put_state
put_state-AllValid blake3 [] k st a v = tt
put_state-AllValid blake3 ((j, old) ∷ files) k st a v = elim (Bool-cases (j == k)) [
  | inl here ↦ rw here (v, a.1)
  | inr there ↦ rw there (a.0, put_state-AllValid blake3 files k st a.1 v)
]

pub put_state-SameLayouts :
    (files : List (ℕ × FileState)) (k : ℕ) {st : FileState} (st' : FileState)
    → get_state files k ≡ some st
    → st'.layout ≡ st.layout
    → SameLayouts files (put_state files k st')
unfolding get_state put_state
put_state-SameLayouts [] k st' e same i old at = cc
put_state-SameLayouts ((j, own) ∷ files) k {st} st' e same i old at = elim (Bool-cases (j == k)) [
  | inl here ↦
      let mine : own ≡ st = cc (rw here at e) in
      elim (Bool-cases (j == i)) [
        | inl found ↦
            let eq : own ≡ old = cc (rw found at at) in
            rw (here, found) (st', refl, same ∙ ap (λ s. s.layout) (sym mine ∙ eq))
        | inr further ↦ rw (here, further) (old, rw further at at, refl)
      ]
  | inr there ↦ elim (Bool-cases (j == i)) [
    | inl found ↦
        rw (there, found)
          (own, refl, let eq : own ≡ old = cc (rw found at at) in ap (λ s. s.layout) eq)
    | inr further ↦
        rw (there, further)
          (put_state-SameLayouts files k st' (rw there at e) same i old (rw further at at))
  ]
]

-- What was written and marked leaves the state valid.
pub stored-IsValid :
    {blake3 : Bytes → Hash} {st : FileState} (i : ℕ) (payload : Bytes) {start len : ℕ}
    {b' : ChunkBitmap}
    → IsValid blake3 st
    → range st.layout i ≡ ok (start, len)
    → length payload ≡ len
    → get_elem? st.chunk_hashes i ≡ some (blake3 payload)
    → Bitmap.set st.bitmap i ≡ ok b'
    → IsValid blake3 (record st { content = write_all_at st.content start payload; bitmap = b' })
stored-IsValid {blake3} {st} i payload {start} {len} {b'} v r long right marked =
    let f = range-InFile v.geometry r in
    let (b1, e1, w1, c1) = set-IsValid v.bitmap i (omega (arith, f.below, v.counted)) in
    let same : b1 ≡ b' = ok_inj (sym e1 ∙ marked) in
    let fits : i * st.layout.chunk_size + length payload ≤ length st.content =
      omega (arith, in_file v.geometry i f.below, v.sized, f.long, long) in
    record {
      geometry = v.geometry;
      sized = rw f.starts (length-write_all_at st.content _ payload fits ∙ v.sized);
      bitmap = rw (← same) w1;
      counted = ap (λ b. b.count) (sym same) ∙ c1 ∙ v.counted;
      hashed = v.hashed;
      verified = rw f.starts (
          store-Verified v.geometry st.content payload i f.below v.sized (long ∙ f.long) blake3
            st.chunk_hashes v.bitmap v.counted v.verified right marked);
      recorded = v.recorded;
    }
