-- ===== src/Core/Transfer/Ends.antt =====
-- When the transfer ends well, each file that the receiver holds is as an entry announced it.
use speeed.Base.{
  some_inj, ℕ, zero, suc, ◌+◌, ◌≡◌, ap, ◌∙◌, inl, inr, Bool, true, Bool-cases, Option, none, some,
  List, [], ◌∷◌, length, All, Result, ok, ◌>>=◌, >>=-eq-ok, ok_inj,
}
use speeed.Base.Bytes.{Bytes}
use speeed.Proto.Chunk.Layout
use speeed.Proto.Hashes.{Hash, root_from_chunk_hashes}
use speeed.Proto.Bitmap
use speeed.Core.Errors.{CoreError}
use speeed.Core.Control.{FileEntry, ManifestOffer, Body}
use speeed.Core.Control
use speeed.Core.Recv.{FileState, World}
use speeed.Core.Recv.Preserved.{IsValid, AllValid}
use speeed.Core.Recv.Frames.{Opens}
use speeed.Core.Recv.Unchanged.{Committed}
use speeed.Core.Recv.Complete.{hashes_from, is_complete-root}
use speeed.Core.Offer.{Setup, handshake, start}
use speeed.Core.Offer.Accepts.{Sound, handshake-AllValid}
use speeed.Core.Offer.Promises.{Promised, IsIn, handshake-Committed}
use speeed.Core.Transfer.{
  finished, complete_files, conclude_with, conclude_if, conclude, spawn_all, session_of, transfer,
}
use speeed.Core.Transfer.Turns.{run_schedule-Steady}

-- A file is as an entry of the offer announced it: its id, its length, and the root over the
-- hashes of its chunks, read from the file as it stands in a valid layout of its length.
pub record Received (blake3 : Bytes → Hash) (entries : List FileEntry) (id : ℕ) (st : FileState)
    : Type 0 where
  pub entry : FileEntry
  pub offered : IsIn entry entries
  pub same_id : entry.file_id ≡ id
  pub geometry : Layout.IsValid st.layout
  pub sized : length st.content ≡ st.layout.file_size
  pub same_length : length st.content ≡ entry.size_bytes
  pub same_root :
      root_from_chunk_hashes blake3 (hashes_from blake3 st st.layout.count 0) ≡ entry.root_hash

complete-Received :
    (blake3 : Bytes → Hash) (entries : List FileEntry) (id : ℕ) (st : FileState)
    → IsValid blake3 st
    → Promised blake3 entries id st.layout st.chunk_hashes
    → Bitmap.is_complete st.bitmap ≡ true
    → Received blake3 entries id (finished st)
complete-Received blake3 entries id st v p done = record {
  entry = p.entry;
  offered = p.offered;
  same_id = p.same_id;
  geometry = v.geometry;
  sized = v.sized;
  same_length = v.sized ∙ p.same_size;
  same_root = (is_complete-root blake3 st v done).1 ∙ p.same_root;
}

abbrev pub AllReceived : (Bytes → Hash) → List FileEntry → List (ℕ × FileState) → Type 0
AllReceived blake3 entries files = All (λ f. Received blake3 entries f.0 f.1) files

complete_files-AllReceived :
    (blake3 : Bytes → Hash) (entries : List FileEntry) (files : List (ℕ × FileState))
    → AllValid blake3 files
    → Committed (Promised blake3 entries) files
    → (complete_files files).1 ≡ ok tt
    → AllReceived blake3 entries (complete_files files).0
unfolding complete_files
complete_files-AllReceived blake3 entries [] v c e = tt
complete_files-AllReceived blake3 entries ((k, st) ∷ files) v c e =
    elim (Bool-cases (Bitmap.is_complete st.bitmap)) [
      | inl done ↦ rw done (
        complete-Received blake3 entries k st v.0 c.0 done,
        complete_files-AllReceived blake3 entries files v.1 c.1 (rw done at e),
      )
      | inr missing ↦ cc (rw missing at e)
    ]

pub unit_of :
    (outcome : Result CoreError (Unit {0})) (n : ℕ) {m : ℕ}
    → (outcome >>= λ _. ok n) ≡ ok m
    → outcome ≡ ok tt
unit_of outcome n e = let (u, is, _) = >>=-eq-ok outcome (λ _. ok n) e in is

conclude_with-AllReceived :
    (blake3 : Bytes → Hash) (entries : List FileEntry) (failure : Option CoreError) (w : World)
    {files : List (ℕ × FileState)} {bytes : ℕ}
    → AllValid blake3 w.files
    → Committed (Promised blake3 entries) w.files
    → conclude_with failure w ≡ (files, ok bytes)
    → AllReceived blake3 entries files
conclude_with-AllReceived blake3 entries (some x) w v c e = cc
conclude_with-AllReceived blake3 entries none w v c e =
    let same : (complete_files w.files).0 ≡ _ = ap (λ t. t.0) e in
    rw (← same) (
      complete_files-AllReceived blake3 entries w.files v c
        (unit_of (complete_files w.files).1 w.counter (ap (λ t. t.1) e)))

conclude_if-AllReceived :
    (blake3 : Bytes → Hash) (entries : List FileEntry) (failure : Option (Option CoreError))
    (w : World) {files : List (ℕ × FileState)} {bytes : ℕ}
    → AllValid blake3 w.files
    → Committed (Promised blake3 entries) w.files
    → conclude_if failure w ≡ some (files, ok bytes)
    → AllReceived blake3 entries files
conclude_if-AllReceived blake3 entries none w v c e = cc
conclude_if-AllReceived blake3 entries (some failure) w v c e =
    conclude_with-AllReceived blake3 entries failure w v c (some_inj e)

pub spawn_all-Opens :
    (n i : ℕ) (inputs : ℕ → Bytes) (files : List (ℕ × FileState))
    → All (λ x. Opens files x.stream) (spawn_all n i inputs)
unfolding spawn_all
spawn_all-Opens zero i inputs files = tt
spawn_all-Opens (suc n) i inputs files = (λ c e. cc, spawn_all-Opens n (i + 1) inputs files)

-- When each entry of the offer and its destination are sound and the transfer returns success, every
-- state that the receiver holds has the id of an entry of the offer, the length of that entry and a
-- valid layout, and chunks whose hashes give the entry's root.
pub transfer-AllReceived :
    (setup : Setup) (free : World → Bool) (first : Body) (o : ManifestOffer) (inputs : ℕ → Bytes)
    (schedule : List ℕ) (files : List (ℕ × FileState)) (bytes : ℕ)
    → All (Sound setup o) o.files
    → transfer setup free first (Control.offer o) inputs schedule ≡ ok (some (files, ok bytes))
    → AllReceived setup.blake3 o.files files
unfolding transfer conclude
transfer-AllReceived setup free first o inputs schedule files bytes sound e =
    let ((n, a), e1, f1) = >>=-eq-ok (handshake setup first (Control.offer o)) _ e in
    let promised = Promised setup.blake3 o.files in
    let s =
      run_schedule-Steady promised (session_of setup free a) (start a) (spawn_all n 0 inputs)
        schedule
        (record {
          valid = handshake-AllValid setup first o n a sound e1;
          committed = handshake-Committed setup first o n a sound e1;
          opens = spawn_all-Opens n 0 inputs a.files;
        }) in
    conclude_if-AllReceived setup.blake3 o.files _ _ s.valid s.committed (ok_inj f1)
