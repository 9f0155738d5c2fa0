-- ===== src/Core/Delivery/Delivers.antt =====
-- From the files of the sender to the files of the receiver.
use speeed.Base.{
  some_inj, ℕ, zero, suc, ◌+◌, ◌≡◌, ◌⊎◌, refl, sym, ap, ◌∙◌, inl, inr, ◌==◌, ==_iff, Bool,
  Bool-cases, Option, none, some, List, [], ◌∷◌, get_elem?, All, arith, ok, ok_inj, >>=-eq-ok,
}
use speeed.Base.Bytes.{Bytes}
use speeed.Proto.Hashes
use speeed.Proto.Hashes.{Hash}
use speeed.Proto.Hashes.Root.{IsHash}
use speeed.Core.Errors.{CoreError}
use speeed.Core.Config.{Config}
use speeed.Core.Control
use speeed.Core.Control.{FileEntry, ManifestOffer, Body}
use speeed.Core.Source.{SourceFile}
use speeed.Core.Source.Hashes.{hashes_of}
use speeed.Core.Send.Announce.{OutgoingFile, announce_from, entries_of}
use speeed.Core.Recv.{FileState, World, get_state}
use speeed.Core.Recv.Complete.{hashes_from}
use speeed.Core.Offer.{Setup, check_hello, accept_entries, handshake, nothing_yet, start}
use speeed.Core.Offer.Accepts.{Sound, handshake-AllValid}
use speeed.Core.Offer.Promises.{Promised, IsIn, handshake-Committed}
use speeed.Core.Transfer.{
  complete_files, conclude_with, conclude_if, conclude, spawn_all, session_of, transfer,
}
use speeed.Core.Transfer.Turns.{run_schedule-SameLayouts}
use speeed.Core.Transfer.Ends.{
  Received, AllReceived, unit_of, spawn_all-Opens, transfer-AllReceived,
}
use speeed.Core.Delivery.Chunks.{Collision, same_root}
use speeed.Core.Delivery.Holds.{Holds, accept_entries-Holds, complete_files-Holds}
use speeed.Core.Delivery.Origin.{IsSized, announce_from-Announces, announce_from-IsIn}

hashes_from-hashes_of :
    (blake3 : Bytes → Hash) (st : FileState) (n i : ℕ)
    → hashes_from blake3 st n i ≡ hashes_of blake3 st.content st.layout n i
hashes_from-hashes_of blake3 st zero i = refl
hashes_from-hashes_of blake3 st (suc n) i =
    let next : suc i ≡ i + 1 = omega arith in cc (hashes_from-hashes_of blake3 st n (suc i), next)

-- The content of the file that the sender numbered `id`.
abbrev IsFrom : List OutgoingFile → ℕ × FileState → Type 0
IsFrom fs (id, st) = (f : OutgoingFile) × (get_elem? fs id ≡ some f) × (f.content ≡ some st.content)

-- Each file of the sender has a state, under its number and with its content.
abbrev pub Carries : List OutgoingFile → List (ℕ × FileState) → Type 0
Carries fs files =
    (k : ℕ) (f : OutgoingFile)
    → get_elem? fs k ≡ some f
    → (st : FileState) × (get_state files k ≡ some st) × (f.content ≡ some st.content)

module _ (blake3 : Bytes → Hash) (config : Config) (raw : Option ℕ) (fs : List OutgoingFile)
    (announced : List (SourceFile × FileEntry)) (hash : (bytes : Bytes) → IsHash (blake3 bytes))
    (small : All IsSized fs) (e : announce_from blake3 config raw 0 fs ≡ ok announced) where
  Received-IsFrom :
      (id : ℕ) (st : FileState)
      → Received blake3 (entries_of announced) id st
      → Collision blake3 ⊎ IsFrom fs (id, st)
  Received-IsFrom id st r =
      let (k, f, found, a) =
        announce_from-Announces blake3 config raw 0 fs announced r.entry small e r.offered in
      let number : k ≡ id = omega (arith, a.same_id, r.same_id) in
      elim (same_root blake3 a.content st.content hash a.geometry r.geometry a.sized r.sized (
        sym a.same_root
        ∙ sym r.same_root
        ∙ ap (Hashes.root_from_chunk_hashes blake3)
            (hashes_from-hashes_of blake3 st st.layout.count 0))) [
              | inr found_two ↦ inl found_two
              | inl same ↦ inr (f, rw number at found, a.opened ∙ ap some same)
            ]

  AllReceived-IsFrom :
      (files : List (ℕ × FileState))
      → AllReceived blake3 (entries_of announced) files
      → Collision blake3 ⊎ All (IsFrom fs) files
  AllReceived-IsFrom [] r = inr tt
  AllReceived-IsFrom ((id, st) ∷ files) r = elim (Received-IsFrom id st r.0) [
    | inl found ↦ inl found
    | inr here ↦ elim (AllReceived-IsFrom files r.1) [
      | inl found ↦ inl found
      | inr there ↦ inr (here, there)
    ]
  ]

get_state-IsFrom :
    (fs : List OutgoingFile) (files : List (ℕ × FileState)) (k : ℕ) {st : FileState}
    → All (IsFrom fs) files
    → get_state files k ≡ some st
    → IsFrom fs (k, st)
unfolding get_state
get_state-IsFrom fs [] k a at = cc
get_state-IsFrom fs ((j, own) ∷ files) k {st} a at = elim (Bool-cases (j == k)) [
  | inl here ↦
      let mine : own ≡ st = some_inj (rw here at at) in rw (← (==_iff j k).0 here, ← mine) a.0
  | inr there ↦ get_state-IsFrom fs files k a.1 (rw there at at)
]

conclude_with-Holds :
    (failure : Option CoreError) (w : World) (k : ℕ) {files : List (ℕ × FileState)} {bytes : ℕ}
    → conclude_with failure w ≡ (files, ok bytes)
    → Holds w.files k
    → Holds files k
conclude_with-Holds (some x) w k e h = cc
conclude_with-Holds none w k e h =
    let same : (complete_files w.files).0 ≡ _ = ap (λ t. t.0) e in
    rw (← same) (
      complete_files-Holds w.files k
        (unit_of (complete_files w.files).1 w.counter (ap (λ t. t.1) e)) h)

conclude_if-Holds :
    (failure : Option (Option CoreError)) (w : World) (k : ℕ) {files : List (ℕ × FileState)}
    {bytes : ℕ}
    → conclude_if failure w ≡ some (files, ok bytes)
    → Holds w.files k
    → Holds files k
conclude_if-Holds none w k e h = cc
conclude_if-Holds (some failure) w k e h = conclude_with-Holds failure w k (some_inj e) h

-- A transfer that ends well holds a state for each entry of the offer.
transfer-Holds :
    (setup : Setup) (free : World → Bool) (first : Body) (o : ManifestOffer) (inputs : ℕ → Bytes)
    (schedule : List ℕ) (files : List (ℕ × FileState)) (bytes : ℕ) (entry : FileEntry)
    → All (Sound setup o) o.files
    → transfer setup free first (Control.offer o) inputs schedule ≡ ok (some (files, ok bytes))
    → IsIn entry o.files
    → Holds files entry.file_id
unfolding transfer conclude handshake
transfer-Holds setup free first o inputs schedule files bytes entry sound e is =
    let ((n, a), e1, f1) = >>=-eq-ok (handshake setup first (Control.offer o)) _ e in
    let (n', _, g1) = >>=-eq-ok (check_hello setup.config first) _ e1 in
    let (a', e2, g2) = >>=-eq-ok (accept_entries setup o o.files nothing_yet) _ g1 in
    let same : a' ≡ a = ap (λ t. t.1) (ok_inj g2) in
    let opened : Holds a.files entry.file_id =
      rw (← same) ((accept_entries-Holds setup o o.files nothing_yet a' e2).0 entry is) in
    let layouts =
      run_schedule-SameLayouts (Promised setup.blake3 o.files) (session_of setup free a) (start a)
        (spawn_all n 0 inputs) schedule
        (record {
          valid = handshake-AllValid setup first o n a sound e1;
          committed = handshake-Committed setup first o n a sound e1;
          opens = spawn_all-Opens n 0 inputs a.files;
        }) in
    let (st, at, _) = layouts entry.file_id opened.0 opened.1 in
    conclude_if-Holds _ _ entry.file_id (ok_inj f1) (st, at)

-- When a transfer of what a sender announced ends well, the state of each file has its content; or two
-- different byte strings have one BLAKE3 hash.
pub transfer-Carries :
    (setup : Setup) (config : Config) (raw : Option ℕ) (fs : List OutgoingFile)
    (announced : List (SourceFile × FileEntry)) (free : World → Bool) (first : Body)
    (o : ManifestOffer) (inputs : ℕ → Bytes) (schedule : List ℕ) (files : List (ℕ × FileState))
    (bytes : ℕ)
    → ((bytes : Bytes) → IsHash (setup.blake3 bytes))
    → All IsSized fs
    → announce_from setup.blake3 config raw 0 fs ≡ ok announced
    → o.files ≡ entries_of announced
    → All (Sound setup o) o.files
    → transfer setup free first (Control.offer o) inputs schedule ≡ ok (some (files, ok bytes))
    → Carries fs files ⊎ Collision setup.blake3
transfer-Carries setup config raw fs announced free first o inputs schedule files bytes hash small e
      offered sound done =
    let received : AllReceived setup.blake3 (entries_of announced) files =
      rw offered at
        (transfer-AllReceived setup free first o inputs schedule files bytes sound done) in
    elim (AllReceived-IsFrom setup.blake3 config raw fs announced hash small e files received) [
      | inl found ↦ inr found
      | inr all ↦ inl λ k f at.
          let (entry, is, number, _) =
            announce_from-IsIn setup.blake3 config raw 0 fs announced k e at in
          let among : IsIn entry o.files = rw (← offered) at is in
          let (st, here) =
            transfer-Holds setup free first o inputs schedule files bytes entry sound done among in
          let mine : get_state files k ≡ some st =
            ap (get_state files) (let eq : k ≡ entry.file_id = omega (arith, number) in eq)
            ∙ here in
          let (g, found, content) = get_state-IsFrom fs files k all mine in
          let same : f ≡ g = some_inj (sym at ∙ found) in
          (st, mine, ap (λ t. t.content) same ∙ content)
    ]
