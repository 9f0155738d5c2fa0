-- ===== src/Core/Delivery/Lands.antt =====
-- From the files of the sender to the directory of the receiver.
use speeed.Base.{
  ℕ, ◌≡◌, ◌⊎◌, refl, sym, ap, ◌∙◌, inl, inr, Option, some, List, [], ◌∷◌, get_elem?, All, arith,
  Bool, Result, ok, >>=-eq-ok,
}
use speeed.Base.Bytes.{Bytes}
use speeed.Proto.Hashes.Root.{IsHash}
use speeed.Proto.Manifest.{sanitize_relative_path}
use speeed.Core.Errors.{CoreError}
use speeed.Core.Config.{Config}
use speeed.Core.Control
use speeed.Core.Control.{FileEntry, ManifestOffer, Body}
use speeed.Core.Source.{SourceFile}
use speeed.Core.Send.Announce.{OutgoingFile, announce_from, entries_of}
use speeed.Core.Recv.{FileState, World, get_state}
use speeed.Core.Resume.Names.{
  Directory, find, Change, writes, persists, discards, run, only_writes, IsClear, Spares, find-run,
}
use speeed.Core.Offer.{
  Setup, Accepting, check_entry, accept_entry, accept_entries, check_hello, handshake, nothing_yet,
}
use speeed.Core.Offer.Valid.{check_entry-Checked}
use speeed.Core.Offer.Accepts.{Sound}
use speeed.Core.Offer.Promises.{IsIn}
use speeed.Core.Transfer.{transfer}
use speeed.Core.Delivery.Chunks.{Collision}
use speeed.Core.Delivery.Origin.{IsSized, announce_from-IsIn}
use speeed.Core.Delivery.Delivers.{transfer-Carries}

-- The path of a file of the offer.
abbrev pub IsDestination : List FileEntry → Bytes → Type 0
IsDestination entries path =
    (entry : FileEntry) × IsIn entry entries
    × (sanitize_relative_path entry.relative_path ≡ ok path)

-- No file of the offer has the name of a record of another: not `x.aether_state` nor `x.tmp` for an `x`
-- that is offered.
abbrev pub Apart : List FileEntry → Type 0
Apart entries =
    (staging path : Bytes)
    → IsDestination entries staging
    → IsDestination entries path
    → IsClear staging path

-- A record that changes is that of a file of the offer.
abbrev pub IsOf : List FileEntry → Change → Type 0
IsOf entries (writes path content) = Unit {0}
IsOf entries (persists staging buf) = IsDestination entries staging
IsOf entries (discards staging) = IsDestination entries staging

-- The directory has at the path of each entry the content that its state has.
abbrev pub Agrees : List FileEntry → List (ℕ × FileState) → Directory → Type 0
Agrees entries files d =
    (entry : FileEntry) (path : Bytes) (st : FileState)
    → IsIn entry entries
    → sanitize_relative_path entry.relative_path ≡ ok path
    → get_state files entry.file_id ≡ some st
    → find d path ≡ some st.content

-- Each file of the sender is in the directory, at its path without what `sanitize` drops of it, and with
-- its content.
abbrev pub Delivers : List OutgoingFile → Directory → Type 0
Delivers fs d =
    (k : ℕ) (f : OutgoingFile)
    → get_elem? fs k ≡ some f
    → (path : Bytes) × (content : Bytes) × (sanitize_relative_path f.relative_path ≡ ok path)
      × (f.content ≡ some content)
      × (find d path ≡ some content)

module _ (setup : Setup) (o : ManifestOffer) where
  accept_entry-Named :
      (entry : FileEntry) (a a' : Accepting)
      → accept_entry setup o entry a ≡ ok a'
      → (path : Bytes) × (sanitize_relative_path entry.relative_path ≡ ok path)
  unfolding accept_entry
  accept_entry-Named entry a a' e =
      let ((path, layout, hashes), e1, _) =
        >>=-eq-ok (check_entry setup o entry a.seen_paths) _ e in
      (path, (check_entry-Checked setup o entry a.seen_paths e1).safe)

  accept_entries-Named :
      (entries : List FileEntry) (a a' : Accepting) (entry : FileEntry)
      → accept_entries setup o entries a ≡ ok a'
      → IsIn entry entries
      → (path : Bytes) × (sanitize_relative_path entry.relative_path ≡ ok path)
  unfolding accept_entries
  accept_entries-Named [] a a' entry e is = absurd is
  accept_entries-Named (first ∷ entries) a a' entry e is =
      let (a1, e1, f1) = >>=-eq-ok (accept_entry setup o first a) _ e in
      elim is [
        | inl here ↦ rw (← here) (accept_entry-Named first a a1 e1)
        | inr there ↦ accept_entries-Named entries a1 a' entry f1 there
      ]

transfer-Named :
    (setup : Setup) (free : World → Bool) (first : Body) (o : ManifestOffer) (inputs : ℕ → Bytes)
    (schedule : List ℕ) (entry : FileEntry)
    {outcome : Option (List (ℕ × FileState) × Result CoreError ℕ)}
    → transfer setup free first (Control.offer o) inputs schedule ≡ ok outcome
    → IsIn entry o.files
    → (path : Bytes) × (sanitize_relative_path entry.relative_path ≡ ok path)
unfolding transfer handshake
transfer-Named setup free first o inputs schedule entry e is =
    let (_, e1, _) = >>=-eq-ok (handshake setup first (Control.offer o)) _ e in
    let (_, _, g1) = >>=-eq-ok (check_hello setup.config first) _ e1 in
    let (a, e2, _) = >>=-eq-ok (accept_entries setup o o.files nothing_yet) _ g1 in
    accept_entries-Named setup o o.files nothing_yet a entry e2 is

Apart-Spares :
    (entries : List FileEntry) (path : Bytes) (cs : List Change)
    → Apart entries
    → IsDestination entries path
    → All (IsOf entries) cs
    → All (Spares path) cs
Apart-Spares entries path [] apart is a = tt
Apart-Spares entries path (writes other content ∷ cs) apart is a =
    (tt, Apart-Spares entries path cs apart is a.1)
Apart-Spares entries path (persists staging buf ∷ cs) apart is a =
    (apart staging path a.0 is, Apart-Spares entries path cs apart is a.1)
Apart-Spares entries path (discards staging ∷ cs) apart is a =
    (apart staging path a.0 is, Apart-Spares entries path cs apart is a.1)

-- What is sent is what arrives. The sender announces its files, each of a length that is a u64, and
-- the receiver is given that offer, in which no file has the name of a record of another. Whatever
-- arrives on the data streams and in whatever order the workers take their turns, let each entry and
-- its destination be sound and the transfer return success; and let the directory go through writes of
-- files, and through records of offered files that are persisted and discarded, in any order, so that
-- the writes alone would leave each file with the content that its state has. Then each file of the
-- sender is in the directory, at its sanitized path and with its content, byte for byte; or else there
-- are two different byte strings with one BLAKE3 hash. (BLAKE3 gives 32 bytes.)
pub transfer-Delivers :
    (setup : Setup) (config : Config) (raw : Option ℕ) (fs : List OutgoingFile)
    (announced : List (SourceFile × FileEntry)) (free : World → Bool) (first : Body)
    (o : ManifestOffer) (inputs : ℕ → Bytes) (schedule : List ℕ) (files : List (ℕ × FileState))
    (bytes : ℕ) (cs : List Change) (d : Directory)
    → ((bytes : Bytes) → IsHash (setup.blake3 bytes))
    → All IsSized fs
    → announce_from setup.blake3 config raw 0 fs ≡ ok announced
    → o.files ≡ entries_of announced
    → All (Sound setup o) o.files
    → Apart o.files
    → transfer setup free first (Control.offer o) inputs schedule ≡ ok (some (files, ok bytes))
    → All (IsOf o.files) cs
    → Agrees o.files files (run (only_writes cs) d)
    → Delivers fs (run cs d) ⊎ Collision setup.blake3
transfer-Delivers setup config raw fs announced free first o inputs schedule files bytes cs d hash
      small e offered sound apart done own agrees =
    elim (transfer-Carries setup config raw fs announced free first o inputs schedule files bytes
      hash small e offered sound done) [
        | inr found ↦ inr found
        | inl carries ↦ inl λ k f at.
            let (st, here, content) = carries k f at in
            let (entry, is, number, named) =
              announce_from-IsIn setup.blake3 config raw 0 fs announced k e at in
            let among : IsIn entry o.files = rw (← offered) at is in
            let (path, passes) =
              transfer-Named setup free first o inputs schedule entry done among in
            let same : entry.file_id ≡ k = omega (arith, number) in
            let state : get_state files entry.file_id ≡ some st =
              ap (get_state files) same ∙ here in
            let spares = Apart-Spares o.files path cs apart (entry, among, passes) own in
            (
              path,
              st.content,
              ap sanitize_relative_path (sym named) ∙ passes,
              content,
              find-run cs path d d spares refl ∙ agrees entry path st among passes state,
            )
      ]
