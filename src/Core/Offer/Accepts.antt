-- ===== src/Core/Offer/Accepts.antt =====
-- The states that an accepted offer leaves to the data streams.
use speeed.Base.{
  ℕ, ◌^◌, ◌<◌, ◌≡◌, sym, ap, ◌∙◌, inl, inr, ◌==◌, ==_iff, Bool-cases, Option, some, List, [], ◌∷◌,
  length, All, arith, ok, >>=-eq-ok, ok_inj, map_err, map_err-eq-ok,
}
use speeed.Base.Bytes.{Bytes}
use speeed.Proto.Errors.{add_u64, mul_u64}
use speeed.Proto.Chunk
use speeed.Proto.Chunk.{ChunkLayout}
use speeed.Proto.Chunk.Layout.{new-IsValid}
use speeed.Proto.Hashes.{Hash, root_from_chunk_hashes}
use speeed.Proto.Bitmap.{ChunkBitmap}
use speeed.Proto.Manifest.{sanitize_relative_path}
use speeed.Core.Control
use speeed.Core.Control.{FileEntry, ManifestOffer, Body}
use speeed.Core.Platform.{Disk}
use speeed.Core.Platform.Preallocate.{preallocate-keeps, preallocate-zero}
use speeed.Core.Recv.{FileState}
use speeed.Core.Recv.Preserved.{IsValid, AllValid}
use speeed.Core.Offer.{
  Setup, quiet, insert, Accepting, opened, create, recorded, choose_bitmap, key_of, prepare,
  check_entry, accept_entry, accept_entries, nothing_yet, check_hello, handshake,
}
use speeed.Core.Offer.Valid.{Checked, check_entry-Checked, Honest, choose_bitmap-Honest}

-- What is asked of an entry and of the destination it names: its size is a u64, a file of no bytes
-- does not replace one that has some, and a record that `load` accepts is honest.
pub record Sound (setup : Setup) (o : ManifestOffer) (entry : FileEntry) : Type 0 where
  pub sized : entry.size_bytes < 2 ^ 64
  pub vacant :
      (path : Bytes)
      → sanitize_relative_path entry.relative_path ≡ ok path
      → entry.size_bytes ≡ 0
      → length (opened (setup.place path).existing) ≡ 0
  pub honest :
      (path content : Bytes) (layout : ChunkLayout) (hashes : List Hash) (b : ChunkBitmap)
      → Chunk.new entry.size_bytes o.chunk_size ≡ ok layout
      → create setup.disk (setup.place path).existing entry.size_bytes ≡ ok content
      → length hashes ≡ layout.count
      → recorded setup
          (setup.place path)
          content
          (key_of (root_from_chunk_hashes setup.blake3 hashes) o entry)
        ≡ some b
      → Honest setup.blake3 layout hashes content b

-- The file has the length that was asked for.
create-length :
    (disk : Disk) (existing : Option Bytes) (size : ℕ) {content : Bytes}
    → (size ≡ 0 → length (opened existing) ≡ 0)
    → create disk existing size ≡ ok content
    → length content ≡ size
create-length disk existing size vacant e = elim (Bool-cases (size == 0)) [
  | inl nothing ↦
      let zero : size ≡ 0 = (==_iff size 0).0 nothing in
      ap length (sym (preallocate-zero disk (opened existing) size zero e)) ∙ vacant zero ∙ sym zero
  | inr something ↦ (preallocate-keeps disk (opened existing) size e (ground arith)).0
]

prepare-IsValid :
    (setup : Setup) (o : ManifestOffer) (entry : FileEntry) (seen_paths : List Bytes) (path : Bytes)
    (layout : ChunkLayout) (hashes : List Hash) {st : FileState}
    → Sound setup o entry
    → Checked setup o entry seen_paths path layout hashes
    → prepare setup o entry path layout hashes ≡ ok st
    → IsValid setup.blake3 st
unfolding prepare
prepare-IsValid setup o entry seen_paths path layout hashes sound c e =
    let place = setup.place path in
    let key = key_of (root_from_chunk_hashes setup.blake3 hashes) o entry in
    let (content, e1, f1) = >>=-eq-ok (create setup.disk place.existing entry.size_bytes) _ e in
    let (bitmap, e2, f2) = >>=-eq-ok (choose_bitmap setup place content key layout hashes) _ f1 in
    let (v, size_is, _, _) = new-IsValid entry.size_bytes o.chunk_size sound.sized c.cut in
    let sized : length content ≡ layout.file_size =
      create-length setup.disk place.existing entry.size_bytes (sound.vacant path c.safe) e1
      ∙ sym size_is in
    let kept : (b : ChunkBitmap)
        → recorded setup place content key ≡ some b
        → Honest setup.blake3 layout hashes content b =
      λ b r. sound.honest path content layout hashes b c.cut e1 c.counted r in
    let honest : Honest setup.blake3 layout hashes content bitmap =
      choose_bitmap-Honest setup layout hashes content v sized c.counted place key bitmap kept e2 in
    rw (← ok_inj f2) (record {
      geometry = v;
      sized = sized;
      bitmap = honest.valid;
      counted = honest.counted;
      hashed = c.counted;
      verified = honest.verified;
      recorded = λ b r. (kept b r).verified;
    })

insert-AllValid :
    (blake3 : Bytes → Hash) (files : List (ℕ × FileState)) (id : ℕ) (st : FileState)
    → AllValid blake3 files
    → IsValid blake3 st
    → AllValid blake3 (insert files id st)
insert-AllValid blake3 [] id st a v = (v, tt)
insert-AllValid blake3 ((k, old) ∷ files) id st a v = elim (Bool-cases (k == id)) [
  | inl here ↦ rw here (v, a.1)
  | inr there ↦ rw there (a.0, insert-AllValid blake3 files id st a.1 v)
]

accept_entry-AllValid :
    (setup : Setup) (o : ManifestOffer) (entry : FileEntry) (a a' : Accepting)
    → Sound setup o entry
    → AllValid setup.blake3 a.files
    → accept_entry setup o entry a ≡ ok a'
    → AllValid setup.blake3 a'.files
unfolding accept_entry
accept_entry-AllValid setup o entry a a' sound v e =
    let ((path, layout, hashes), e1, f1) = >>=-eq-ok (check_entry setup o entry a.seen_paths) _ e in
    let (st, e2, f2) = >>=-eq-ok (map_err quiet (prepare setup o entry path layout hashes)) _ f1 in
    let (there, _, f3) = >>=-eq-ok (mul_u64 st.bitmap.set_count o.chunk_size) _ f2 in
    let (resumed, _, f4) = >>=-eq-ok (add_u64 a.resumed_bytes there) _ f3 in
    let (total, _, f5) = >>=-eq-ok (add_u64 a.total_bytes entry.size_bytes) _ f4 in
    let c = check_entry-Checked setup o entry a.seen_paths e1 in
    let w : IsValid setup.blake3 st =
      prepare-IsValid setup o entry a.seen_paths path layout hashes sound c
        (map_err-eq-ok quiet (prepare setup o entry path layout hashes) e2) in
    rw (← ap (λ t. t.files) (ok_inj f5)) (insert-AllValid setup.blake3 a.files entry.file_id st v w)

accept_entries-AllValid :
    (setup : Setup) (o : ManifestOffer) (entries : List FileEntry) (a a' : Accepting)
    → All (Sound setup o) entries
    → AllValid setup.blake3 a.files
    → accept_entries setup o entries a ≡ ok a'
    → AllValid setup.blake3 a'.files
unfolding accept_entries
accept_entries-AllValid setup o [] a a' sound v e = rw (← ap (λ t. t.files) (ok_inj e)) v
accept_entries-AllValid setup o (entry ∷ entries) a a' sound v e =
    let (b, e1, f1) = >>=-eq-ok (accept_entry setup o entry a) _ e in
    accept_entries-AllValid setup o entries b a' sound.1
      (accept_entry-AllValid setup o entry a b sound.0 v e1) f1

-- When the hello and the offer are accepted, and each entry of the offer and its destination are
-- sound, every file starts in a valid state: its layout is the one of the offer, its file has its
-- length, and the chunks that are taken to be there, whether by a record, by hashing the file or not
-- at all, have the hashes that were offered.
pub handshake-AllValid :
    (setup : Setup) (first : Body) (o : ManifestOffer) (n : ℕ) (a : Accepting)
    → All (Sound setup o) o.files
    → handshake setup first (Control.offer o) ≡ ok (n, a)
    → AllValid setup.blake3 a.files
unfolding handshake
handshake-AllValid setup first o n a sound e =
    let (count, _, f1) = >>=-eq-ok (check_hello setup.config first) _ e in
    let (found, e2, f2) = >>=-eq-ok (accept_entries setup o o.files nothing_yet) _ f1 in
    let same : found ≡ a = ap (λ t. t.1) (ok_inj f2) in
    rw (← same) (accept_entries-AllValid setup o o.files nothing_yet found sound tt e2)
