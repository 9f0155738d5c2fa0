-- ===== src/Core/Offer/Promises.antt =====
-- What the receiver holds of a file is what an entry of the offer committed to.
use speeed.Base.{
  ℕ, ◌≡◌, refl, sym, ap, ◌∙◌, ◌⊎◌, inl, inr, ◌==◌, ==_iff, Bool-cases, List, [], ◌∷◌, All, ok,
  >>=-eq-ok, ok_inj, map_err, map_err-eq-ok,
}
use speeed.Base.Bytes.{Bytes}
use speeed.Proto.Errors.{add_u64, mul_u64}
use speeed.Proto.Chunk.{ChunkLayout}
use speeed.Proto.Hashes.{Hash, root_from_chunk_hashes}
use speeed.Proto.Chunk.Layout.{new-IsValid}
use speeed.Core.Control.{FileEntry, ManifestOffer, Body}
use speeed.Core.Control
use speeed.Core.Recv.{FileState}
use speeed.Core.Recv.Unchanged.{Committed}
use speeed.Core.Offer.{
  Setup, quiet, insert, Accepting, create, choose_bitmap, key_of, prepare, check_entry,
  accept_entry, accept_entries, check_hello, handshake, nothing_yet,
}
use speeed.Core.Offer.Valid.{check_entry-Checked}
use speeed.Core.Offer.Accepts.{Sound}

abbrev pub IsIn : FileEntry → List FileEntry → Type 0
IsIn entry [] = ⊥
IsIn entry (e ∷ es) = (e ≡ entry) ⊎ IsIn entry es

-- An entry of the offer has this id and this size, and its root is the root of these hashes.
pub record Promised (blake3 : Bytes → Hash) (entries : List FileEntry) (id : ℕ)
    (layout : ChunkLayout) (hashes : List Hash) : Type 0 where
  pub entry : FileEntry
  pub offered : IsIn entry entries
  pub same_id : entry.file_id ≡ id
  pub same_size : layout.file_size ≡ entry.size_bytes
  pub same_root : root_from_chunk_hashes blake3 hashes ≡ entry.root_hash

module _ (setup : Setup) (o : ManifestOffer) where
  abbrev KeptPromises : Accepting → Type 0
  KeptPromises a = Committed (Promised setup.blake3 o.files) a.files

  insert-Committed :
      (P : ℕ → ChunkLayout → List Hash → Type 0) (files : List (ℕ × FileState)) (id : ℕ)
      (st : FileState)
      → Committed P files
      → P id st.layout st.chunk_hashes
      → Committed P (insert files id st)
  insert-Committed P [] id st c p = (p, tt)
  insert-Committed P ((k, old) ∷ files) id st c p = elim (Bool-cases (k == id)) [
    | inl here ↦
        let mine : P k st.layout st.chunk_hashes = rw ((==_iff k id).0 here) p in
        rw here (mine, c.1)
    | inr there ↦ rw there (c.0, insert-Committed P files id st c.1 p)
  ]

  -- What `prepare` keeps of the layout and the hashes.
  prepare-offer :
      (entry : FileEntry) (path : Bytes) (layout : ChunkLayout) (hashes : List Hash)
      {st : FileState}
      → prepare setup o entry path layout hashes ≡ ok st
      → (st.layout ≡ layout) × (st.chunk_hashes ≡ hashes)
  unfolding prepare
  prepare-offer entry path layout hashes e =
      let place = setup.place path in
      let key = key_of (root_from_chunk_hashes setup.blake3 hashes) o entry in
      let (content, _, f1) = >>=-eq-ok (create setup.disk place.existing entry.size_bytes) _ e in
      let (bitmap, _, f2) = >>=-eq-ok (choose_bitmap setup place content key layout hashes) _ f1 in
      (ap (λ s. s.layout) (sym (ok_inj f2)), ap (λ s. s.chunk_hashes) (sym (ok_inj f2)))

  accept_entry-Committed :
      (entry : FileEntry) (a a' : Accepting)
      → Sound setup o entry
      → IsIn entry o.files
      → KeptPromises a
      → accept_entry setup o entry a ≡ ok a'
      → KeptPromises a'
  unfolding accept_entry
  accept_entry-Committed entry a a' sound offered v e =
      let ((path, layout, hashes), e1, f1) =
        >>=-eq-ok (check_entry setup o entry a.seen_paths) _ e in
      let (st, e2, f2) =
        >>=-eq-ok (map_err quiet (prepare setup o entry path layout hashes)) _ f1 in
      let (there, _, f3) = >>=-eq-ok (mul_u64 st.bitmap.set_count o.chunk_size) _ f2 in
      let (resumed, _, f4) = >>=-eq-ok (add_u64 a.resumed_bytes there) _ f3 in
      let (total, _, f5) = >>=-eq-ok (add_u64 a.total_bytes entry.size_bytes) _ f4 in
      let c = check_entry-Checked setup o entry a.seen_paths e1 in
      let (own_layout, own_hashes) =
        prepare-offer entry path layout hashes
          (map_err-eq-ok quiet (prepare setup o entry path layout hashes) e2) in
      let (_, size_is, _, _) = new-IsValid entry.size_bytes o.chunk_size sound.sized c.cut in
      let promised : Promised setup.blake3 o.files entry.file_id st.layout st.chunk_hashes =
        record {
          entry = entry;
          offered = offered;
          same_id = refl;
          same_size = ap (λ l. l.file_size) own_layout ∙ size_is;
          same_root = ap (root_from_chunk_hashes setup.blake3) own_hashes ∙ sym c.committed;
        } in
      rw (← ap (λ t. t.files) (ok_inj f5))
        (insert-Committed (Promised setup.blake3 o.files) a.files entry.file_id st v promised)

  pub accept_entries-Committed :
      (entries : List FileEntry) (a a' : Accepting)
      → All (Sound setup o) entries
      → ((entry : FileEntry) → IsIn entry entries → IsIn entry o.files)
      → KeptPromises a
      → accept_entries setup o entries a ≡ ok a'
      → KeptPromises a'
  unfolding accept_entries
  accept_entries-Committed [] a a' sound inside v e = rw (← ap (λ t. t.files) (ok_inj e)) v
  accept_entries-Committed (entry ∷ entries) a a' sound inside v e =
      let (b, e1, f1) = >>=-eq-ok (accept_entry setup o entry a) _ e in
      accept_entries-Committed entries b a' sound.1 (λ x i. inside x (inr i))
        (accept_entry-Committed entry a b sound.0 (inside entry (inl refl)) v e1) f1

-- After the handshake the receiver holds no file that the offer did not announce.
pub handshake-Committed :
    (setup : Setup) (first : Body) (o : ManifestOffer) (n : ℕ) (a : Accepting)
    → All (Sound setup o) o.files
    → handshake setup first (Control.offer o) ≡ ok (n, a)
    → Committed (Promised setup.blake3 o.files) a.files
unfolding handshake
handshake-Committed setup first o n a sound e =
    let (count, _, f1) = >>=-eq-ok (check_hello setup.config first) _ e in
    let (found, e2, f2) = >>=-eq-ok (accept_entries setup o o.files nothing_yet) _ f1 in
    let same : found ≡ a = ap (λ t. t.1) (ok_inj f2) in
    rw (← same) (accept_entries-Committed setup o o.files nothing_yet found sound (λ x i. i) tt e2)
