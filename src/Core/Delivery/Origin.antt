-- ===== src/Core/Delivery/Origin.antt =====
-- Each entry of an offer comes from a file of the sender, and its root is that of the file.
use speeed.Base.{
  some_inj, ℕ, zero, suc, ◌+◌, ◌^◌, ◌<◌, ◌≡◌, ◌≢◌, refl, sym, ap, ◌∙◌, inl, inr, Option, none, some,
  Option-cases, List, [], ◌∷◌, length, get_elem?, All, arith, ok, ok_inj, >>=-eq-ok,
}
use speeed.Base.Bytes.{Bytes}
use speeed.Proto.Chunk.{ChunkLayout}
use speeed.Proto.Chunk.Layout
use speeed.Proto.Chunk.Layout.{new-IsValid}
use speeed.Proto.Hashes.{Hash, root_from_chunk_hashes}
use speeed.Core.Config.{Config}
use speeed.Core.Control.{FileEntry}
use speeed.Core.Source.{SourceFile, open_source, chunk_hashes}
use speeed.Core.Source.Hashes.{hashes_of, chunk_hashes-hashes_of, opened_layout}
use speeed.Core.Send.Announce.{OutgoingFile, announce, announce_from, entries_of}
use speeed.Core.Offer.Promises.{IsIn}

-- The length of what is opened is a u64.
abbrev pub IsSized : OutgoingFile → Type 0
IsSized f = (c : Bytes) → f.content ≡ some c → length c < 2 ^ 64

-- An entry that announces a file.
pub record Announces (blake3 : Bytes → Hash) (i : ℕ) (f : OutgoingFile) (entry : FileEntry)
    : Type 0 where
  pub content : Bytes
  pub layout : ChunkLayout
  pub opened : f.content ≡ some content
  pub geometry : Layout.IsValid layout
  pub sized : length content ≡ layout.file_size
  pub same_id : entry.file_id ≡ i
  pub same_root :
      entry.root_hash
      ≡ root_from_chunk_hashes blake3 (hashes_of blake3 content layout layout.count 0)

open_source-none :
    (chunk_size : ℕ) (raw : Option ℕ) {src : SourceFile} → open_source none chunk_size raw ≢ ok src
unfolding open_source
open_source-none chunk_size raw e = cc

module _ (blake3 : Bytes → Hash) (config : Config) (raw : Option ℕ) where
  announce-Announces :
      (i : ℕ) (f : OutgoingFile) (src : SourceFile) (entry : FileEntry)
      → IsSized f
      → announce blake3 config raw i f ≡ ok (src, entry)
      → Announces blake3 i f entry
  unfolding announce
  announce-Announces i f src entry small e =
      let (src0, e1, f1) = >>=-eq-ok (open_source f.content config.chunk_size raw) _ e in
      let (hashes, e2, f2) = >>=-eq-ok (chunk_hashes blake3 src0 config.release_read_pages) _ f1 in
      let same : _ ≡ entry = ap (λ t. t.1) (ok_inj f2) in
      elim (Option-cases f.content) [
        | inl missing ↦ absurd (open_source-none config.chunk_size raw (rw missing at e1))
        | inr (content, is) ↦
            let opens : open_source (some content) config.chunk_size raw ≡ ok src0 = rw is at e1 in
            let (st, hashed, out) =
              chunk_hashes-hashes_of blake3 content config.chunk_size raw src0
                config.release_read_pages (small content is) opens in
            let (cut, long) =
              opened_layout content config.chunk_size raw src0 (small content is) opens in
            let (v, size_is, _, _) =
              new-IsValid (length content) config.chunk_size (small content is) cut in
            let mine : hashes ≡ st = ok_inj (sym e2 ∙ hashed) in
            record {
              content = content;
              layout = src0.layout;
              opened = is;
              geometry = v;
              sized = sym long;
              same_id = ap (λ t. t.file_id) (sym same);
              same_root =
                  ap (λ t. t.root_hash) (sym same)
                  ∙ ap (λ t. root_from_chunk_hashes blake3 t.out) mine
                  ∙ ap (root_from_chunk_hashes blake3) out;
            }
      ]

  -- The entries are those of the files, in their order and numbered from `i`.
  pub announce_from-Announces :
      (i : ℕ) (fs : List OutgoingFile) (announced : List (SourceFile × FileEntry))
      (entry : FileEntry)
      → All IsSized fs
      → announce_from blake3 config raw i fs ≡ ok announced
      → IsIn entry (entries_of announced)
      → (k : ℕ) × (f : OutgoingFile) × (get_elem? fs k ≡ some f) × Announces blake3 (i + k) f entry
  unfolding announce_from
  announce_from-Announces i [] announced entry small e is = absurd (rw (← ok_inj e) at is)
  announce_from-Announces i (f ∷ fs) announced entry small e is =
      let ((src, first), e1, f1) = >>=-eq-ok (announce blake3 config raw i f) _ e in
      let (rest, e2, f2) = >>=-eq-ok (announce_from blake3 config raw (i + 1) fs) _ f1 in
      let among : IsIn entry (first ∷ entries_of rest) = rw (← ok_inj f2) at is in
      elim among [
        | inl here ↦
            let at : i ≡ i + 0 = omega arith in
            let a = announce-Announces i f src first small.0 e1 in (0, f, refl, rw (← at, ← here) a)
        | inr there ↦
            let (k, g, found, a) = announce_from-Announces (i + 1) fs rest entry small.1 e2 there in
            let at : i + suc k ≡ i + 1 + k = omega arith in (suc k, g, found, rw at a)
      ]

  -- Each file has an entry with its number.
  pub announce_from-IsIn :
      (i : ℕ) (fs : List OutgoingFile) (announced : List (SourceFile × FileEntry)) (k : ℕ)
      {f : OutgoingFile}
      → announce_from blake3 config raw i fs ≡ ok announced
      → get_elem? fs k ≡ some f
      → (entry : FileEntry) × IsIn entry (entries_of announced)
        × (entry.file_id ≡ i + k)
        × (entry.relative_path ≡ f.relative_path)
  unfolding announce_from announce
  announce_from-IsIn i [] announced k e at = cc
  announce_from-IsIn i (own ∷ fs) announced zero {f} e at =
      let ((src, first), e1, f1) = >>=-eq-ok (announce blake3 config raw i own) _ e in
      let (rest, _, f2) = >>=-eq-ok (announce_from blake3 config raw (i + 1) fs) _ f1 in
      let (src0, _, g1) = >>=-eq-ok (open_source own.content config.chunk_size raw) _ e1 in
      let (hashes, _, g2) = >>=-eq-ok (chunk_hashes blake3 src0 config.release_read_pages) _ g1 in
      let number : i ≡ first.file_id = ap (λ t. t.1.file_id) (ok_inj g2) in
      let named : first.relative_path ≡ f.relative_path =
        ap (λ t. t.1.relative_path) (sym (ok_inj g2)) ∙ ap (λ t. t.relative_path) (some_inj at) in
      (first, rw (← ok_inj f2) (inl refl), omega (arith, number), named)
  announce_from-IsIn i (f ∷ fs) announced (suc k) e at =
      let ((src, first), _, f1) = >>=-eq-ok (announce blake3 config raw i f) _ e in
      let (rest, e2, f2) = >>=-eq-ok (announce_from blake3 config raw (i + 1) fs) _ f1 in
      let (entry, is, number, named) = announce_from-IsIn (i + 1) fs rest k e2 at in
      (entry, rw (← ok_inj f2) (inr is), omega (arith, number), named)
