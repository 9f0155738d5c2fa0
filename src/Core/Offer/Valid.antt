-- ===== src/Core/Offer/Valid.antt =====
-- Every file that is accepted starts in a valid state.
use speeed.Base.{
  le→ltb_false, ℕ, zero, suc, ◌*◌, ◌≤◌, ◌≡◌, refl, sym, ap, ◌∙◌, inl, inr, Bool, true, false, not,
  ltb, ◌==◌, Bool-cases, Option, none, some, List, length, get_elem?, arith, ok, >>=-eq-ok, ok_inj,
  map_err, map_err-eq-ok, refuse_if, refuse_if-eq-ok,
}
use speeed.Base.Bytes.{Bytes, bytes_eq, bytes_eq→eq, bytes_eq_refl}
use speeed.Proto.Chunk
use speeed.Proto.Chunk.{ChunkLayout}
use speeed.Proto.Chunk.Layout
use speeed.Proto.Chunk.Layout.{new-IsValid}
use speeed.Proto.Hashes.{Hash, root_from_chunk_hashes}
use speeed.Proto.Bitmap
use speeed.Proto.Bitmap.{ChunkBitmap, get, as_bytes}
use speeed.Proto.Bitmap.Invariant
use speeed.Proto.Bitmap.Parse
use speeed.Proto.Manifest.{sanitize_relative_path}
use speeed.Core.Errors.{wire, protocol, same_path, above_maximum, root_does_not_match}
use speeed.Core.Control.{FileEntry, ManifestOffer}
use speeed.Core.Resume.{StateKey, rebuild_by_verification}
use speeed.Core.Resume.Rebuild.{has_hash, get-new, new-count, rebuild_by_verification-is_there}
use speeed.Core.Recv.{split_hashes, chunks_of_32}
use speeed.Core.Recv.Verified.{Verified}
use speeed.Core.Offer.{
  Setup, Place, told, quiet, seen, recorded, rebuilt, chosen, choose_bitmap, check_entry,
}

-- What passed the tests on an entry.
pub record Checked (setup : Setup) (o : ManifestOffer) (entry : FileEntry) (seen_paths : List Bytes)
    (path : Bytes) (layout : ChunkLayout) (hashes : List Hash) : Type 0 where
  pub safe : sanitize_relative_path entry.relative_path ≡ ok path
  pub fresh : seen seen_paths path ≡ false
  pub cut : Chunk.new entry.size_bytes o.chunk_size ≡ ok layout
  pub small : entry.size_bytes ≤ setup.config.max_file_bytes
  pub counted : length hashes ≡ layout.count
  pub committed : entry.root_hash ≡ root_from_chunk_hashes setup.blake3 hashes

not-true : (b : Bool) → not b ≡ false → b ≡ true
not-true true e = refl
not-true false e = cc

length-chunks_of_32 : (n : ℕ) (bytes : Bytes) → length (chunks_of_32 n bytes) ≡ n
length-chunks_of_32 zero bytes = refl
length-chunks_of_32 (suc n) bytes = ap suc (length-chunks_of_32 n _)

split_hashes-count :
    (bytes : Bytes) (count : ℕ) {hashes : List Hash}
    → split_hashes bytes count ≡ ok hashes
    → length hashes ≡ count
unfolding split_hashes
split_hashes-count bytes count e =
    let (_, _, f) = >>=-eq-ok (refuse_if (not (length bytes == count * 32)) _) _ e in
    ap length (sym (ok_inj f)) ∙ length-chunks_of_32 count bytes

pub check_entry-Checked :
    (setup : Setup) (o : ManifestOffer) (entry : FileEntry) (seen_paths : List Bytes) {path : Bytes}
    {layout : ChunkLayout} {hashes : List Hash}
    → check_entry setup o entry seen_paths ≡ ok (path, layout, hashes)
    → Checked setup o entry seen_paths path layout hashes
unfolding check_entry
check_entry-Checked setup o entry seen_paths e =
    let (p, e1, f1) =
      >>=-eq-ok (map_err (λ x. told (wire x)) (sanitize_relative_path entry.relative_path)) _ e in
    let (_, e2, f2) =
      >>=-eq-ok (refuse_if (seen seen_paths p) (told (protocol (same_path p)))) _ f1 in
    let (l, e3, f3) =
      >>=-eq-ok (map_err (λ x. quiet (wire x)) (Chunk.new entry.size_bytes o.chunk_size)) _ f2 in
    let (_, e4, f4) =
      >>=-eq-ok
        (refuse_if (ltb setup.config.max_file_bytes entry.size_bytes)
          (told (protocol (above_maximum entry.size_bytes))))
        _ f3 in
    let (hs, e5, f5) = >>=-eq-ok (map_err quiet (split_hashes entry.chunk_hashes l.count)) _ f4 in
    let differs = not (bytes_eq entry.root_hash (root_from_chunk_hashes setup.blake3 hs)) in
    let (_, e6, f6) =
      >>=-eq-ok (refuse_if differs (told (protocol (root_does_not_match p)))) _ f5 in
    let small : entry.size_bytes ≤ setup.config.max_file_bytes =
      let inside = refuse_if-eq-ok (ltb setup.config.max_file_bytes entry.size_bytes) _ e4 in
      ground arith in
    let found : Checked setup o entry seen_paths p l hs = record {
      safe = map_err-eq-ok _ (sanitize_relative_path entry.relative_path) e1;
      fresh = refuse_if-eq-ok (seen seen_paths p) _ e2;
      cut = map_err-eq-ok _ (Chunk.new entry.size_bytes o.chunk_size) e3;
      small = small;
      counted = split_hashes-count entry.chunk_hashes l.count (map_err-eq-ok quiet _ e5);
      committed =
          bytes_eq→eq entry.root_hash _
            (not-true (bytes_eq entry.root_hash _) (refuse_if-eq-ok differs _ e6));
    } in
    let same = ok_inj f6 in
    rw (← ap (λ t. t.0) same, ← ap (λ t. t.1) same, ← ap (λ t. t.2) same) found

-- What passes the tests on an entry is accepted.
pub check_entry_passes :
    (setup : Setup) (o : ManifestOffer) (entry : FileEntry) (seen_paths : List Bytes) (path : Bytes)
    (layout : ChunkLayout) (hashes : List Hash)
    → sanitize_relative_path entry.relative_path ≡ ok path
    → seen seen_paths path ≡ false
    → Chunk.new entry.size_bytes o.chunk_size ≡ ok layout
    → entry.size_bytes ≤ setup.config.max_file_bytes
    → split_hashes entry.chunk_hashes layout.count ≡ ok hashes
    → entry.root_hash ≡ root_from_chunk_hashes setup.blake3 hashes
    → check_entry setup o entry seen_paths ≡ ok (path, layout, hashes)
unfolding check_entry
check_entry_passes setup o entry seen_paths path layout hashes safe fresh cut small split root =
    let same : bytes_eq entry.root_hash (root_from_chunk_hashes setup.blake3 hashes) ≡ true =
      ap (λ t. bytes_eq entry.root_hash t) (sym root) ∙ bytes_eq_refl entry.root_hash in
    rw
      (
        safe,
        fresh,
        cut,
        le→ltb_false setup.config.max_file_bytes entry.size_bytes small,
        split,
        same,
      )
      refl

-- A record beside a file that is accepted for it describes what is there. (Each checkpoint of a
-- session leaves such a record, as long as nobody else writes to the two files.)
pub record Honest (blake3 : Bytes → Hash) (layout : ChunkLayout) (hashes : List Hash)
    (content : Bytes) (b : ChunkBitmap) : Type 0 where
  pub valid : Invariant.IsValid b
  pub counted : b.count ≡ layout.count
  pub verified : Verified blake3 layout hashes content b

has_hash-eq :
    (found : Option Hash) (actual : Hash) → has_hash found actual ≡ true → found ≡ some actual
has_hash-eq none actual e = cc
has_hash-eq (some expected) actual e = ap some (sym (bytes_eq→eq actual expected e))

module _ (setup : Setup) (layout : ChunkLayout) (hashes : List Hash) (content : Bytes)
    (v : Layout.IsValid layout) (sized : length content ≡ layout.file_size)
    (hashed : length hashes ≡ layout.count) where
  pub new-Honest : Honest setup.blake3 layout hashes content (Bitmap.new layout.count)
  new-Honest = record {
    valid = Parse.new-IsValid layout.count;
    counted = new-count layout.count;
    verified = λ i h e. cc (e, get-new layout.count i h);
  }

  rebuild_by_verification-Honest :
      (b : ChunkBitmap)
      → rebuild_by_verification setup.blake3 content layout hashes ≡ ok b
      → Honest setup.blake3 layout hashes content b
  rebuild_by_verification-Honest b e =
      let (b', e', w, count, marks) =
        rebuild_by_verification-is_there setup.blake3 content layout hashes v sized hashed in
      let same : b' ≡ b = ok_inj (sym e' ∙ e) in
      rw (← same) (record {
        valid = w;
        counted = count;
        verified =
            λ i h is_set. has_hash-eq (get_elem? hashes i) _ (ok_inj (sym (marks i h) ∙ is_set));
      })

  rebuilt-Honest :
      (existing : Option Bytes) (b : ChunkBitmap)
      → rebuilt setup existing content layout hashes ≡ ok b
      → Honest setup.blake3 layout hashes content b
  rebuilt-Honest none b e = rw (← ok_inj e) new-Honest
  rebuilt-Honest (some old) b e = rebuild_by_verification-Honest b e

  chosen-Honest :
      (found : Option ChunkBitmap) (existing : Option Bytes) (b : ChunkBitmap)
      → ((r : ChunkBitmap) → found ≡ some r → Honest setup.blake3 layout hashes content r)
      → chosen setup found existing content layout hashes ≡ ok b
      → Honest setup.blake3 layout hashes content b
  chosen-Honest none existing b h e = rebuilt-Honest existing b e
  chosen-Honest (some r) existing b h e = rw (← ok_inj e) (h r refl)

  pub choose_bitmap-Honest :
      (place : Place) (key : StateKey) (b : ChunkBitmap)
      → ((r : ChunkBitmap)
          → recorded setup place content key ≡ some r
          → Honest setup.blake3 layout hashes content r)
      → choose_bitmap setup place content key layout hashes ≡ ok b
      → Honest setup.blake3 layout hashes content b
  unfolding choose_bitmap
  choose_bitmap-Honest place key b h e = elim (Bool-cases setup.config.resume) [
    | inl on ↦ chosen-Honest (recorded setup place content key) place.existing b h (rw on at e)
    | inr off ↦ rw (← ok_inj (rw off at e)) new-Honest
  ]
