-- ===== src/Proto/Manifest/Validate.antt =====
-- What `validate` accepts.
use speeed.Base.{
  ℕ, ◌≤◌, ◌≡◌, ◌↔◌, refl, false, ltb, List, [], ◌∷◌, length, arith, ok, >>=-eq-ok, ok_inj,
  refuse_if, refuse_if-eq-ok, le→ltb_false,
}
use speeed.Base.Bytes.{Bytes}
use speeed.Proto.Errors.{duplicate_file_id, duplicate_path}
use speeed.Proto.Chunk
use speeed.Proto.Chunk.{ChunkLayout}
use speeed.Proto.Manifest.{
  FileMetadata, Manifest, validate, validate_files, sanitize_relative_path, has_id, has_path,
  max_files_per_manifest,
}

-- The paths are those that the gate gives for the files, one for each file and in their order.
abbrev pub Sanitized : List FileMetadata → List Bytes → Type 0
Sanitized [] [] = Unit
Sanitized [] (p ∷ ps) = ⊥
Sanitized (f ∷ fs) [] = ⊥
Sanitized (f ∷ fs) (p ∷ ps) = (sanitize_relative_path f.relative_path ≡ ok p) × Sanitized fs ps

-- No id stands twice, and none of them is in `seen`.
abbrev pub FreshIds : List ℕ → List FileMetadata → Type 0
FreshIds seen [] = Unit
FreshIds seen (f ∷ fs) = (has_id f.file_id seen ≡ false) × FreshIds (f.file_id ∷ seen) fs

abbrev pub FreshPaths : List Bytes → List Bytes → Type 0
FreshPaths seen [] = Unit
FreshPaths seen (p ∷ ps) = (has_path p seen ≡ false) × FreshPaths (p ∷ seen) ps

validate_files_sound :
    (ids : List ℕ) (paths : List Bytes) (fs : List FileMetadata) {out : List Bytes}
    → validate_files ids paths fs ≡ ok out
    → Sanitized fs out × FreshIds ids fs × FreshPaths paths out
unfolding validate_files
validate_files_sound ids paths [] e = rw (← ok_inj e) (tt, tt, tt)
validate_files_sound ids paths (f ∷ fs) e =
    let (_, e1, f1) =
      >>=-eq-ok (refuse_if (has_id f.file_id ids) (duplicate_file_id f.file_id)) _ e in
    let (path, e2, f2) = >>=-eq-ok (sanitize_relative_path f.relative_path) _ f1 in
    let (_, e3, f3) = >>=-eq-ok (refuse_if (has_path path paths) (duplicate_path path)) _ f2 in
    let (rest, e4, f4) = >>=-eq-ok (validate_files (f.file_id ∷ ids) (path ∷ paths) fs) _ f3 in
    let (names, fresh, apart) = validate_files_sound (f.file_id ∷ ids) (path ∷ paths) fs e4 in
    rw (← ok_inj f4) ((e2, names), (refuse_if-eq-ok _ _ e1, fresh), (refuse_if-eq-ok _ _ e3, apart))

validate_files_complete :
    (ids : List ℕ) (paths : List Bytes) (fs : List FileMetadata) (out : List Bytes)
    → Sanitized fs out
    → FreshIds ids fs
    → FreshPaths paths out
    → validate_files ids paths fs ≡ ok out
unfolding validate_files
validate_files_complete ids paths [] [] s i p = refl
validate_files_complete ids paths [] (o ∷ out) s i p = absurd s
validate_files_complete ids paths (f ∷ fs) [] s i p = absurd s
validate_files_complete ids paths (f ∷ fs) (o ∷ out) s i p = rw (i.0) (
    rw (s.0) (
      rw (p.0)
        (rw (validate_files_complete (f.file_id ∷ ids) (o ∷ paths) fs out s.1 i.1 p.1) refl)))

-- `validate` returns `paths` exactly when there are at most 20,000 files, the chunk size is one that
-- `ChunkLayout::new` accepts, the paths are the sanitized paths of the files in their order, no file
-- id occurs twice and no sanitized path occurs twice.
pub validate_iff :
    (m : Manifest) (paths : List Bytes)
    → (validate m ≡ ok paths) ↔ (
        (length m.files ≤ max_files_per_manifest)
        × ((l : ChunkLayout) × (Chunk.new 0 m.chunk_size ≡ ok l))
        × Sanitized m.files paths
        × FreshIds [] m.files
        × FreshPaths [] paths)
unfolding validate
validate_iff m paths = (
  λ e.
      let (_, e1, f1) = >>=-eq-ok (refuse_if (ltb max_files_per_manifest (length m.files)) _) _ e in
      let (l, e2, f2) = >>=-eq-ok (Chunk.new 0 m.chunk_size) _ f1 in
      let (names, fresh, apart) = validate_files_sound [] [] m.files f2 in
      let few = refuse_if-eq-ok (ltb max_files_per_manifest (length m.files)) _ e1 in
      (ground (arith, few), (l, e2), names, fresh, apart),
  λ h.
      rw (le→ltb_false max_files_per_manifest (length m.files) h.0)
        (rw h.1.1 (validate_files_complete [] [] m.files paths h.2 h.3 h.4)),
)
