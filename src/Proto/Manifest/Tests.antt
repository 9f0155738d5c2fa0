-- ===== src/Proto/Manifest/Tests.antt =====
-- core/crates/aetherlink-proto/src/manifest.rs: the theorems at concrete inputs.
use speeed.Base.{◌≤◌, ◌≡◌, ◌↔◌, refl, true, [], ◌∷◌, All, ok, err}
use speeed.Base.Bytes.{Bytes}
use speeed.Proto.Errors.{unsafe_path, drive_letter}
use speeed.Proto.Chunk
use speeed.Proto.Chunk.{ChunkLayout}
use speeed.Proto.Manifest.{
  Manifest, sanitize_relative_path, check_raw, check_component, collect, split, join, has_byte,
  has_control, is_reserved_device_name, stem, any_eq, eq_ignore_ascii_case, ends_badly, validate,
  max_files_per_manifest,
}
use speeed.Proto.Manifest.Paths.{IsComponent, walk, descend, sanitize-descend}
use speeed.Proto.Manifest.Validate.{Sanitized, FreshIds, FreshPaths, validate_iff}

-- a//b/./c.txt
abbrev messy : Bytes
messy = b'a' ∷ b'/' ∷ b'/' ∷ b'b' ∷ b'/' ∷ b'.' ∷ b'/' ∷ b'c' ∷ b'.' ∷ b't' ∷ b'x' ∷ b't' ∷ []

-- a/b/c.txt
abbrev tidy : Bytes
tidy = b'a' ∷ b'/' ∷ b'b' ∷ b'/' ∷ b'c' ∷ b'.' ∷ b't' ∷ b'x' ∷ b't' ∷ []

messy_passes : sanitize_relative_path messy ≡ ok tidy
unfolding sanitize_relative_path check_raw check_component collect split join has_byte has_control
    is_reserved_device_name stem any_eq eq_ignore_ascii_case ends_badly
messy_passes = refl

-- A drive letter is only looked for at the start of the raw path: ./C:/x passes as C:/x, which does
-- not pass itself.
drive_letter_passes :
    sanitize_relative_path (b'.' ∷ b'/' ∷ b'C' ∷ b':' ∷ b'/' ∷ b'x' ∷ [])
    ≡ ok (b'C' ∷ b':' ∷ b'/' ∷ b'x' ∷ [])
unfolding sanitize_relative_path check_raw check_component collect split join has_byte has_control
    is_reserved_device_name stem any_eq eq_ignore_ascii_case ends_badly
drive_letter_passes = refl

drive_letter_refused :
    sanitize_relative_path (b'C' ∷ b':' ∷ b'/' ∷ b'x' ∷ [])
    ≡ err (unsafe_path (b'C' ∷ b':' ∷ b'/' ∷ b'x' ∷ []) drive_letter)
unfolding sanitize_relative_path check_raw has_byte has_control
drive_letter_refused = refl

-- dir/NUL.dat
reserved_refused :
    is_reserved_device_name (b'N' ∷ b'u' ∷ b'L' ∷ b'.' ∷ b'd' ∷ b'a' ∷ b't' ∷ []) ≡ true
unfolding is_reserved_device_name stem any_eq eq_ignore_ascii_case
reserved_refused = refl

sanitize-descend_example :
    All IsComponent (split tidy)
    × (walk ((b'd' ∷ []) ∷ []) (split tidy) ≡ descend ((b'd' ∷ []) ∷ []) (split tidy))
    × (walk ((b'd' ∷ []) ∷ []) (split messy) ≡ walk ((b'd' ∷ []) ∷ []) (split tidy))
sanitize-descend_example = sanitize-descend messy tidy messy_passes ((b'd' ∷ []) ∷ [])

abbrev one_file : Manifest
one_file = record {
  session_id = [];
  chunk_size = 65536;
  files =
      record {
        file_id = 1;
        relative_path = messy;
        size_bytes = 1024;
        mime_type = [];
        root_hash = [];
        modified_unix_ms = 0;
        created_unix_ms = 0;
      }
      ∷ [];
}

validate_iff_example : (validate one_file ≡ ok (tidy ∷ [])) ↔ (
    (1 ≤ max_files_per_manifest)
    × ((l : ChunkLayout) × (Chunk.new 0 65536 ≡ ok l))
    × Sanitized one_file.files (tidy ∷ [])
    × FreshIds [] one_file.files
    × FreshPaths [] (tidy ∷ []))
validate_iff_example = validate_iff one_file (tidy ∷ [])
