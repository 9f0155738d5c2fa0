-- ===== src/Proto/Manifest.antt =====
-- core/crates/aetherlink-proto/src/manifest.rs: what the sender offers, and the gate that a path of
-- the peer passes. A `String` is the list of its UTF-8 bytes, as its `len` counts them.
pub mod Plain
pub mod Paths
pub mod Validate
mod Tests
use speeed.Base.{
  ℕ, ◌+◌, ◌≤◌, Bool, true, false, not, ◌&&◌, ◌||◌, ltb, leb, ◌==◌, if◌then◌else◌, Option, none,
  some, List, [], ◌∷◌, ◌++◌, map, length, get_elem?, get_last?, get_or, Result, ok, err, ◌>>=◌,
  ◌>>◌, refuse_if,
}
use speeed.Base.Bytes.{Bytes, bytes_eq}
use speeed.Proto.Errors.{
  Error, Reason, unsafe_path, manifest_too_large, duplicate_file_id, duplicate_path, add_u64, empty,
  exceeds_maximum_length, nul_byte, control_character, backslash_separator, is_absolute,
  drive_letter, parent_directory_traversal, over_long_component, ends_in_dot_or_space,
  reserved_device_name, resolves_to_nothing,
}
use speeed.Proto.Chunk
use speeed.Proto.Chunk.{ChunkLayout}

abbrev pub max_component_len : ℕ
max_component_len = 255

abbrev pub max_path_len : ℕ
max_path_len = 1024

abbrev pub max_files_per_manifest : ℕ
max_files_per_manifest = 20000

-- The times are the 64 bits of an i64; no code of this crate computes with them.
pub record FileMetadata : Type 0 where
  pub file_id : ℕ
  pub relative_path : Bytes
  pub size_bytes : ℕ
  pub mime_type : Bytes
  pub root_hash : Bytes
  pub modified_unix_ms : ℕ
  pub created_unix_ms : ℕ

abbrev pub layout : FileMetadata → ℕ → Result Error ChunkLayout
layout f chunk_size = Chunk.new f.size_bytes chunk_size

pub record Manifest : Type 0 where
  pub session_id : Bytes
  pub chunk_size : ℕ
  pub files : List FileMetadata

sum_sizes : List FileMetadata → ℕ → Result Error ℕ
sum_sizes [] total = ok total
sum_sizes (f ∷ files) total = do total' ← add_u64 total f.size_bytes; sum_sizes files total'

unfoldable pub total_bytes : Manifest → Result Error ℕ
unfolding sum_sizes
total_bytes m = sum_sizes m.files 0

find_file : List FileMetadata → ℕ → Option FileMetadata
find_file [] file_id = none
find_file (f ∷ files) file_id =
    let rest = find_file files file_id in if f.file_id == file_id then some f else rest

unfoldable pub file : Manifest → ℕ → Option FileMetadata
unfolding find_file
file m file_id = find_file m.files file_id

-- Whether a byte is in a string: `contains` of an ASCII character.
pub has_byte : ℕ → Bytes → Bool
has_byte b [] = false
has_byte b (c ∷ cs) = c == b || has_byte b cs

-- `char::is_control`: U+0000 to U+001F, U+007F, and U+0080 to U+009F, which begin with 0xC2.
pub has_control : Bytes → Bool
has_control [] = false
has_control (c ∷ cs) =
    let next = get_or cs 0 0 in
    ltb c 32 || c == 127 || (c == 0xc2 && leb 128 next && leb next 159) || has_control cs

-- `split('/')`: one piece more than there are separators.
abbrev pub push_front : ℕ → List Bytes → List Bytes
push_front c [] = (c ∷ []) ∷ []
push_front c (p ∷ ps) = (c ∷ p) ∷ ps

unfoldable pub split : Bytes → List Bytes
split [] = [] ∷ []
split (c ∷ cs) = let rest = split cs in if c == b'/' then [] ∷ rest else push_front c rest

-- `join("/")`
unfoldable pub join : List Bytes → Bytes
join [] = []
join (p ∷ []) = p
join (p ∷ q ∷ ps) = p ++ b'/' ∷ join (q ∷ ps)

-- `component.split('.').next()`
stem : Bytes → Bytes
stem [] = []
stem (c ∷ cs) = let rest = stem cs in if c == b'.' then [] else c ∷ rest

abbrev to_ascii_lowercase : ℕ → ℕ
to_ascii_lowercase c = if leb b'A' c && leb c b'Z' then c + 32 else c

eq_ignore_ascii_case : Bytes → Bytes → Bool
eq_ignore_ascii_case a b = bytes_eq (map to_ascii_lowercase a) (map to_ascii_lowercase b)

any_eq : List Bytes → Bytes → Bool
unfolding eq_ignore_ascii_case
any_eq [] name = false
any_eq (r ∷ rs) name = eq_ignore_ascii_case r name || any_eq rs name

-- COM1 to COM9 and LPT1 to LPT9 stand behind the four other names.
abbrev numbered : ℕ → ℕ → ℕ → List Bytes
numbered a b c =
    map (λ d. a ∷ b ∷ c ∷ d ∷ [])
      (b'1' ∷ b'2' ∷ b'3' ∷ b'4' ∷ b'5' ∷ b'6' ∷ b'7' ∷ b'8' ∷ b'9' ∷ [])

abbrev reserved : List Bytes
reserved =
    (b'C' ∷ b'O' ∷ b'N' ∷ [])
    ∷ (b'P' ∷ b'R' ∷ b'N' ∷ [])
    ∷ (b'A' ∷ b'U' ∷ b'X' ∷ [])
    ∷ (b'N' ∷ b'U' ∷ b'L' ∷ [])
    ∷ (numbered b'C' b'O' b'M' ++ numbered b'L' b'P' b'T')

unfoldable pub is_reserved_device_name : Bytes → Bool
unfolding stem any_eq
is_reserved_device_name component = any_eq reserved (stem component)

abbrev pub dot : Bytes
dot = b'.' ∷ []

abbrev pub dot_dot : Bytes
dot_dot = b'.' ∷ b'.' ∷ []

-- The arm `"" | "."`.
abbrev pub is_skipped : Bytes → Bool
is_skipped c = bytes_eq c [] || bytes_eq c dot

pub ends_badly : Option ℕ → Bool
ends_badly none = false
ends_badly (some b) = b == b'.' || b == b' '

-- The tests of the last arm.
unfoldable pub check_component : Bytes → Bytes → Result Error (Unit {0})
unfolding ends_badly
check_component raw c = do
  refuse_if (ltb max_component_len (length c)) (unsafe_path raw over_long_component)
  refuse_if (ends_badly (get_last? c)) (unsafe_path raw ends_in_dot_or_space)
  refuse_if (is_reserved_device_name c) (unsafe_path raw reserved_device_name)

-- The loop over the components: the parts that are pushed, or the first error.
pub collect : Bytes → List Bytes → Result Error (List Bytes)
collect raw [] = ok []
collect raw (c ∷ cs) =
    let rest = collect raw cs in
    if is_skipped c
    then rest
    else if bytes_eq c dot_dot
    then err (unsafe_path raw parent_directory_traversal)
    else do check_component raw c; parts ← rest; ok (c ∷ parts)

-- The tests on the whole of the raw path.
pub check_raw : Bytes → Result Error (Unit {0})
check_raw raw = do
  refuse_if (length raw == 0) (unsafe_path raw empty)
  refuse_if (ltb max_path_len (length raw)) (unsafe_path raw exceeds_maximum_length)
  refuse_if (has_byte 0 raw) (unsafe_path raw nul_byte)
  refuse_if (has_control raw) (unsafe_path raw control_character)
  refuse_if (has_byte b'\\' raw) (unsafe_path raw backslash_separator)
  refuse_if (get_or raw 0 0 == b'/') (unsafe_path raw is_absolute)
  refuse_if (leb 2 (length raw) && get_or raw 1 0 == b':') (unsafe_path raw drive_letter)

pub sanitize_relative_path : Bytes → Result Error Bytes
sanitize_relative_path raw = do
  check_raw raw
  parts ← collect raw (split raw)
  refuse_if (length parts == 0) (unsafe_path raw resolves_to_nothing)
  ok (join parts)

-- `insert` on a set that has the element returns false.
abbrev pub has_id : ℕ → List ℕ → Bool
has_id i [] = false
has_id i (j ∷ js) = i == j || has_id i js

abbrev pub has_path : Bytes → List Bytes → Bool
has_path p [] = false
has_path p (q ∷ qs) = bytes_eq p q || has_path p qs

-- The loop of `validate`, with the ids and the paths that were seen.
pub validate_files : List ℕ → List Bytes → List FileMetadata → Result Error (List Bytes)
validate_files seen_ids seen_paths [] = ok []
validate_files seen_ids seen_paths (f ∷ files) = do
  refuse_if (has_id f.file_id seen_ids) (duplicate_file_id f.file_id)
  path ← sanitize_relative_path f.relative_path
  refuse_if (has_path path seen_paths) (duplicate_path path)
  sanitized ← validate_files (f.file_id ∷ seen_ids) (path ∷ seen_paths) files
  ok (path ∷ sanitized)

unfoldable pub validate : Manifest → Result Error (List Bytes)
validate m = do
  refuse_if (ltb max_files_per_manifest (length m.files)) (manifest_too_large (length m.files))
  _ ← Chunk.new 0 m.chunk_size
  validate_files [] [] m.files
