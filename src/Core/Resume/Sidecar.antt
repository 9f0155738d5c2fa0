-- ===== src/Core/Resume/Sidecar.antt =====
-- The record on disk is read back for its own file, and for no other.
use speeed.Base.{
  ℕ, ◌+◌, ◌-◌, ◌^◌, ◌≤◌, ◌<◌, ◌≡◌, sym, ap, ◌∙◌, Bool, false, ◌&&◌, ltb, ◌==◌, if◌then◌else◌,
  Option, none, some, ◌++◌, length, length-append, take, take-append, drop, drop-append, arith, ok,
  le→ltb_false,
}
use speeed.Base.Bytes.{
  Bytes, from_le_bytes, from_le_bytes-to_le_bytes, slice, bytes_eq, bytes_eq_refl,
}
use speeed.Proto.Hashes.{Hash}
use speeed.Proto.Hashes.Root.{IsHash}
use speeed.Proto.Bitmap.{ChunkBitmap, from_bytes}
use speeed.Proto.Bitmap.Invariant
use speeed.Proto.Bitmap.Parse.{from_bytes-as_bytes}
use speeed.Core.Resume.{StateKey, header_len, record_body, persist, load, load_body, accept}

-- The widths of the fields.
pub record Fits (key : StateKey) (b : ChunkBitmap) : Type 0 where
  pub root_hash : IsHash key.root_hash
  pub file_size : key.file_size < 2 ^ 64
  pub chunk_size : key.chunk_size < 2 ^ 32
  pub count : b.count + 7 < 2 ^ 64

-- Both describe one file.
abbrev pub same_key : StateKey → StateKey → Bool
same_key a b =
    a.chunk_size == b.chunk_size && (a.file_size == b.file_size && bytes_eq a.root_hash b.root_hash)

abbrev pub is_long : Option ℕ → ℕ → Bool
is_long none n = false
is_long (some len) n = len == n

accept-same_key :
    (staging_len : Option ℕ) (key key' : StateKey) (b : ChunkBitmap)
    → from_bytes b.bits b.count ≡ ok b
    → accept key b.count b.bits staging_len key'
      ≡ (if same_key key key' && is_long staging_len key.file_size then some b else none)
unfolding accept
accept-same_key none key key' b e = ground arith
accept-same_key (some len) key key' b e = rw e (ground arith)

load_body-record_body :
    (staging_len : Option ℕ) (key key' : StateKey) (b : ChunkBitmap)
    → Fits key b
    → load_body staging_len key' (record_body key b) ≡ accept key b.count b.bits staging_len key'
unfolding load_body record_body
load_body-record_body staging_len key key' b f =
    let size : from_le_bytes (slice (record_body key b) 8 12) ≡ key.chunk_size =
      from_le_bytes-to_le_bytes 4 key.chunk_size (omega (arith, f.chunk_size)) in
    let count : from_le_bytes (slice (record_body key b) 12 20) ≡ b.count =
      from_le_bytes-to_le_bytes 8 b.count (omega (arith, f.count)) in
    let long : from_le_bytes (slice (record_body key b) 20 28) ≡ key.file_size =
      from_le_bytes-to_le_bytes 8 key.file_size (omega (arith, f.file_size)) in
    let hash : slice (record_body key b) 28 60 ≡ key.root_hash =
      ap (λ n. take n (key.root_hash ++ b.bits)) (sym f.root_hash)
      ∙ take-append key.root_hash b.bits in
    let bits : drop header_len (record_body key b) ≡ b.bits =
      ap (λ n. drop n (key.root_hash ++ b.bits)) (sym f.root_hash)
      ∙ drop-append key.root_hash b.bits in
    λ i.
      accept (record { root_hash = hash i; file_size = long i; chunk_size = size i }) (count i)
        (bits i) staging_len key'

length-record_body :
    (key : StateKey) (b : ChunkBitmap) → Fits key b → header_len ≤ length (record_body key b)
unfolding record_body
length-record_body key b f = omega (arith, f.root_hash, length-append key.root_hash b.bits)

-- The record that `persist` writes for a valid bitmap is loaded as that bitmap when the key that is
-- asked for is its own and the staging file still has its length; for each other key, and for each
-- other length or none, nothing is loaded. BLAKE3 gives 32 bytes, and the fields fit their widths.
pub load-persist :
    (blake3 : Bytes → Hash) (staging_len : Option ℕ) (key key' : StateKey) (b : ChunkBitmap)
    → ((bytes : Bytes) → IsHash (blake3 bytes))
    → Invariant.IsValid b
    → Fits key b
    → load blake3 (some (persist blake3 key b)) staging_len key'
      ≡ (if same_key key key' && is_long staging_len key.file_size then some b else none)
unfolding load persist
load-persist blake3 staging_len key key' b hashes v f =
    let body = record_body key b in
    let sum = blake3 body in
    let cut : length (body ++ sum) - 32 ≡ length body =
      omega (arith, length-append body sum, hashes body) in
    let front : take (length (body ++ sum) - 32) (body ++ sum) ≡ body =
      ap (λ n. take n (body ++ sum)) cut ∙ take-append body sum in
    let back : drop (length (body ++ sum) - 32) (body ++ sum) ≡ sum =
      ap (λ n. drop n (body ++ sum)) cut ∙ drop-append body sum in
    let long : ltb (length (body ++ sum)) (header_len + 32) ≡ false =
      le→ltb_false _ _
        (omega (arith, length-append body sum, hashes body, length-record_body key b f)) in
    rw (long, front, back, bytes_eq_refl sum)
      (load_body-record_body staging_len key key' b f
        ∙ accept-same_key staging_len key key' b (from_bytes-as_bytes b v f.count))
