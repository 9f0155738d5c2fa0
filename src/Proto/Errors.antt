-- ===== src/Proto/Errors.antt =====
-- core/crates/aetherlink-proto/src/lib.rs: the errors of the crate, and its checked arithmetic.
use speeed.Base.{
  ℕ, ◌+◌, ◌-◌, ◌*◌, ◌^◌, ◌<◌, ◌≤◌, ◌≡◌, arith, leb, ltb, if◌then◌else◌, Result, ok, panic,
}
use speeed.Base.Bytes.{Bytes}

-- The texts that `sanitize_relative_path` gives as its reason.
pub data Reason : Type 0 where
  empty exceeds_maximum_length nul_byte control_character backslash_separator : Reason
  is_absolute drive_letter parent_directory_traversal over_long_component : Reason
  ends_in_dot_or_space reserved_device_name resolves_to_nothing : Reason

pub data Error : Type 0 where
  short_header : ℕ → Error
  bad_magic : ℕ → Error
  unsupported_version : ℕ → Error
  unknown_message_type : ℕ → Error
  unknown_flags : ℕ → Error
  reserved_not_zero : Error
  frame_too_large : ℕ → Error
  keepalive_with_payload : ℕ → Error
  invalid_chunk_size : ℕ → Error
  chunk_out_of_range : ℕ → ℕ → Error
  offset_out_of_range : ℕ → ℕ → Error
  chunk_hash_conflict : ℕ → Error
  bitmap_length_mismatch : ℕ → ℕ → Error
  bitmap_padding_set : Error
  manifest_too_large : ℕ → Error
  duplicate_file_id : ℕ → Error
  duplicate_path : Bytes → Error
  unsafe_path : Bytes → Reason → Error

-- `+`, `*` and `-` on u64. An overflow is a panic (a release build would wrap around).
module _ {ℓ} {E : Type ℓ} where
  abbrev pub add_u64 : ℕ → ℕ → Result E ℕ
  add_u64 a b = if ltb (a + b) (2 ^ 64) then ok (a + b) else panic

  abbrev pub mul_u64 : ℕ → ℕ → Result E ℕ
  mul_u64 a b = if ltb (a * b) (2 ^ 64) then ok (a * b) else panic

  abbrev pub sub_u64 : ℕ → ℕ → Result E ℕ
  sub_u64 a b = if leb b a then ok (a - b) else panic

  pub add_u64_fits : (a b : ℕ) → a + b < 2 ^ 64 → add_u64 a b ≡ ok (a + b)
  add_u64_fits a b h = ground arith

  pub mul_u64_fits : (a b : ℕ) → a * b < 2 ^ 64 → mul_u64 a b ≡ ok (a * b)
  mul_u64_fits a b h = ground arith

  pub sub_u64_fits : (a b : ℕ) → b ≤ a → sub_u64 a b ≡ ok (a - b)
  sub_u64_fits a b h = ground arith
