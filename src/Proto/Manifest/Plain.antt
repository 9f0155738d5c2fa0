-- ===== src/Proto/Manifest/Plain.antt =====
-- core/crates/aetherlink-proto/src/manifest.rs: a path that needs no change.
use speeed.Base.{◌≡◌, refl, [], ◌∷◌, ok}
use speeed.Base.Bytes.{Bytes}
use speeed.Proto.Manifest.{
  sanitize_relative_path, check_raw, check_component, collect, split, join, has_byte, has_control,
  is_reserved_device_name, stem, any_eq, eq_ignore_ascii_case, ends_badly,
}

abbrev pub plain : Bytes
plain = b'a' ∷ []

pub plain_passes : sanitize_relative_path plain ≡ ok plain
unfolding sanitize_relative_path check_raw check_component collect split join has_byte has_control
    is_reserved_device_name stem any_eq eq_ignore_ascii_case ends_badly
plain_passes = refl
