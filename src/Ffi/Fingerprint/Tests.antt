-- ===== src/Ffi/Fingerprint/Tests.antt =====
-- The theorems on fingerprints at concrete inputs.
use speeed.Base.{◌≡◌, refl, ◌∷◌, replicate, All, arith, ok}
use speeed.Base.Bits.{IsByte}
use speeed.Base.Bytes.{Bytes}
use speeed.Ffi.Fingerprint.{
  fingerprint_hex, parse_fingerprint, parse_from, from_str_radix, to_digit,
}
use speeed.Ffi.Fingerprint.RoundTrip.{parse_fingerprint-fingerprint_hex}

abbrev pin : Bytes
pin = replicate 32 171

pin_bytes : All IsByte pin
pin_bytes = ground arith

parse_fingerprint-fingerprint_hex_example : parse_fingerprint (fingerprint_hex pin) ≡ ok pin
parse_fingerprint-fingerprint_hex_example = parse_fingerprint-fingerprint_hex pin pin_bytes refl

-- 64 characters that are not all hex digits: a plus sign passes.
abbrev with_plus : Bytes
with_plus = b'+' ∷ b'f' ∷ replicate 62 b'0'

plus_passes : parse_fingerprint with_plus ≡ ok (15 ∷ replicate 31 0)
unfolding parse_fingerprint parse_from from_str_radix to_digit
plus_passes = refl
