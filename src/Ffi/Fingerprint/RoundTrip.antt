-- ===== src/Ffi/Fingerprint/RoundTrip.antt =====
-- What the host publishes is what the client pins.
use speeed.Base.{
  some_inj, ℕ, zero, suc, ◌+◌, ◌*◌, ◌/◌, ◌%◌, ◌<◌, ◌≡◌, refl, ap, inl, inr, true, false, not, ◌||◌,
  ◌==◌, some, [], ◌∷◌, length, get_or, All, arith, ok, >>=-eq-ok, ok_inj, refuse_if,
  refuse_if-eq-ok, Bool-cases, Option-cases,
}
use speeed.Base.Bits.{IsByte}
use speeed.Base.Bytes.{Bytes}
use speeed.Ffi.Fingerprint.{
  bad_length, hex_digit, fingerprint_hex, to_digit, from_str_radix, is_char_boundary, parse_from,
  parse_fingerprint,
}

to_digit-hex_digit : (d : ℕ) → d < 16 → to_digit (hex_digit d) ≡ some d
unfolding to_digit
to_digit-hex_digit d h = ground arith

hex_digit-not_plus : (d : ℕ) → d < 16 → (hex_digit d == b'+') ≡ false
hex_digit-not_plus d h = ground arith

hex_digit-is_char_boundary : (d : ℕ) → d < 16 → is_char_boundary (hex_digit d) ≡ true
hex_digit-is_char_boundary d h = ground arith

from_str_radix-hex_digit :
    (b : ℕ) → IsByte b → from_str_radix (hex_digit (b / 16)) (hex_digit (b % 16)) ≡ some b
unfolding from_str_radix
from_str_radix-hex_digit b h =
    rw
      (
        hex_digit-not_plus (b / 16) (omega arith),
        to_digit-hex_digit (b / 16) (omega arith),
        to_digit-hex_digit (b % 16) (omega arith),
      )
      (ap some (omega arith))

length-fingerprint_hex : (bytes : Bytes) → length (fingerprint_hex bytes) ≡ 2 * length bytes
unfolding fingerprint_hex
length-fingerprint_hex [] = refl
length-fingerprint_hex (b ∷ bs) = omega (arith, length-fingerprint_hex bs)

head_is_boundary :
    (bytes : Bytes)
    → All IsByte bytes
    → is_char_boundary (get_or (fingerprint_hex bytes) 0 0) ≡ true
unfolding fingerprint_hex
head_is_boundary [] a = refl
head_is_boundary (b ∷ bs) a =
    hex_digit-is_char_boundary (b / 16) (let q : b < 256 = a.0 in omega arith)

parse_from-fingerprint_hex :
    (i : ℕ) (bytes : Bytes) → All IsByte bytes → parse_from i (fingerprint_hex bytes) ≡ ok bytes
unfolding parse_from fingerprint_hex
parse_from-fingerprint_hex i [] a = refl
parse_from-fingerprint_hex i (b ∷ bs) a =
    rw
      (
        hex_digit-is_char_boundary (b / 16) (let q : b < 256 = a.0 in omega arith),
        head_is_boundary bs a.1,
        from_str_radix-hex_digit b a.0,
        parse_from-fingerprint_hex (i + 2) bs a.1,
      )
      refl

-- The 32 bytes of a fingerprint are read back from the text that the host publishes.
pub parse_fingerprint-fingerprint_hex :
    (fingerprint : Bytes)
    → All IsByte fingerprint
    → length fingerprint ≡ 32
    → parse_fingerprint (fingerprint_hex fingerprint) ≡ ok fingerprint
unfolding parse_fingerprint
parse_fingerprint-fingerprint_hex fingerprint a h =
    rw (length-fingerprint_hex fingerprint, h) (parse_from-fingerprint_hex 0 fingerprint a)

to_digit-lt : (c : ℕ) {d : ℕ} → to_digit c ≡ some d → d < 16
unfolding to_digit
to_digit-lt c e = ground arith

from_str_radix-IsByte : (c d : ℕ) {b : ℕ} → from_str_radix c d ≡ some b → IsByte b
unfolding from_str_radix
from_str_radix-IsByte c d {b} e = elim (Bool-cases (c == b'+')) [
  | inl plus ↦ omega (arith, to_digit-lt d (rw plus at e))
  | inr other ↦ elim (Option-cases (to_digit c)) [
    | inl bad ↦ cc (rw (other, bad) at e)
    | inr (high, first) ↦ elim (Option-cases (to_digit d)) [
      | inl bad ↦ cc (rw (other, first, bad) at e)
      | inr (low, second) ↦
          let value : high * 16 + low ≡ b = some_inj (rw (other, first, second) at e) in
          omega (arith, to_digit-lt c first, to_digit-lt d second, value)
    ]
  ]
]

parse_from-bytes :
    (i n : ℕ) (hex : Bytes) {out : Bytes}
    → length hex ≡ 2 * n
    → parse_from i hex ≡ ok out
    → All IsByte out × (length out ≡ n)
unfolding parse_from
parse_from-bytes i zero [] l e = rw (← ok_inj e) (tt, refl)
parse_from-bytes i (suc n) [] l e = absurd (omega arith)
parse_from-bytes i n (c ∷ []) l e = cc
parse_from-bytes i zero (c ∷ d ∷ rest) l e = absurd (omega arith)
parse_from-bytes i (suc n) (c ∷ d ∷ rest) {out} l e =
    elim (Bool-cases (not (is_char_boundary c) || not (is_char_boundary (get_or rest 0 0)))) [
      | inl cut ↦ cc (rw cut at e)
      | inr whole ↦ elim (Option-cases (from_str_radix c d)) [
        | inl bad ↦ cc (rw (whole, bad) at e)
        | inr (byte, read) ↦
            let (bytes, rest_read, same) =
              >>=-eq-ok (parse_from (i + 2) rest) _ (rw (whole, read) at e) in
            let (all, count) = parse_from-bytes (i + 2) n rest (omega arith) rest_read in
            rw (← ok_inj same) ((from_str_radix-IsByte c d read, all), ap suc count)
      ]
    ]

-- What is accepted as a fingerprint is read from 64 characters, and is 32 bytes.
pub parse_fingerprint-bytes :
    (hex : Bytes) {out : Bytes}
    → parse_fingerprint hex ≡ ok out
    → (length hex ≡ 64) × All IsByte out × (length out ≡ 32)
unfolding parse_fingerprint
parse_fingerprint-bytes hex e =
    let (_, e1, e2) =
      >>=-eq-ok (refuse_if (not (length hex == 64)) (bad_length (length hex))) _ e in
    let no = refuse_if-eq-ok (not (length hex == 64)) _ e1 in
    let long : length hex ≡ 64 = ground (arith, no) in
    let (all, count) = parse_from-bytes 0 32 hex long e2 in (long, all, count)
