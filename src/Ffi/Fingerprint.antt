-- ===== src/Ffi/Fingerprint.antt =====
-- The fingerprint of a host as 64 hex characters: `fingerprint_hex` of
-- core/crates/aetherlink-core/src/tls.rs, and `parse_fingerprint` of
-- core/crates/aetherlink-ffi/src/lib.rs and core/crates/aetherlink-cli/src/main.rs.
pub mod RoundTrip
mod Tests
use speeed.Base.{
  ℕ, zero, suc, ◌+◌, ◌-◌, ◌*◌, ◌/◌, ◌%◌, Bool, true, false, not, ◌&&◌, ◌||◌, leb, ltb, ◌==◌,
  if◌then◌else◌, Option, none, some, List, [], ◌∷◌, ◌++◌, length, get_or, drop, Result, ok, err,
  panic, ◌>>=◌, ◌>>◌, refuse_if,
}
use speeed.Base.Bytes.{Bytes}

pub data Fault : Type 0 where
  bad_length : ℕ → Fault
  bad_hex : ℕ → Fault

-- `{b:02x}`
abbrev pub hex_digit : ℕ → ℕ
hex_digit d = if ltb d 10 then d + b'0' else d - 10 + b'a'

unfoldable pub fingerprint_hex : Bytes → Bytes
fingerprint_hex [] = []
fingerprint_hex (b ∷ bs) = hex_digit (b / 16) ∷ hex_digit (b % 16) ∷ fingerprint_hex bs

-- `char::to_digit(16)`
unfoldable pub to_digit : ℕ → Option ℕ
to_digit c =
    if leb b'0' c && leb c b'9'
    then some (c - b'0')
    else if leb b'a' c && leb c b'f'
    then some (c - b'a' + 10)
    else if leb b'A' c && leb c b'F'
    then some (c - b'A' + 10)
    else none

-- `u8::from_str_radix(.., 16)` on two characters: a plus sign may stand before one digit.
unfoldable pub from_str_radix : ℕ → ℕ → Option ℕ
from_str_radix c d = if c == b'+' then to_digit d else elim (to_digit c) [
  | none ↦ none
  | some high ↦ elim (to_digit d) [ none ↦ none | some low ↦ some (high * 16 + low) ]
]

-- `is_char_boundary`: not in front of a continuation byte.
abbrev pub is_char_boundary : ℕ → Bool
is_char_boundary c = ltb c 128 || leb 192 c

-- The rounds from byte `i` on, with the characters that are left. A slice that would cut a character
-- panics; the end of the string is a boundary.
parse_from : ℕ → Bytes → Result Fault Bytes
parse_from i [] = ok []
parse_from i (c ∷ []) = panic
parse_from i (c ∷ d ∷ rest) =
    let more = parse_from (i + 2) rest in
    if not (is_char_boundary c) || not (is_char_boundary (get_or rest 0 0))
    then panic
    else elim (from_str_radix c d) [
      | none ↦ err (bad_hex i)
      | some byte ↦ do bytes ← more; ok (byte ∷ bytes)
    ]

pub parse_fingerprint : Bytes → Result Fault Bytes
unfolding parse_from
parse_fingerprint hex = do
  refuse_if (not (length hex == 64)) (bad_length (length hex))
  parse_from 0 hex
