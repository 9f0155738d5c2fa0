-- ===== src/Proto/Bitmap/Parse.antt =====
-- `new`, and the exchange of bitmaps as bytes: `as_bytes` and `from_bytes`.
use Prim.Native.Nat.{bit_and}
use native.Mathlib.Decide.{dec_lt}
use speeed.Base.{
  ℕ, zero, suc, ◌+◌, ◌-◌, ◌*◌, ◌/◌, ◌%◌, ◌^◌, ◌≤◌, ◌<◌, ◌≡◌, refl, sym, ap, true, false, ◌==◌, some,
  [], ◌∷◌, map, length, length-replicate, get_or, get_or-replicate, get_or_past, Option, get_last?,
  get_last?-get_or, replicate, All, All-get_or, All-replicate, arith, ok,
}
use speeed.Base.Bits.{IsByte, bit, count_ones, bit_of_padding, padding_of_bits}
use speeed.Base.Bytes.{Bytes}
use speeed.Base.Sums.{sum}
use speeed.Proto.Chunk.{div_ceil}
use speeed.Proto.Bitmap.{ChunkBitmap, new, from_bytes, as_bytes, padding_of, has_padding}
use speeed.Proto.Bitmap.Bits.{bit_at}
use speeed.Proto.Bitmap.Invariant.{IsValid}

zero_bit : (j : ℕ) → j < 8 → bit 0 j ≡ 0
zero_bit j h = omega arith

sum-replicate : (n : ℕ) → sum (map count_ones (replicate n 0)) ≡ 0
unfolding count_ones
sum-replicate zero = refl
sum-replicate (suc n) = omega (arith, sum-replicate n)

pub zero_byte : (n i : ℕ) → bit_at (replicate n 0) i ≡ 0
zero_byte n i = let z : ℕ = 0 in rw (get_or-replicate n (i / 8) z) (zero_bit (i % 8) (omega arith))

-- A new bitmap is valid.
pub new-IsValid : (count : ℕ) → IsValid (new count)
unfolding new
new-IsValid count = record {
  sized = length-replicate (div_ceil count 8) 0;
  bytes = All-replicate IsByte (div_ceil count 8) 0 (omega arith);
  padded = λ i _. zero_byte (div_ceil count 8) i;
  counted = sym (sum-replicate (div_ceil count 8));
}

-- The last byte, if there is one, holds the last index below the end of the bytes.
last_byte :
    (bytes : Bytes) (n : ℕ) → length bytes ≡ suc n → get_last? bytes ≡ some (get_or bytes n 0)
last_byte [] n h = absurd (omega arith)
last_byte (b ∷ bs) n h = let e : n ≡ length bs = omega arith in rw e (get_last?-get_or b bs 0)

-- The number of bits behind the last chunk.
abbrev trailing : Bytes → ℕ → ℕ
trailing bytes count = length bytes * 8 - count

from_bytes-eq-ok :
    (bytes : Bytes) (count : ℕ) {b : ChunkBitmap}
    → from_bytes bytes count ≡ ok b
    → (length bytes ≡ div_ceil count 8)
      × (0 < trailing bytes count → has_padding (trailing bytes count) (get_last? bytes) ≡ false)
      × (b ≡ record { bits = bytes; count = count; set_count = sum (map count_ones bytes) })
unfolding from_bytes
from_bytes-eq-ok bytes count e = (ground arith, λ h. ground arith, ground arith)

mask_clear :
    {o : Option ℕ} (t last : ℕ)
    → has_padding t o ≡ false
    → o ≡ some last
    → (bit_and last (padding_of t) == 0) ≡ true
unfolding has_padding
mask_clear t last h e = ground arith

-- Past the last chunk the accepted bytes have no bit.
clear_past :
    (bytes : Bytes) (count i : ℕ)
    → All IsByte bytes
    → length bytes ≡ div_ceil count 8
    → (0 < trailing bytes count → has_padding (trailing bytes count) (get_last? bytes) ≡ false)
    → count ≤ i
    → bit_at bytes i ≡ 0
clear_past bytes count i h e clean far = elim (dec_lt (i / 8) (length bytes)) [
  | no past ↦ rw (get_or_past bytes (i / 8) 0 (omega arith)) (zero_bit (i % 8) (omega arith))
  | yes inside ↦
      let last : length bytes ≡ suc (i / 8) = omega arith in
      bit_of_padding (get_or bytes (i / 8) 0) (trailing bytes count) (i % 8)
        (All-get_or IsByte bytes (i / 8) 0 (omega arith) h) (omega arith) (omega arith)
        (omega arith) (mask_clear _ _ (clean (omega arith)) (last_byte bytes (i / 8) last))
]

-- What `from_bytes` accepts is a valid bitmap of the count that was asked for, with those bytes.
pub from_bytes-IsValid :
    (bytes : Bytes) (count : ℕ) {b : ChunkBitmap}
    → All IsByte bytes
    → from_bytes bytes count ≡ ok b
    → IsValid b × (as_bytes b ≡ bytes) × (b.count ≡ count)
from_bytes-IsValid bytes count h e =
    let (sized, clean, same) = from_bytes-eq-ok bytes count e in
    rw same (
      record {
        sized = sized;
        bytes = h;
        padded = λ i far. clear_past bytes count i h sized clean far;
        counted = refl;
      },
      refl,
      refl,
    )

no_last : (bytes : Bytes) (t : ℕ) → length bytes ≡ 0 → has_padding t (get_last? bytes) ≡ false
unfolding has_padding
no_last [] t h = refl
no_last (b ∷ bs) t h = absurd (omega arith)

not_padding :
    (t last : ℕ) → (bit_and last (padding_of t) == 0) ≡ true → has_padding t (some last) ≡ false
unfolding has_padding
not_padding t last h = rw h

bit_of_index :
    (bytes : Bytes) (n j : ℕ) → j < 8 → bit_at bytes (n * 8 + j) ≡ 0 → bit (get_or bytes n 0) j ≡ 0
bit_of_index bytes n j h e =
    let q : (n * 8 + j) / 8 ≡ n = omega arith in
    let r : (n * 8 + j) % 8 ≡ j = omega arith in rw (q, r) at e

-- A valid bitmap has no padding bit.
no_padding :
    (b : ChunkBitmap) → IsValid b → has_padding (trailing b.bits b.count) (get_last? b.bits) ≡ false
no_padding b v = elim (dec_lt 0 (length b.bits)) [
  | no none_left ↦ no_last b.bits (trailing b.bits b.count) (omega arith)
  | yes some_left ↦
      let n : ℕ = length b.bits - 1 in
      let last : length b.bits ≡ suc n = omega arith in
      rw (last_byte b.bits n last) (
        not_padding (trailing b.bits b.count) (get_or b.bits n 0) (
          padding_of_bits (get_or b.bits n 0) (trailing b.bits b.count)
            (All-get_or IsByte b.bits n 0 (omega arith) v.bytes) (omega arith)
            (λ j hj far. bit_of_index b.bits n j hj (v.padded (n * 8 + j) (omega arith)))))
]

-- Every valid bitmap of a u64 count is read back from its bytes as it was.
pub from_bytes-as_bytes :
    (b : ChunkBitmap) → IsValid b → b.count + 7 < 2 ^ 64 → from_bytes (as_bytes b) b.count ≡ ok b
unfolding from_bytes
from_bytes-as_bytes b v fits =
    ground (arith, v.sized, v.counted, no_padding b v, ap (λ n. n * 8 - b.count) v.sized)
