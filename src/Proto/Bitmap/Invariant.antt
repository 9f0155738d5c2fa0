-- ===== src/Proto/Bitmap/Invariant.antt =====
-- The invariant of a bitmap, its operations on a valid one, and what completeness means.
use Prim.Native.Nat.{bit_and, bit_or}
use speeed.Base.{
  ℕ, ◌+◌, ◌/◌, ◌%◌, ◌^◌, ◌≤◌, ◌<◌, ◌≡◌, ap, ◌∙◌, Bool, true, false, ◌==◌, if◌then◌else◌, map,
  length, length-set, get_elem?-eq-get_or, get_or, set as set_elem, All, All-get_or, All-set, arith,
  Result, ok, err, panic,
}
use speeed.Base.Bits.{IsByte, count_ones, test_mask, set_mask-IsByte, count_ones-set_mask}
use speeed.Base.Sums.{sum}
use speeed.Proto.Errors.{Error}
use speeed.Proto.Chunk.{div_ceil}
use speeed.Proto.Bitmap.{ChunkBitmap, get, set}
use speeed.Proto.Bitmap.Bits.{bit_at, bit_at-set_mask, sum-set}

-- One bit for each chunk and none behind, and a cached count that agrees with the bits.
pub record IsValid (b : ChunkBitmap) : Type 0 where
  pub sized : length b.bits ≡ div_ceil b.count 8
  pub bytes : All IsByte b.bits
  pub padded : (i : ℕ) → b.count ≤ i → bit_at b.bits i ≡ 0
  pub counted : b.set_count ≡ sum (map count_ones b.bits)

-- The byte that holds bit `i`, before and after the bit is set.
abbrev byte_of : ChunkBitmap → ℕ → ℕ
byte_of b i = get_or b.bits (i / 8) 0

abbrev masked : ChunkBitmap → ℕ → ℕ
masked b i = bit_or (byte_of b i) (2 ^ (i % 8))

byte_of-IsByte : {b : ChunkBitmap} → IsValid b → (i : ℕ) → IsByte (byte_of b i)
byte_of-IsByte {b} v i = All-get_or IsByte b.bits (i / 8) 0 (omega arith) v.bytes

-- `get` answers true.
unfoldable pub is_true : Result Error Bool → Bool
is_true (ok v) = v
is_true (err _) = false
is_true panic = false

-- `get` as a reading of the bits.
pub get-bit_at :
    {b : ChunkBitmap} → IsValid b → (i : ℕ) → i < b.count → get b i ≡ ok (bit_at b.bits i == 1)
unfolding get
get-bit_at {b} v i h =
    let lt : i / 8 < length b.bits = rw v.sized (omega arith) in
    rw (get_elem?-eq-get_or b.bits (i / 8) 0 lt)
      (ground (arith, test_mask (byte_of b i) (i % 8) (byte_of-IsByte v i) (omega arith)))

-- The bitmap that `set` returns.
abbrev marked : ChunkBitmap → ℕ → ChunkBitmap
marked b i =
    if bit_and (byte_of b i) (2 ^ (i % 8)) == 0
    then record b { bits = set_elem b.bits (i / 8) (masked b i); set_count = b.set_count + 1 }
    else b

set-marked : {b : ChunkBitmap} → IsValid b → (i : ℕ) → i < b.count → set b i ≡ ok (marked b i)
unfolding set
set-marked {b} v i h =
    let lt : i / 8 < length b.bits = rw v.sized (omega arith) in
    rw (get_elem?-eq-get_or b.bits (i / 8) 0 lt) (ground arith)

bit_at-marked :
    {b : ChunkBitmap}
    → IsValid b
    → (i : ℕ) → i < b.count
    → (j : ℕ) → bit_at (marked b i).bits j ≡ (if j == i then 1 else bit_at b.bits j)
bit_at-marked {b} v i h j =
    let lt : i / 8 < length b.bits = rw v.sized (omega arith) in
    ground (
      arith,
      bit_at-set_mask b.bits i j v.bytes lt,
      test_mask (byte_of b i) (i % 8) (byte_of-IsByte v i) (omega arith),
    )

pub set-lt-count : (b : ChunkBitmap) (i : ℕ) {b' : ChunkBitmap} → set b i ≡ ok b' → i < b.count
unfolding set
set-lt-count b i e = ground arith

-- Each field of the invariant after `set`.
marked-IsValid : {b : ChunkBitmap} → IsValid b → (i : ℕ) → i < b.count → IsValid (marked b i)
marked-IsValid {b} v i h =
    let lt : i / 8 < length b.bits = rw v.sized (omega arith) in
    record {
      sized = ground (arith, length-set b.bits (i / 8) (masked b i));
      bytes = ground (
        arith,
        All-set IsByte b.bits (i / 8) (masked b i)
            (set_mask-IsByte _ (i % 8) (byte_of-IsByte v i) (omega arith)) v.bytes,
      );
      padded = λ j far. ground (arith, bit_at-marked v i h j, v.padded j);
      counted = ground (
        arith,
        test_mask (byte_of b i) (i % 8) (byte_of-IsByte v i) (omega arith),
        sum-set b.bits (i / 8) (masked b i) lt,
        count_ones-set_mask _ (i % 8) (byte_of-IsByte v i) (omega arith),
      );
    }

-- On a valid bitmap `set` at a chunk of the file succeeds, and the result is valid and of the same
-- count; so it never indexes past the bytes.
pub set-IsValid :
    {b : ChunkBitmap}
    → IsValid b
    → (i : ℕ) → i < b.count
    → (b' : ChunkBitmap) × (set b i ≡ ok b') × IsValid b' × (b'.count ≡ b.count)
set-IsValid {b} v i h = (marked b i, set-marked v i h, marked-IsValid v i h, ground arith)

-- After `set` at `i`, `get` answers true at `i` and what it answered before at every other chunk.
pub get-set :
    {b b' : ChunkBitmap}
    → IsValid b
    → (i j : ℕ) → j < b.count
    → set b i ≡ ok b'
    → get b' j ≡ (if j == i then ok true else get b j)
get-set {b} {b'} v i j hj e =
    let hi : i < b.count = set-lt-count b i e in
    let m : b' ≡ marked b i = cc (e, set-marked v i hi) in
    let count : (marked b i).count ≡ b.count = ground arith in
    rw
      (
        m,
        get-bit_at (marked-IsValid v i hi) j (rw count hj),
        get-bit_at v j hj,
        bit_at-marked v i hi j,
      )
      (ground arith)

marked_again : {b : ChunkBitmap} → IsValid b → (i : ℕ) → bit_at b.bits i ≡ 1 → marked b i ≡ b
marked_again {b} v i e =
    ground (arith, test_mask (byte_of b i) (i % 8) (byte_of-IsByte v i) (omega arith))

-- Marking a chunk again changes nothing, so a duplicate does not count twice.
pub set_idem : {b b' : ChunkBitmap} → IsValid b → (i : ℕ) → set b i ≡ ok b' → set b' i ≡ ok b'
set_idem {b} {b'} v i e =
    let hi : i < b.count = set-lt-count b i e in
    let m : b' ≡ marked b i = cc (e, set-marked v i hi) in
    rw m (
      set-marked (marked-IsValid v i hi) i (ground arith)
      ∙ ap ok (marked_again (marked-IsValid v i hi) i (bit_at-marked v i hi i ∙ ground arith)))
