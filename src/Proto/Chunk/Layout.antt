-- ===== src/Proto/Chunk/Layout.antt =====
-- The chunks of a layout tile the file, and `index_of` finds the one that holds an offset.
use speeed.Base.{
  ℕ, zero, suc, ◌+◌, ◌-◌, ◌*◌, ◌/◌, ◌^◌, ◌≤◌, ◌<◌, ◌≡◌, ◌↔◌, refl, sym, ap, ◌∙◌, min, true, arith,
  Result, ok,
}
use native.Mathlib.Nat.{div-add-mod, mod-lt}
use speeed.Base.Sums.{sum_below}
use speeed.Proto.Errors.{Error}
use speeed.Proto.Chunk.{
  ChunkLayout, min_chunk_size, max_chunk_size, div_ceil, is_power_of_two, new, range, index_of,
}

-- What `new` establishes for a u64 file size.
pub record IsValid (l : ChunkLayout) : Type 0 where
  pub sized : l.file_size < 2 ^ 64
  pub at_least : min_chunk_size ≤ l.chunk_size
  pub at_most : l.chunk_size ≤ max_chunk_size
  pub counted : l.count ≡ div_ceil l.file_size l.chunk_size

-- A layout that `new` returns is valid, and describes the file that it was asked for.
pub new-IsValid :
    (fs cs : ℕ) {l : ChunkLayout}
    → fs < 2 ^ 64
    → new fs cs ≡ ok l
    → IsValid l × (l.file_size ≡ fs) × (l.chunk_size ≡ cs) × (is_power_of_two cs ≡ true)
unfolding new
new-IsValid fs cs h e = ground arith

-- The length of chunk `i`.
abbrev pub len_at : ChunkLayout → ℕ → ℕ
len_at l i = min (l.file_size - i * l.chunk_size) l.chunk_size

pub div_ceil_bounds : (n d : ℕ) → 0 < d → (n ≤ div_ceil n d * d) × (div_ceil n d * d < n + d)
div_ceil_bounds n d h = omega (arith, div-add-mod (n + (d - 1)) d, mod-lt (n + (d - 1)) h)

-- The chunk `i` of a valid layout starts inside the file.
pub offset-lt :
    {l : ChunkLayout} → IsValid l → (i : ℕ) → i < l.count → i * l.chunk_size < l.file_size
offset-lt {l} v i h =
    let le : suc i * l.chunk_size ≤ l.count * l.chunk_size = grind arith in
    let bound : l.count * l.chunk_size < l.file_size + l.chunk_size =
      rw v.counted ((div_ceil_bounds l.file_size l.chunk_size (omega arith)).1) in
    omega arith

pub range-len_at :
    {l : ChunkLayout}
    → IsValid l
    → (i : ℕ) → i < l.count
    → range l i ≡ ok (i * l.chunk_size, len_at l i)
unfolding range
range-len_at {l} v i h = ground (arith, offset-lt v i h, v.sized)

-- The first `i` chunks end where chunk `i` starts.
sum_below-len_at :
    {l : ChunkLayout}
    → IsValid l
    → (i : ℕ) → i ≤ l.count
    → sum_below i (len_at l) ≡ min (i * l.chunk_size) l.file_size
sum_below-len_at v zero h = omega arith
sum_below-len_at v (suc i) h = omega (arith, sum_below-len_at v i (omega arith), offset-lt v i h)

-- the offset of the end
pub end-le : {l : ChunkLayout} → IsValid l → l.file_size ≤ l.count * l.chunk_size
end-le {l} v = rw v.counted ((div_ceil_bounds l.file_size l.chunk_size (omega arith)).0)

-- There are no more chunks than bytes.
pub count-le : {l : ChunkLayout} → IsValid l → l.count ≤ l.file_size
count-le {l} v = count_up l.count refl
  where
    count_up : (n : ℕ) → l.count ≡ n → l.count ≤ l.file_size
    count_up zero e = omega arith
    count_up (suc n) e =
        let wide : n ≤ n * l.chunk_size = grind (arith, v.at_least) in
        omega (arith, offset-lt v n (omega arith))

pub sum_len_at : {l : ChunkLayout} → IsValid l → sum_below l.count (len_at l) ≡ l.file_size
sum_len_at {l} v = omega (arith, sum_below-len_at v l.count (omega arith), end-le v)

-- The chunks of a valid layout tile the file: for an index below `count`, `range` returns as offset
-- the sum of the lengths before it, with its own length, which is positive; and the lengths of all
-- chunks add up to the file size.
pub range_tiles :
    {l : ChunkLayout}
    → IsValid l
    → (i : ℕ) → i < l.count
    → (range l i ≡ ok (sum_below i (len_at l), len_at l i))
      × (0 < len_at l i)
      × (sum_below l.count (len_at l) ≡ l.file_size)
range_tiles {l} v i h = (
  rw (range-len_at v i h) (
      ap (λ t. ok (t, len_at l i))
        (omega (arith, sum_below-len_at v i (omega arith), offset-lt v i h))),
  omega (arith, offset-lt v i h),
  sum_len_at v,
)

mul_gap : (q j d : ℕ) → q < j → q * d + d ≤ j * d
mul_gap q j d h = let le : suc q * d ≤ j * d = grind arith in omega arith

-- The quotient is the only multiple that leaves less than the divisor.
div_unique : (o i d : ℕ) → i * d ≤ o → o < i * d + d → o / d ≡ i
div_unique o i d lo hi = grind (
  arith,
  div-add-mod o d,
  mod-lt o {m = d} (omega arith),
  mul_gap (o / d) i d,
  mul_gap i (o / d) d,
)

index-lt-count :
    {l : ChunkLayout}
    → IsValid l
    → (offset : ℕ) → offset < l.file_size
    → offset / l.chunk_size < l.count
index-lt-count {l} v offset h = grind (
  arith,
  div-add-mod offset l.chunk_size,
  mul_gap l.count (offset / l.chunk_size) l.chunk_size,
  end-le v,
)

index_of-eq-ok :
    (l : ChunkLayout) (offset i : ℕ)
    → index_of l offset ≡ ok i
    → (offset < l.file_size) × (offset / l.chunk_size ≡ i)
unfolding index_of
index_of-eq-ok l offset i e = ground arith

index_of_inside :
    (l : ChunkLayout) (offset i : ℕ)
    → offset < l.file_size
    → offset / l.chunk_size ≡ i
    → index_of l offset ≡ ok i
unfolding index_of
index_of_inside l offset i h e = ground arith

-- `range` succeeds only below the count.
pub range-lt-count : (l : ChunkLayout) (i : ℕ) {r : ℕ × ℕ} → range l i ≡ ok r → i < l.count
unfolding range
range-lt-count l i e = ground arith

div_floor : (o d : ℕ) → 0 < d → (o / d * d ≤ o) × (o < o / d * d + d)
div_floor o d h = omega (arith, div-add-mod o d, mod-lt o h)

-- `offset` lies in the range of chunk `i`.
abbrev pub Covers : ChunkLayout → ℕ → ℕ → Type 0
Covers l i offset =
    (start : ℕ) × (len : ℕ) × (range l i ≡ ok (start, len))
    × (start ≤ offset)
    × (offset < start + len)

index_of-Covers :
    {l : ChunkLayout} (offset i : ℕ) → IsValid l → index_of l offset ≡ ok i → Covers l i offset
index_of-Covers {l} offset i v e =
    let (inside, same) = index_of-eq-ok l offset i e in
    let lt : i < l.count = rw (← same) (index-lt-count v offset inside) in
    let floor : (i * l.chunk_size ≤ offset) × (offset < i * l.chunk_size + l.chunk_size) =
      rw (← same) (div_floor offset l.chunk_size (omega arith)) in
    (i * l.chunk_size, len_at l i, range-len_at v i lt, floor.0, omega arith)

Covers-index_of :
    {l : ChunkLayout} (offset i : ℕ) → IsValid l → Covers l i offset → index_of l offset ≡ ok i
Covers-index_of {l} offset i v (start, len, e, lo, hi) =
    let lt : i < l.count = range-lt-count l i e in
    let same : ◌≡◌ {A = Result Error (ℕ × ℕ)} (ok (start, len))
        (ok (i * l.chunk_size, len_at l i)) =
      sym e ∙ range-len_at v i lt in
    let bounds : (i * l.chunk_size ≤ offset) × (offset < i * l.chunk_size + len_at l i) =
      ground arith in
    index_of_inside l offset i (omega arith)
      (div_unique offset i l.chunk_size bounds.0 (omega arith))

-- On a valid layout `index_of` succeeds exactly with the chunk whose range, as `range` returns it,
-- holds the offset.
pub index_of_iff :
    {l : ChunkLayout} (offset i : ℕ) → IsValid l → (index_of l offset ≡ ok i) ↔ Covers l i offset
index_of_iff offset i v = (index_of-Covers offset i v, Covers-index_of offset i v)
