-- ===== src/Proto/Bitmap/Bits.antt =====
-- The bits of a byte string in the order of the bitmap, and how many there are.
use speeed.Base.{
  ℕ, zero, suc, ◌+◌, ◌-◌, ◌*◌, ◌/◌, ◌%◌, ◌≤◌, ◌<◌, ◌≡◌, refl, ap, [], ◌∷◌, map, length, get_or, set,
  All, All-get_or, get_or-set_self, get_or-set_ne, ◌==◌, if◌then◌else◌, ◌^◌, arith,
}
use Prim.Native.Nat.{bit_or}
use native.Mathlib.Decide.{ℕ_discrete}
use speeed.Base.Bits.{IsByte, bit, count_ones, bit-set_mask}
use speeed.Base.Bytes.{Bytes}
use speeed.Base.Sums.{sum, sum_below, sum_below_congr, sum_below-add, sum_below_zero}

-- Bit `i` of the string, 0 or 1; past the end it is 0.
abbrev pub bit_at : Bytes → ℕ → ℕ
bit_at bits i = bit (get_or bits (i / 8) 0) (i % 8)

bit_at-shift : (b : ℕ) (bs : Bytes) (i : ℕ) → bit_at (b ∷ bs) (i + 8) ≡ bit_at bs i
bit_at-shift b bs i =
    let q : (i + 8) / 8 ≡ suc (i / 8) = omega arith in
    let r : (i + 8) % 8 ≡ i % 8 = omega arith in rw (q, r)

-- The ones of all bytes are the ones among the bits.
pub sum-count_ones :
    (bits : Bytes) → sum (map count_ones bits) ≡ sum_below (length bits * 8) (bit_at bits)
unfolding count_ones
sum-count_ones [] = refl
sum-count_ones (b ∷ bs) =
    let e : suc (length bs) * 8 ≡ length bs * 8 + 8 = omega arith in
    rw (e, sum_below-add 8 (length bs * 8) (bit_at (b ∷ bs)))
      (omega (
        arith,
        sum-count_ones bs,
        sum_below_congr (length bs * 8) _ _ (λ i _. bit_at-shift b bs i),
      ))

-- With no bit set from `count` on, the ones stand below `count`.
pub sum-count_ones_below :
    (bits : Bytes) (count : ℕ)
    → count ≤ length bits * 8
    → ((i : ℕ) → count ≤ i → bit_at bits i ≡ 0)
    → sum (map count_ones bits) ≡ sum_below count (bit_at bits)
sum-count_ones_below bits count h clear =
    let rest : ℕ = length bits * 8 - count in
    let e : length bits * 8 ≡ rest + count = omega arith in
    omega (
      arith,
      sum-count_ones bits,
      ap (λ n. sum_below n (bit_at bits)) e,
      sum_below-add count rest (bit_at bits),
      sum_below_zero rest (λ i. bit_at bits (i + count)) (λ i _. clear (i + count) (omega arith)),
    )

-- Setting a mask in byte `i / 8` sets bit `i` and no other.
pub bit_at-set_mask :
    (bits : Bytes) (i j : ℕ)
    → All IsByte bits
    → i / 8 < length bits
    → bit_at (set bits (i / 8) (bit_or (get_or bits (i / 8) 0) (2 ^ (i % 8)))) j
      ≡ (if j == i then 1 else bit_at bits j)
bit_at-set_mask bits i j h lt = elim (ℕ_discrete (i / 8) (j / 8)) [
  | yes same ↦ rw (← same) (
      rw (get_or-set_self bits (i / 8) _ 0 lt) (
        ground (
          arith,
          bit-set_mask (get_or bits (i / 8) 0) (i % 8) (j % 8)
              (All-get_or IsByte bits (i / 8) 0 (omega arith) h) (omega arith) (omega arith),
        )))
  | no other ↦ rw (get_or-set_ne bits (i / 8) (j / 8) _ 0 other) (ground arith)
]

-- Bytes with more ones: byte `k` is replaced by one that has one more.
pub sum-set :
    (bits : Bytes) (k v : ℕ)
    → k < length bits
    → count_ones v ≡ count_ones (get_or bits k 0) + 1
    → sum (map count_ones (set bits k v)) ≡ sum (map count_ones bits) + 1
sum-set [] k v lt e = elim lt [ ]
sum-set (b ∷ bs) zero v lt e = omega arith
sum-set (b ∷ bs) (suc k) v lt e = omega (arith, sum-set bs k v (omega arith) e)
