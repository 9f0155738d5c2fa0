-- ===== src/Base/Sums.antt =====
-- Finite sums over the numbers below a bound, and over a list.
use Prim.Native.Nat.{ℕ, zero, suc, ◌+◌, ◌≤◌, ◌<◌}
use mathlib.Core.Path.{◌≡◌, refl}
use mathlib.Core.List.{List, [], ◌∷◌, ◌++◌}
use native.Mathlib.Decide.{ℕ_discrete}
use native.Mathlib.Nat.{zero-add, suc-add}
use native.Mathlib.Omega.{arith}

-- f 0 + … + f (n - 1)
abbrev pub sum_below : ℕ → (ℕ → ℕ) → ℕ
sum_below zero f = 0
sum_below (suc n) f = sum_below n f + f n

pub sum_below_congr :
    (n : ℕ) (f g : ℕ → ℕ) → ((i : ℕ) → i < n → f i ≡ g i) → sum_below n f ≡ sum_below n g
sum_below_congr zero f g h = refl
sum_below_congr (suc n) f g h =
    omega (arith, h n (omega arith), sum_below_congr n f g (λ i hi. h i (omega arith)))

pub sum_below_zero : (n : ℕ) (f : ℕ → ℕ) → ((i : ℕ) → i < n → f i ≡ 0) → sum_below n f ≡ 0
sum_below_zero zero f h = refl
sum_below_zero (suc n) f h =
    omega (arith, h n (omega arith), sum_below_zero n f (λ i hi. h i (omega arith)))

-- The first `m` terms, then the next `n`.
pub sum_below-add :
    (m n : ℕ) (f : ℕ → ℕ) → sum_below (n + m) f ≡ sum_below m f + sum_below n (λ i. f (i + m))
sum_below-add m zero f = rw zero-add (omega arith)
sum_below-add m (suc n) f = rw suc-add (omega (arith, sum_below-add m n f))

pub sum_below-le : (n : ℕ) (f : ℕ → ℕ) → ((i : ℕ) → i < n → f i ≤ 1) → sum_below n f ≤ n
sum_below-le zero f h = omega arith
sum_below-le (suc n) f h =
    omega (arith, h n (omega arith), sum_below-le n f (λ i hi. h i (omega arith)))

-- A sum of terms that are at most 1 reaches the number of terms only if each is 1.
pub sum_below_full :
    (n : ℕ) (f : ℕ → ℕ)
    → ((i : ℕ) → i < n → f i ≤ 1)
    → sum_below n f ≡ n
    → (i : ℕ) → i < n
    → f i ≡ 1
sum_below_full zero f h e i hi = absurd (omega arith)
sum_below_full (suc n) f h e i hi =
    let below = sum_below-le n f (λ j hj. h j (omega arith)) in
    let last = h n (omega arith) in
    elim (ℕ_discrete i n) [
      | yes same ↦ rw same (omega arith)
      | no other ↦ sum_below_full n f (λ j hj. h j (omega arith)) (omega arith) i (omega arith)
    ]

abbrev pub sum : List ℕ → ℕ
sum [] = 0
sum (x ∷ xs) = x + sum xs

pub sum-append : (xs ys : List ℕ) → sum (xs ++ ys) ≡ sum xs + sum ys
sum-append [] ys = omega arith
sum-append (x ∷ xs) ys = omega (arith, sum-append xs ys)
