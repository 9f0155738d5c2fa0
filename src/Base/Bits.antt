-- ===== src/Base/Bits.antt =====
-- Bits of a byte: the masks that the Rust code writes, as arithmetic. Each fact is a table over the
-- values of a byte, checked by evaluation.
use Prim.Native.Nat.{ℕ, zero, suc, ◌+◌, ◌-◌, ◌*◌, ◌/◌, ◌%◌, ◌^◌, ◌≤◌, ◌<◌, bit_and, bit_or}
use mathlib.Core.Path.{◌≡◌, refl, sym, ap, ◌∙◌}
use mathlib.Core.Logic.{inl, inr}
use mathlib.Core.Bool.{Bool, true, false, not, ◌&&◌, ◌||◌}
use native.Mathlib.Omega.{arith}
use speeed.Base.Tests.{ltb, ◌==◌, ==_iff, Bool-cases, if◌then◌else◌}

both : {a b : Bool} → (a && b) ≡ true → (a ≡ true) × (b ≡ true)
both {a} {b} h = ground arith

-- Whether a test holds at 0, …, n - 1.
table_of : (ℕ → Bool) → ℕ → Bool
table_of test zero = true
table_of test (suc n) = table_of test n && test n

table_of→ : (test : ℕ → Bool) (n : ℕ) → table_of test n ≡ true → (k : ℕ) → k < n → test k ≡ true
unfolding table_of
table_of→ test zero holds k lt = elim lt [ ]
table_of→ test (suc n) holds k lt =
    let (below, last) = both holds in
    elim (Bool-cases (k == n)) [
      | inl same ↦ ap test ((==_iff k n).0 same) ∙ last
      | inr other ↦ table_of→ test n below k (ground arith)
    ]

→table_of : (test : ℕ → Bool) (n : ℕ) → ((k : ℕ) → k < n → test k ≡ true) → table_of test n ≡ true
unfolding table_of
→table_of test zero each = refl
→table_of test (suc n) each =
    ground (arith, each n, →table_of test n (λ k hk. each k (omega arith)))

abbrev pub IsByte : ℕ → Type 0
IsByte b = b < 256

-- The value, 0 or 1, of bit `j` of a number, the lowest bit first.
abbrev pub bit : ℕ → ℕ → ℕ
bit b j = b / 2 ^ j % 2

-- `u8::count_ones`
unfoldable pub count_ones : ℕ → ℕ
count_ones b = bit b 0 + bit b 1 + bit b 2 + bit b 3 + bit b 4 + bit b 5 + bit b 6 + bit b 7

abbrev same : Bool → Bool → Bool
same true b = b
same false b = not b

same→eq : (a b : Bool) → same a b ≡ true → a ≡ b
same→eq true true h = refl
same→eq true false h = cc
same→eq false true h = cc
same→eq false false h = refl

module _ (p : ℕ → ℕ → Bool) where
  table : ℕ → ℕ → Bool
  table m n = table_of (λ k. table_of (p k) n) m

  table_sound : (m n k b : ℕ) → table m n ≡ true → k < m → b < n → p k b ≡ true
  unfolding table
  table_sound m n k b h hk hb = table_of→ (p k) n (table_of→ (λ i. table_of (p i) n) m h k hk) b hb

-- `byte & (1 << k) != 0` tests bit `k`.
pub test_mask : (b k : ℕ) → IsByte b → k < 8 → not (bit_and b (2 ^ k) == 0) ≡ (bit b k == 1)
unfolding table table_of
test_mask b k hb hk =
    same→eq _ _
      (table_sound (λ k b. same (not (bit_and b (2 ^ k) == 0)) (bit b k == 1)) 8 256 k b refl hk hb)

one_more : (x c d : ℕ) → x ≡ 0 → (x == 1 || c == d + 1) ≡ true → c ≡ d + 1
one_more x c d hx h = ground arith

-- `byte | (1 << k)` sets bit `k`, stays a byte, and counts one more if the bit was clear.
pub set_mask-IsByte : (b k : ℕ) → IsByte b → k < 8 → IsByte (bit_or b (2 ^ k))
unfolding table table_of
set_mask-IsByte b k hb hk =
    let h = table_sound (λ k b. ltb (bit_or b (2 ^ k)) 256) 8 256 k b refl hk hb in ground arith

pub bit-set_mask :
    (b k j : ℕ)
    → IsByte b
    → k < 8
    → j < 8
    → bit (bit_or b (2 ^ k)) j ≡ (if j == k then 1 else bit b j)
unfolding table table_of
bit-set_mask b k j hb hk hj = (==_iff _ _).0 (
    table_sound (λ j b. bit (bit_or b (2 ^ k)) j == (if j == k then 1 else bit b j)) 8 256 j b
      (table_of→
        (λ k. table (λ j b. bit (bit_or b (2 ^ k)) j == (if j == k then 1 else bit b j)) 8 256) 8
        refl k hk)
      hj hb)

pub count_ones-set_mask :
    (b k : ℕ) → IsByte b → k < 8 → bit b k ≡ 0 → count_ones (bit_or b (2 ^ k)) ≡ count_ones b + 1
unfolding table table_of count_ones
count_ones-set_mask b k hb hk hz = one_more (bit b k) _ _ hz (
    table_sound (λ k b. bit b k == 1 || count_ones (bit_or b (2 ^ k)) == count_ones b + 1) 8 256 k b
      refl hk hb)

-- The top `t` bits of a byte are clear.
top_clear : ℕ → ℕ → Bool
top_clear t b = table_of (λ j. ltb (j + t) 8 || bit b j == 0) 8

-- `byte & !(0xFF >> t) == 0` says that the top `t` bits are clear.
padding_mask : (t b : ℕ) → t < 8 → IsByte b → (bit_and b (255 - 255 / 2 ^ t) == 0) ≡ top_clear t b
unfolding table table_of top_clear
padding_mask t b ht hb = same→eq _ _ (
    table_sound (λ t b. same (bit_and b (255 - 255 / 2 ^ t) == 0) (top_clear t b)) 8 256 t b refl ht
      hb)

pub bit_of_padding :
    (b t j : ℕ)
    → IsByte b
    → t < 8
    → j < 8
    → 8 ≤ j + t
    → (bit_and b (255 - 255 / 2 ^ t) == 0) ≡ true
    → bit b j ≡ 0
unfolding top_clear
bit_of_padding b t j hb ht hj far h = ground (
  arith,
  padding_mask t b ht hb,
  table_of→ (λ j. ltb (j + t) 8 || bit b j == 0) 8 (sym (padding_mask t b ht hb) ∙ h) j hj,
)

pub padding_of_bits :
    (b t : ℕ)
    → IsByte b
    → t < 8
    → ((j : ℕ) → j < 8 → 8 ≤ j + t → bit b j ≡ 0)
    → (bit_and b (255 - 255 / 2 ^ t) == 0) ≡ true
unfolding top_clear
padding_of_bits b t hb ht h =
    padding_mask t b ht hb
    ∙ →table_of (λ j. ltb (j + t) 8 || bit b j == 0) 8 (λ j hj. ground (arith, h j hj))

-- `flags & !1 == 0` on a u16.
pub flag_mask : (w : ℕ) → w < 65536 → (bit_and w 65534 == 0) ≡ ltb w 2
unfolding table table_of
flag_mask w h =
    let split : w / 256 * 256 + w % 256 ≡ w = omega arith in
    rw split at (
      same→eq (bit_and (w / 256 * 256 + w % 256) 65534 == 0) (ltb (w / 256 * 256 + w % 256) 2) (
        table_sound (λ hi lo. same (bit_and (hi * 256 + lo) 65534 == 0) (ltb (hi * 256 + lo) 2)) 256
          256 (w / 256) (w % 256) refl (omega arith) (omega arith)))
