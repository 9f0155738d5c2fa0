-- ===== src/Proto/Bitmap/Complete.antt =====
-- A bitmap is complete exactly when every chunk of the file is marked.
use speeed.Base.{ℕ, zero, suc, ◌≤◌, ◌≡◌, ◌↔◌, refl, Bool, true, ◌&&◌, ==_iff, Bool_ext, map, arith}
use speeed.Base.Bits.{count_ones}
use speeed.Base.Sums.{sum, sum_below, sum_below-le}
use speeed.Proto.Bitmap.{ChunkBitmap, get, is_complete}
use speeed.Proto.Bitmap.Bits.{bit_at, sum-count_ones_below}
use speeed.Proto.Bitmap.Invariant.{IsValid, is_true, get-bit_at}

-- All of the first `n` chunks are there, as `get` tells.
unfoldable pub all_present : ChunkBitmap → ℕ → Bool
unfolding is_true
all_present b zero = true
all_present b (suc n) = is_true (get b n) && all_present b n

all_present→bits :
    {b : ChunkBitmap}
    → IsValid b
    → (n : ℕ) → n ≤ b.count
    → (all_present b n ≡ true) ↔ (sum_below n (bit_at b.bits) ≡ n)
unfolding all_present
all_present→bits v zero h = (λ _. refl, λ _. refl)
all_present→bits {b} v (suc n) h =
    let below : sum_below n (bit_at b.bits) ≤ n =
      sum_below-le n (bit_at b.bits) (λ i _. omega arith) in
    let ih = all_present→bits v n (omega arith) in
    (λ e. ground (arith, get-bit_at v n h, ih.0), λ e. ground (arith, get-bit_at v n h, ih.1))

-- `is_complete` compares two counters, and tells whether `get` answers true at every chunk.
pub is_complete-all_present : {b : ChunkBitmap} → IsValid b → is_complete b ≡ all_present b b.count
unfolding is_complete
is_complete-all_present {b} v =
    let all : sum (map count_ones b.bits) ≡ sum_below b.count (bit_at b.bits) =
      sum-count_ones_below b.bits b.count (rw v.sized (omega arith)) v.padded in
    let present = all_present→bits v b.count (omega arith) in
    Bool_ext _ _ (
      λ e. present.1 (omega (arith, (==_iff b.set_count b.count).0 e)),
      λ e. (==_iff b.set_count b.count).1 (omega (arith, present.0 e)),
    )
