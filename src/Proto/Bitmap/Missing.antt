-- ===== src/Proto/Bitmap/Missing.antt =====
-- `missing_ranges` lists the missing chunks, in order and in runs as long as they can be.
use native.Mathlib.Nat.{add-zero}
use speeed.Base.{
  ℕ, zero, suc, ◌+◌, ◌-◌, ◌*◌, ◌/◌, ◌%◌, ◌≤◌, ◌<◌, ◌≡◌, refl, sym, ap, ◌∙◌, inl, inr, ◌==◌,
  if◌then◌else◌, Bool-cases, Option, none, some, List, [], ◌∷◌, ◌++◌, append_assoc, append-nil,
  length, get_elem?-eq-get_or, get_or, All, All-get_or, arith, ok,
}
use speeed.Base.Bits.{IsByte, test_mask}
use speeed.Base.Bytes.{Bytes}
use speeed.Proto.Bitmap.{ChunkBitmap, get, scan, advance, close_run, missing_ranges}
use speeed.Proto.Bitmap.Bits.{bit_at}
use speeed.Proto.Bitmap.Invariant.{IsValid, is_true, get-bit_at}

-- start, …, start + n - 1
abbrev pub span : ℕ → ℕ → List ℕ
span zero start = []
span (suc n) start = start ∷ span n (start + 1)

-- The indices of half-open ranges.
abbrev pub expand : List (ℕ × ℕ) → List ℕ
expand [] = []
expand ((start, end) ∷ ranges) = span (end - start) start ++ expand ranges

-- The indices i, …, i + n - 1 whose bit is 0.
abbrev pub clear_from : Bytes → ℕ → ℕ → List ℕ
clear_from bits zero i = []
clear_from bits (suc n) i =
    let rest = clear_from bits n (i + 1) in if bit_at bits i == 1 then rest else i ∷ rest

-- From `lo` on, no range is empty, and between two ranges there is an index of neither.
abbrev pub Runs : ℕ → List (ℕ × ℕ) → Type 0
Runs lo [] = Unit
Runs lo ((start, end) ∷ ranges) = (lo ≤ start) × (start < end) × Runs (end + 1) ranges

-- The first index at which a further range may start.
abbrev next_start : ℕ → List (ℕ × ℕ) → ℕ
next_start lo [] = lo
next_start lo ((start, end) ∷ ranges) = next_start (end + 1) ranges

Runs-snoc :
    (lo : ℕ) (ranges : List (ℕ × ℕ)) (start end : ℕ)
    → Runs lo ranges
    → next_start lo ranges ≤ start
    → start < end
    → Runs lo (ranges ++ (start, end) ∷ [])
Runs-snoc lo [] start end r h lt = (h, lt, tt)
Runs-snoc lo ((s, e) ∷ ranges) start end r h lt =
    (r.0, r.1, Runs-snoc (e + 1) ranges start end r.2 h lt)

next_start-snoc :
    (lo : ℕ) (ranges : List (ℕ × ℕ)) (start end : ℕ)
    → next_start lo (ranges ++ (start, end) ∷ []) ≡ end + 1
next_start-snoc lo [] start end = refl
next_start-snoc lo ((s, e) ∷ ranges) start end = next_start-snoc (e + 1) ranges start end

expand-append : (xs ys : List (ℕ × ℕ)) → expand (xs ++ ys) ≡ expand xs ++ expand ys
expand-append [] ys = refl
expand-append ((s, e) ∷ xs) ys = rw (expand-append xs ys, append_assoc)

pub span-snoc : (n start : ℕ) → span (suc n) start ≡ span n start ++ (start + n) ∷ []
span-snoc zero start = rw add-zero
span-snoc (suc n) start =
    let e : start + 1 + n ≡ start + suc n = omega arith in
    ap (λ t. start ∷ t) (span-snoc n (start + 1) ∙ ap (λ k. span n (start + 1) ++ k ∷ []) e)

-- The indices of the run that is open at `i`.
abbrev pending : Option ℕ → ℕ → List ℕ
pending none i = []
pending (some start) i = span (i - start) start

-- What the loop keeps: separated runs, and an open run behind them.
abbrev Opened : Option ℕ → List (ℕ × ℕ) → ℕ → Type 0
Opened none ranges i = Runs 0 ranges × (next_start 0 ranges ≤ i)
Opened (some start) ranges i = Runs 0 ranges × (next_start 0 ranges ≤ start) × (start < i)

-- One round of the loop, in terms of the bit.
scan_step :
    (bits : Bytes) (n i : ℕ) (run : Option ℕ) (ranges : List (ℕ × ℕ))
    → All IsByte bits
    → i / 8 < length bits
    → scan bits (suc n) i run ranges ≡ (
        let (run', ranges') = advance (bit_at bits i == 1) i run ranges in
        scan bits n (i + 1) run' ranges')
unfolding scan
scan_step bits n i run ranges h lt = rw (get_elem?-eq-get_or bits (i / 8) 0 lt) (
    rw
      (test_mask (get_or bits (i / 8) 0) (i % 8) (All-get_or IsByte bits (i / 8) 0 (omega arith) h)
        (omega arith))
      refl)

-- The outcome of the loop from `i` on.
abbrev Outcome : Bytes → ℕ → ℕ → Option ℕ → List (ℕ × ℕ) → Type 0
Outcome bits n i run ranges =
    (out : Option ℕ × List (ℕ × ℕ)) × (scan bits n i run ranges ≡ ok out)
    × (expand (close_run (i + n) out) ≡ expand ranges ++ (pending run i ++ clear_from bits n i))
    × Runs 0 (close_run (i + n) out)

Outcome-step :
    (bits : Bytes) (n i : ℕ) (run run' : Option ℕ) (ranges ranges' : List (ℕ × ℕ))
    → scan bits (suc n) i run ranges ≡ scan bits n (i + 1) run' ranges'
    → expand ranges' ++ (pending run' (i + 1) ++ clear_from bits n (i + 1))
      ≡ expand ranges ++ (pending run i ++ clear_from bits (suc n) i)
    → Outcome bits n (i + 1) run' ranges'
    → Outcome bits (suc n) i run ranges
Outcome-step bits n i run run' ranges ranges' step same (out, e, listed, runs) =
    let j : i + suc n ≡ i + 1 + n = omega arith in (out, step ∙ e, rw j (listed ∙ same), rw j runs)

-- An open run grows by the index at hand.
pending-grow :
    (start i : ℕ) → start < i → pending (some start) (i + 1) ≡ pending (some start) i ++ i ∷ []
pending-grow start i h =
    let e : i + 1 - start ≡ suc (i - start) = omega arith in
    let last : start + (i - start) ≡ i = omega arith in
    rw e (span-snoc (i - start) start ∙ ap (λ k. span (i - start) start ++ k ∷ []) last)

scan-Outcome :
    (bits : Bytes) (n i : ℕ) (run : Option ℕ) (ranges : List (ℕ × ℕ))
    → All IsByte bits
    → i + n ≤ length bits * 8
    → Opened run ranges i
    → Outcome bits n i run ranges
unfolding scan close_run
scan-Outcome bits zero i none ranges h fits o = ((none, ranges), refl, sym (append-nil _), o.0)
scan-Outcome bits zero i (some start) ranges h fits o =
    let e : i + 0 ≡ i = omega arith in
    (
      (some start, ranges),
      refl,
      rw e (expand-append ranges ((start, i) ∷ [])),
      rw e (Runs-snoc 0 ranges start i o.0 o.1 o.2),
    )
scan-Outcome bits (suc n) i none ranges h fits o =
    let step = scan_step bits n i none ranges h (omega arith) in
    elim (Bool-cases (bit_at bits i == 1)) [
      | inl set ↦
          Outcome-step bits n i none none ranges ranges (rw set at step) (rw set refl)
            (scan-Outcome bits n (i + 1) none ranges h (omega arith) (o.0, omega arith))
      | inr clear ↦
          Outcome-step bits n i none (some i) ranges ranges (rw clear at step)
            (rw clear (let e : i + 1 - i ≡ 1 = omega arith in rw e refl))
            (scan-Outcome bits n (i + 1) (some i) ranges h (omega arith) (o.0, o.1, omega arith))
    ]
scan-Outcome bits (suc n) i (some start) ranges h fits o =
    let step = scan_step bits n i (some start) ranges h (omega arith) in
    elim (Bool-cases (bit_at bits i == 1)) [
      | inl set ↦
          Outcome-step bits n i (some start) none ranges (ranges ++ (start, i) ∷ [])
            (rw set at step) (rw set (simp (expand-append, append_assoc)))
            (scan-Outcome bits n (i + 1) none (ranges ++ (start, i) ∷ []) h (omega arith)
              (Runs-snoc 0 ranges start i o.0 o.1 o.2, rw next_start-snoc (omega arith)))
      | inr clear ↦
          Outcome-step bits n i (some start) (some start) ranges ranges (rw clear at step)
            (rw clear (rw (pending-grow start i o.2) (simp append_assoc)))
            (scan-Outcome bits n (i + 1) (some start) ranges h (omega arith)
              (o.0, o.1, omega arith))
    ]

-- The chunks from `i` on, `n` of them, at which `get` does not answer true.
abbrev pub missing_from : ChunkBitmap → ℕ → ℕ → List ℕ
missing_from b zero i = []
missing_from b (suc n) i =
    let rest = missing_from b n (i + 1) in if is_true (get b i) then rest else i ∷ rest

clear_from-missing_from :
    {b : ChunkBitmap}
    → IsValid b
    → (n i : ℕ) → i + n ≤ b.count
    → clear_from b.bits n i ≡ missing_from b n i
unfolding is_true
clear_from-missing_from v zero i h = refl
clear_from-missing_from {b} v (suc n) i h =
    rw (get-bit_at v i (omega arith), clear_from-missing_from v n (i + 1) (omega arith)) refl

-- On a valid bitmap `missing_ranges` returns ranges that, written out, are in order the chunks at
-- which `get` answers false; no range is empty, and no two of them meet.
pub missing_ranges-expand :
    {b : ChunkBitmap}
    → IsValid b
    → (ranges : List (ℕ × ℕ)) × (missing_ranges b ≡ ok ranges)
      × (expand ranges ≡ missing_from b b.count 0)
      × Runs 0 ranges
unfolding missing_ranges
missing_ranges-expand {b} v =
    let (out, e, listed, runs) =
      scan-Outcome b.bits b.count 0 none [] v.bytes (rw v.sized (omega arith)) (tt, omega arith) in
    let all : 0 + b.count ≡ b.count = omega arith in
    (
      close_run b.count out,
      rw e refl,
      (rw all at listed) ∙ clear_from-missing_from v b.count 0 (omega arith),
      rw all at runs,
    )
