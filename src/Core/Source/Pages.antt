-- ===== src/Core/Source/Pages.antt =====
-- Which pages are released.
use speeed.Base.{
  ℕ, ◌+◌, ◌-◌, ◌*◌, ◌/◌, ◌%◌, ◌≤◌, ◌<◌, ◌≡◌, sym, ap, ◌∙◌, inl, inr, leb, Bool-cases, Option, some,
  arith,
}
use native.Mathlib.Nat.{div-add-mod', mul-mod_left}
use speeed.Proto.Chunk.{div_ceil}
use speeed.Proto.Chunk.Layout.{div_ceil_bounds}
use speeed.Core.Source.{release_range}

some_pair : {a b c d : ℕ} → ◌≡◌ {A = Option (ℕ × ℕ)} (some (a, b)) (some (c, d)) → (a ≡ c) × (b ≡ d)
some_pair e = (cc, cc)

-- The range that is advised consists of whole pages and lies inside the range that was asked for: a
-- page that holds another byte is not released. (A page has at least one byte.)
pub release_range-inward :
    (ps start end first len : ℕ)
    → 0 < ps
    → release_range ps start end ≡ some (first, len)
    → (start ≤ first)
      × (first + len ≤ end)
      × (0 < len)
      × (first % ps ≡ 0)
      × ((first + len) % ps ≡ 0)
unfolding release_range
release_range-inward ps start end first len h e =
    let f = div_ceil start ps * ps in
    let l = end / ps * ps in
    elim (Bool-cases (leb l f)) [
      | inl empty ↦ cc (rw empty at e)
      | inr whole ↦
          let same = some_pair (rw whole at e) in
          let after : f < l = ground arith in
          let up : start ≤ f = (div_ceil_bounds start ps h).0 in
          let down : l ≤ end = omega (arith, div-add-mod' end ps) in
          let len_is : l - f ≡ len = same.1 in
          let last : first + len ≡ l = omega (arith, same.0, len_is) in
          (
            omega (arith, same.0, up),
            omega (arith, last, down),
            omega (arith, same.0, len_is),
            ap (λ t. t % ps) (sym same.0) ∙ mul-mod_left (div_ceil start ps) ps,
            ap (λ t. t % ps) last ∙ mul-mod_left (end / ps) ps,
          )
    ]
