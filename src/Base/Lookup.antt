-- ===== src/Base/Lookup.antt =====
-- What is read from a list, and what holds of each of its elements.
use Prim.Native.Nat.{ℕ, zero, suc, ◌<◌}
use mathlib.Core.Path.{◌≡◌, refl, ap}
use mathlib.Core.Logic.{◌≢◌, ◌⊎◌, inl, inr}
use mathlib.Core.List.{List, [], ◌∷◌}
use mathlib.Core.Option.{Option, some}
use native.Mathlib.Omega.{arith}
use speeed.Base.Lists.{length, get_elem?, set, All}

module _ {ℓ} {A : Type ℓ} where
  pub some_inj : {x y : A} → ◌≡◌ {A = Option A} (some x) (some y) → x ≡ y
  some_inj e = cc

  pub get_elem?-lt : (xs : List A) (i : ℕ) {x : A} → get_elem? xs i ≡ some x → i < length xs
  get_elem?-lt [] i e = cc
  get_elem?-lt (y ∷ ys) zero e = omega arith
  get_elem?-lt (y ∷ ys) (suc i) e = omega (arith, get_elem?-lt ys i e)

  -- What is read after a write.
  pub get_elem?-set :
      (xs : List A) (i j : ℕ) (v : A) {x : A}
      → get_elem? (set xs i v) j ≡ some x
      → ((j ≡ i) × (v ≡ x)) ⊎ ((i ≢ j) × (get_elem? xs j ≡ some x))
  get_elem?-set [] i j v e = cc
  get_elem?-set (y ∷ ys) zero zero v e = inl (refl, some_inj e)
  get_elem?-set (y ∷ ys) zero (suc j) v e = inr (λ p. absurd (omega arith), e)
  get_elem?-set (y ∷ ys) (suc i) zero v e = inr (λ p. absurd (omega arith), e)
  get_elem?-set (y ∷ ys) (suc i) (suc j) v e = elim (get_elem?-set ys i j v e) [
    | inl (same, is) ↦ inl (ap suc same, is)
    | inr (other, is) ↦ inr (λ p. other (omega arith), is)
  ]

  pub All-map {κ μ} :
      (P : A → Type κ) (Q : A → Type μ) (xs : List A) → ((x : A) → P x → Q x) → All P xs → All Q xs
  All-map P Q [] f a = tt
  All-map P Q (x ∷ xs) f a = (f x a.0, All-map P Q xs f a.1)

  pub All-get_elem? {κ} :
      (P : A → Type κ) (xs : List A) (i : ℕ) {x : A} → All P xs → get_elem? xs i ≡ some x → P x
  All-get_elem? P [] i a e = cc
  All-get_elem? P (y ∷ ys) zero {x} a e = let same : y ≡ x = cc in rw (← same) a.0
  All-get_elem? P (y ∷ ys) (suc i) a e = All-get_elem? P ys i a.1 e
