-- ===== src/Core/Crash/WriteBack.antt =====
-- What the device may hold between two syncs.
use speeed.Base.{ℕ, zero, suc, ◌≡◌, ◌⊎◌, refl, ap, ◌∙◌, inl, inr, ◌∷◌, length, take, drop}
use speeed.Base.Bytes.{Bytes}
use speeed.Core.Crash.{Torn, nil, byte}

cons_eq : {x y : ℕ} {xs ys : Bytes} → x ∷ xs ≡ y ∷ ys → (x ≡ y) × (xs ≡ ys)
cons_eq e = (cc, cc)

latest : {x y z : ℕ} → (z ≡ x) ⊎ (z ≡ y) → x ≡ y → z ≡ y
latest (inl old) e = old ∙ e
latest (inr new) e = new

pub length-Torn : {xs ys zs : Bytes} → Torn xs ys zs → (length zs ≡ length xs)
length-Torn nil = refl
length-Torn (byte h r) = ap suc (length-Torn r)

-- A part in which the two strings agree is not torn.
pub Torn-same :
    (a n : ℕ) {xs ys zs : Bytes}
    → Torn xs ys zs
    → take n (drop a xs) ≡ take n (drop a ys)
    → take n (drop a zs) ≡ take n (drop a ys)
Torn-same zero zero r e = refl
Torn-same zero (suc n) nil e = refl
Torn-same zero (suc n) (byte h r) e =
    let (first, rest) = cons_eq e in cc (latest h first, Torn-same zero n r rest)
Torn-same (suc a) n nil e = refl
Torn-same (suc a) n (byte h r) e = Torn-same a n r e
