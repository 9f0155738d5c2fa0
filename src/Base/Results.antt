-- ===== src/Base/Results.antt =====
-- The outcome of a Rust function that returns `Result<A, E>`: a value, an error, or a panic (an
-- index out of bounds). That a function never panics is then something to prove.
use mathlib.Core.Path.{◌≡◌, refl, ap}
use mathlib.Core.Logic.{◌⊎◌, ◌≢◌, inl, inr}
use mathlib.Core.Bool.{Bool, true, false}
use mathlib.Core.Option.{Option, none, some}

pub data Result {ℓ κ} (E : Type ℓ) (A : Type κ) : Type (ℓ ⊔ κ) where
  ok : A → Result E A
  err : E → Result E A
  panic : Result E A

module _ {ℓ κ μ} {E : Type ℓ} {A : Type κ} {B : Type μ} where
  infixl 5 ◌>>=◌ ◌>>◌
  -- `?`: the error of the first part is the error of the whole.
  abbrev pub ◌>>=◌ : Result E A → (A → Result E B) → Result E B
  ok a >>= f = f a
  err e >>= f = err e
  panic >>= f = panic

  abbrev pub ◌>>◌ : Result E A → Result E B → Result E B
  m >> k = m >>= λ _. k

  -- Inversion of a chain that succeeds.
  pub >>=-eq-ok :
      {b : B} (m : Result E A) (k : A → Result E B)
      → (m >>= k) ≡ ok b
      → (a : A) × (m ≡ ok a) × (k a ≡ ok b)
  >>=-eq-ok panic k e = cc
  >>=-eq-ok (err _) k e = cc
  >>=-eq-ok (ok a) k e = (a, refl, e)

module _ {ℓ κ} {E : Type ℓ} {A : Type κ} where
  pub Result-cases :
      (m : Result E A) → ((a : A) × (m ≡ ok a)) ⊎ (((e : E) × (m ≡ err e)) ⊎ (m ≡ panic))
  Result-cases (ok a) = inl (a, refl)
  Result-cases (err e) = inr (inl (e, refl))
  Result-cases panic = inr (inr refl)

  pub ok_inj : {a b : A} → ◌≡◌ {A = Result E A} (ok a) (ok b) → a ≡ b
  ok_inj e = cc

  -- `map_err`
  abbrev pub map_err {μ} : {F : Type μ} → (E → F) → Result E A → Result F A
  map_err f (ok a) = ok a
  map_err f (err e) = err (f e)
  map_err f panic = panic

  -- `ok_or`
  abbrev pub ok_or : Option A → E → Result E A
  ok_or none e = err e
  ok_or (some a) e = ok a

  pub ok_or-eq-ok : (m : Option A) (e : E) {a : A} → ok_or m e ≡ ok a → m ≡ some a
  ok_or-eq-ok none e h = cc
  ok_or-eq-ok (some x) e h = ap some (ok_inj h)

  -- `Result::ok`, and the value of an index expression.
  abbrev pub to_option : Result E A → Option A
  to_option (ok a) = some a
  to_option (err e) = none
  to_option panic = none

  abbrev pub or_panic : Option A → Result E A
  or_panic none = panic
  or_panic (some a) = ok a

  pub or_panic-eq-ok : (o : Option A) {a : A} → or_panic o ≡ ok a → o ≡ some a
  or_panic-eq-ok none e = cc
  or_panic-eq-ok (some x) e = ap some (ok_inj e)

module _ {ℓ} {E : Type ℓ} where
  -- `if bad { return Err(e) }`
  abbrev pub refuse_if : Bool → E → Result E (Unit {0})
  refuse_if true e = err e
  refuse_if false e = ok tt

  pub refuse_if-eq-ok : (b : Bool) (e : E) {u : Unit {0}} → refuse_if b e ≡ ok u → b ≡ false
  refuse_if-eq-ok true e h = cc
  refuse_if-eq-ok false e h = refl

pub map_err-eq-ok {ℓ κ μ} :
    {E : Type ℓ} {F : Type μ} {A : Type κ} (f : E → F) (m : Result E A) {a : A}
    → map_err f m ≡ ok a
    → m ≡ ok a
map_err-eq-ok f (ok a) e = ap ok (ok_inj e)
map_err-eq-ok f (err x) e = cc
map_err-eq-ok f panic e = cc

-- No panic, and the value of a success has a property.
pub data Ensures {ℓ κ} {E : Type ℓ} {A : Type κ} (P : A → Type 0) : Result E A → Type (ℓ ⊔ κ) where
  value : {a : A} → P a → Ensures P (ok a)
  failure : {e : E} → Ensures P (err e)

pub Ensures-eq-ok {ℓ κ} :
    {E : Type ℓ} {A : Type κ} {P : A → Type 0} (m : Result E A) {a : A}
    → m ≡ ok a
    → P a
    → Ensures P m
Ensures-eq-ok m e p = rw e (value p)

pub Ensures-of_ne :
    {E : Type 0} {A : Type 0} {P : A → Type 0} (m : Result E A)
    → m ≢ panic
    → ((a : A) → m ≡ ok a → P a)
    → Ensures P m
Ensures-of_ne (ok a) h p = value (p a refl)
Ensures-of_ne (err x) h p = failure
Ensures-of_ne panic h p = absurd (h refl)

pub Ensures-ne-panic : {E A : Type 0} {P : A → Type 0} {m : Result E A} → Ensures P m → m ≢ panic
Ensures-ne-panic (value p) e = cc
Ensures-ne-panic failure e = cc

pub Ensures-ok :
    {E A : Type 0} {P : A → Type 0} {m : Result E A} {a : A} → Ensures P m → m ≡ ok a → P a
Ensures-ok (value p) e = rw (← ok_inj e) p
Ensures-ok failure e = cc

pub Ensures-map_err {ℓ κ μ} :
    {E : Type ℓ} {F : Type μ} {A : Type κ} {P : A → Type 0} (f : E → F) {m : Result E A}
    → Ensures P m
    → Ensures P (map_err f m)
Ensures-map_err f (value p) = value p
Ensures-map_err f failure = failure

-- Each part of a chain, under the equation that its value comes with.
pub Ensures-bind {ℓ κ μ} :
    {E : Type ℓ} {A : Type κ} {B : Type μ} {Q : A → Type 0} {P : B → Type 0} (m : Result E A)
    (k : A → Result E B)
    → Ensures Q m
    → ((a : A) → m ≡ ok a → Q a → Ensures P (k a))
    → Ensures P (m >>= k)
Ensures-bind m k (value p) h = h _ refl p
Ensures-bind m k failure h = failure

pub Ensures-refuse_if {ℓ} :
    {E : Type ℓ} (b : Bool) (e : E) → Ensures (λ _. Unit {0}) (refuse_if b e)
Ensures-refuse_if true e = failure
Ensures-refuse_if false e = value tt

pub ok_or-Returns : {E A : Type 0} (m : Option A) (e : E) → Ensures (λ _. Unit {0}) (ok_or m e)
ok_or-Returns none e = failure
ok_or-Returns (some a) e = value tt
