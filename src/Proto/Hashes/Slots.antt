-- ===== src/Proto/Hashes/Slots.antt =====
-- The slots of the set, and how they agree with the hashes that arrive.
use speeed.Base.{
  get_elem?-lt, ℕ, zero, suc, ◌+◌, ◌≤◌, ◌<◌, ◌≡◌, refl, sym, ap, ◌∙◌, ◌⊎◌, inl, inr, Bool, true,
  false, ◌||◌, ◌==◌, Option, none, some, List, [], ◌∷◌, length, get_elem?, replicate,
  set as set_elem, arith, ok, Bool-cases, ==_iff,
}
use speeed.Base.Bytes.{bytes_eq_refl}
use speeed.Proto.Hashes.{Hash, ChunkHashSet, new, insert}

-- The number of slots that hold a hash.
abbrev pub held : List (Option Hash) → ℕ
held [] = 0
held (none ∷ slots) = held slots
held (some h ∷ slots) = suc (held slots)

-- Each slot is empty, or holds the hash that `hs` has at its index.
abbrev pub Agrees : List (Option Hash) → List Hash → Type 0
Agrees [] [] = Unit
Agrees [] (h ∷ hs) = ⊥
Agrees (o ∷ slots) [] = ⊥
Agrees (o ∷ slots) (h ∷ hs) = ((o ≡ none) ⊎ (o ≡ some h)) × Agrees slots hs

pub record Holds (s : ChunkHashSet) (hs : List Hash) : Type 0 where
  pub counted : s.filled ≡ held s.hashes
  pub agrees : Agrees s.hashes hs

-- Whether slot `i` holds a hash.
abbrev pub has_slot : List (Option Hash) → ℕ → Bool
has_slot [] i = false
has_slot (none ∷ slots) zero = false
has_slot (some h ∷ slots) zero = true
has_slot (o ∷ slots) (suc i) = has_slot slots i

pub length_of_Agrees :
    (slots : List (Option Hash)) (hs : List Hash) → Agrees slots hs → length slots ≡ length hs
length_of_Agrees [] [] a = refl
length_of_Agrees [] (h ∷ hs) a = absurd a
length_of_Agrees (o ∷ slots) [] a = absurd a
length_of_Agrees (o ∷ slots) (h ∷ hs) a = ap suc (length_of_Agrees slots hs a.1)

-- The slot at `i`, and whether it holds anything.
slot_at :
    (slots : List (Option Hash)) (hs : List Hash) (i : ℕ) {h : Hash}
    → Agrees slots hs
    → get_elem? hs i ≡ some h
    → ((get_elem? slots i ≡ some none) × (has_slot slots i ≡ false))
      ⊎ ((get_elem? slots i ≡ some (some h)) × (has_slot slots i ≡ true))
slot_at [] [] i a e = cc
slot_at [] (k ∷ hs) i a e = absurd a
slot_at (o ∷ slots) [] i a e = absurd a
slot_at (none ∷ slots) (k ∷ hs) zero a e = inl (refl, refl)
slot_at (some g ∷ slots) (k ∷ hs) zero {h} a e = inr (elim a.0 [ inl p ↦ cc | inr p ↦ cc ], refl)
slot_at (none ∷ slots) (k ∷ hs) (suc i) a e = slot_at slots hs i a.1 e
slot_at (some g ∷ slots) (k ∷ hs) (suc i) a e = slot_at slots hs i a.1 e

Agrees-set :
    (slots : List (Option Hash)) (hs : List Hash) (i : ℕ) {h : Hash}
    → Agrees slots hs
    → get_elem? hs i ≡ some h
    → Agrees (set_elem slots i (some h)) hs
Agrees-set [] [] i a e = tt
Agrees-set [] (k ∷ hs) i a e = absurd a
Agrees-set (o ∷ slots) [] i a e = absurd a
Agrees-set (o ∷ slots) (k ∷ hs) zero a e = (inr (ground arith), a.1)
Agrees-set (o ∷ slots) (k ∷ hs) (suc i) a e = (a.0, Agrees-set slots hs i a.1 e)

held-set :
    (slots : List (Option Hash)) (i : ℕ) (h : Hash)
    → get_elem? slots i ≡ some none
    → held (set_elem slots i (some h)) ≡ suc (held slots)
held-set [] i h e = cc
held-set (none ∷ slots) zero h e = refl
held-set (some g ∷ slots) zero h e = cc
held-set (none ∷ slots) (suc i) h e = held-set slots i h e
held-set (some g ∷ slots) (suc i) h e = ap suc (held-set slots i h e)

has_slot-set :
    (slots : List (Option Hash)) (i j : ℕ) (h : Hash)
    → i < length slots
    → has_slot (set_elem slots i (some h)) j ≡ (j == i || has_slot slots j)
has_slot-set [] i j h lt = elim lt [ ]
has_slot-set (o ∷ slots) zero zero h lt = refl
has_slot-set (none ∷ slots) zero (suc j) h lt = ground arith
has_slot-set (some g ∷ slots) zero (suc j) h lt = ground arith
has_slot-set (none ∷ slots) (suc i) zero h lt = ground arith
has_slot-set (some g ∷ slots) (suc i) zero h lt = ground arith
has_slot-set (none ∷ slots) (suc i) (suc j) h lt =
    ground (arith, has_slot-set slots i j h (omega arith))
has_slot-set (some g ∷ slots) (suc i) (suc j) h lt =
    ground (arith, has_slot-set slots i j h (omega arith))

-- A slot that holds a hash adds nothing when it is asked for again.
has_slot_again :
    (slots : List (Option Hash)) (i j : ℕ)
    → has_slot slots i ≡ true
    → has_slot slots j ≡ (j == i || has_slot slots j)
has_slot_again slots i j old = elim (Bool-cases (j == i)) [
  | inl same ↦ rw same (ap (has_slot slots) ((==_iff j i).0 same) ∙ old)
  | inr other ↦ rw other refl
]

-- Inserting the hash that belongs at `i` succeeds, first time or again.
pub insert-Holds :
    (s : ChunkHashSet) (hs : List Hash) (i : ℕ) {h : Hash}
    → Holds s hs
    → get_elem? hs i ≡ some h
    → (s' : ChunkHashSet) × (insert s i h ≡ ok s')
      × Holds s' hs
      × ((j : ℕ) → has_slot s'.hashes j ≡ (j == i || has_slot s.hashes j))
unfolding insert
insert-Holds s hs i {h} v e = elim (slot_at s.hashes hs i v.agrees e) [
  | inl (empty, fresh) ↦ (
    record { hashes = set_elem s.hashes i (some h); filled = s.filled + 1 },
    rw empty refl,
    record {
      counted = omega (arith, v.counted, held-set s.hashes i h empty);
      agrees = Agrees-set s.hashes hs i v.agrees e;
    },
    λ j.
        has_slot-set s.hashes i j h
          (omega (arith, length_of_Agrees s.hashes hs v.agrees, get_elem?-lt hs i e)),
  )
  | inr (same, old) ↦
      (s, rw same (rw (bytes_eq_refl h) refl), v, λ j. has_slot_again s.hashes i j old)
]

Agrees-replicate : (hs : List Hash) → Agrees (replicate (length hs) none) hs
Agrees-replicate [] = tt
Agrees-replicate (h ∷ hs) = (inl refl, Agrees-replicate hs)

held-replicate : (n : ℕ) → held (replicate n none) ≡ 0
held-replicate zero = refl
held-replicate (suc n) = held-replicate n

pub has_slot-replicate : (n j : ℕ) → has_slot (replicate n none) j ≡ false
has_slot-replicate zero j = refl
has_slot-replicate (suc n) zero = refl
has_slot-replicate (suc n) (suc j) = has_slot-replicate n j

pub new-Holds : (hs : List Hash) → Holds (new (length hs)) hs
unfolding new
new-Holds hs = record { counted = sym (held-replicate (length hs)); agrees = Agrees-replicate hs }

pub held-le-length : (slots : List (Option Hash)) → held slots ≤ length slots
held-le-length [] = omega arith
held-le-length (none ∷ slots) = omega (arith, held-le-length slots)
held-le-length (some h ∷ slots) = omega (arith, held-le-length slots)
