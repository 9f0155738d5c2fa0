-- ===== src/Proto/Hashes/Arrival.antt =====
-- Chunk hashes may arrive in any order, and more than once.
use speeed.Base.{
  ℕ, zero, suc, ◌+◌, ◌<◌, ◌≡◌, refl, sym, ap, ◌∙◌, ◌⊎◌, inl, inr, Bool, true, false, ◌&&◌, ◌||◌,
  ◌==◌, if◌then◌else◌, Option, none, some, List, [], ◌∷◌, length, get_elem?, All, arith, Result, ok,
  panic, ◌>>=◌, ==_iff, ne→==_false,
}
use speeed.Base.Bytes.{Bytes}
use speeed.Proto.Errors.{Error}
use speeed.Proto.Hashes.{
  Hash, ChunkHashSet, new, insert, is_complete, root, unwrap_all, root_from_chunk_hashes,
}
use speeed.Proto.Hashes.Slots.{
  held, Agrees, Holds, has_slot, insert-Holds, held-le-length, has_slot-replicate, new-Holds,
}

-- Inserts at each index of `order` the hash that `hs` has there.
abbrev pub insert_all : List Hash → List ℕ → ChunkHashSet → Result Error ChunkHashSet
insert_all hs [] s = ok s
insert_all hs (i ∷ order) s = elim (get_elem? hs i) [
  | none ↦ panic
  | some h ↦ insert s i h >>= insert_all hs order
]

abbrev pub contains : List ℕ → ℕ → Bool
contains [] j = false
contains (i ∷ order) j = contains order j || j == i

-- Whether `order` names each of the `n` indices from `i` on.
abbrev pub covers : List ℕ → ℕ → ℕ → Bool
covers order zero i = true
covers order (suc n) i = contains order i && covers order n (suc i)

in_range : (hs : List Hash) (i : ℕ) → i < length hs → (h : Hash) × (get_elem? hs i ≡ some h)
in_range [] i lt = elim lt [ ]
in_range (h ∷ hs) zero lt = (h, refl)
in_range (h ∷ hs) (suc i) lt = in_range hs i (omega arith)

or_assoc : (a b c d : Bool) → a ≡ (b || c) → (d || a) ≡ ((d || b) || c)
or_assoc a b c true e = refl
or_assoc a b c false e = e

or_false : (b : Bool) → (b || false) ≡ b
or_false true = refl
or_false false = refl

insert_all_step :
    (hs : List Hash) (i : ℕ) (order : List ℕ) (s s1 s2 : ChunkHashSet) {h : Hash}
    → get_elem? hs i ≡ some h
    → insert s i h ≡ ok s1
    → insert_all hs order s1 ≡ ok s2
    → insert_all hs (i ∷ order) s ≡ ok s2
insert_all_step hs i order s s1 s2 at e1 e2 = rw (insert_all, at, e1, e2) refl

insert_all-Holds :
    (hs : List Hash) (order : List ℕ) (s : ChunkHashSet)
    → All (λ i. i < length hs) order
    → Holds s hs
    → (s' : ChunkHashSet) × (insert_all hs order s ≡ ok s')
      × Holds s' hs
      × ((j : ℕ) → has_slot s'.hashes j ≡ (contains order j || has_slot s.hashes j))
insert_all-Holds hs [] s r v = (s, refl, v, λ j. refl)
insert_all-Holds hs (i ∷ order) s r v =
    let (h, at) = in_range hs i r.0 in
    let (s1, e1, v1, c1) = insert-Holds s hs i v at in
    let (s2, e2, v2, c2) = insert_all-Holds hs order s1 r.1 v1 in
    (
      s2,
      insert_all_step hs i order s s1 s2 at e1 e2,
      v2,
      λ j. c2 j ∙ or_assoc _ _ _ (contains order j) (c1 j),
    )

-- Either each slot is filled and the slots are `hs`, or one of them is missing.
filled_or_missing :
    (slots : List (Option Hash)) (hs : List Hash) (order : List ℕ) (i : ℕ)
    → Agrees slots hs
    → ((j : ℕ) → has_slot slots j ≡ contains order (j + i))
    → ((covers order (length hs) i ≡ true)
        × (held slots ≡ length slots)
        × (unwrap_all slots ≡ ok hs))
      ⊎ ((covers order (length hs) i ≡ false) × (held slots < length slots))
unfolding unwrap_all
filled_or_missing [] [] order i a c = inl (refl, refl, refl)
filled_or_missing [] (h ∷ hs) order i a c = absurd a
filled_or_missing (o ∷ slots) [] order i a c = absurd a
filled_or_missing (none ∷ slots) (h ∷ hs) order i a c =
    let here : contains order i ≡ false = ap (contains order) (omega arith) ∙ sym (c 0) in
    inr (rw here refl, omega (arith, held-le-length slots))
filled_or_missing (some g ∷ slots) (h ∷ hs) order i a c =
    let next : (j : ℕ) → has_slot slots j ≡ contains order (j + suc i) =
      λ j. c (suc j) ∙ ap (contains order) (omega arith) in
    let here : contains order i ≡ true = ap (contains order) (omega arith) ∙ sym (c 0) in
    let same : g ≡ h = elim a.0 [ inl p ↦ cc | inr p ↦ cc ] in
    elim (filled_or_missing slots hs order (suc i) a.1 next) [
      | inl (all, count, read) ↦
          inl (rw here all, ap suc count, rw read (ap (λ x. ok (x ∷ hs)) same))
      | inr (gap, count) ↦ inr (rw here gap, omega (arith, count))
    ]

root-Holds :
    (blake3 : Bytes → Hash) (s : ChunkHashSet) (hs : List Hash) (order : List ℕ)
    → Holds s hs
    → ((j : ℕ) → has_slot s.hashes j ≡ contains order (j + 0))
    → root blake3 s ≡ (
        if covers order (length hs) 0
        then ok (some (root_from_chunk_hashes blake3 hs))
        else ok none)
unfolding root is_complete
root-Holds blake3 s hs order v c = elim (filled_or_missing s.hashes hs order 0 v.agrees c) [
  | inl (all, count, read) ↦
      rw all (rw read (rw ((==_iff s.filled (length s.hashes)).1 (v.counted ∙ count)) refl))
  | inr (gap, count) ↦
      rw gap
        (rw (ne→==_false s.filled (length s.hashes) (λ e. omega (arith, v.counted, count, e))) refl)
]

-- Hashes put into a fresh set at the indices of `order`, in any order and more than once, each the
-- one that `hs` has at its index, are all accepted, provided each index is below the count. The
-- set then has a root exactly when `order` names each index, and that root is the one that
-- `root_from_chunk_hashes` gives for `hs`: the order of arrival does not matter.
pub root-insert_all :
    (blake3 : Bytes → Hash) (hs : List Hash) (order : List ℕ)
    → All (λ i. i < length hs) order
    → (s : ChunkHashSet) × (insert_all hs order (new (length hs)) ≡ ok s)
      × (root blake3 s ≡ (
          if covers order (length hs) 0
          then ok (some (root_from_chunk_hashes blake3 hs))
          else ok none))
unfolding new
root-insert_all blake3 hs order r =
    let (s, e, v, c) = insert_all-Holds hs order (new (length hs)) r (new-Holds hs) in
    (
      s,
      e,
      root-Holds blake3 s hs order v λ j.
          c j
          ∙ rw (has_slot-replicate (length hs) j) (or_false _ ∙ ap (contains order) (omega arith)),
    )
