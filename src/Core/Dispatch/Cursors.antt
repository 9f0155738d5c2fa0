-- ===== src/Core/Dispatch/Cursors.antt =====
-- What the cursor of a file knows of the chunks in flight.
use speeed.Base.{
  ℕ, ◌-◌, ◌*◌, ◌≤◌, ◌<◌, ◌≡◌, ◌≢◌, refl, inl, inr, true, ltb, ◌==◌, ==_iff, Bool-cases, Option,
  none, some, List, [], ◌∷◌, All, min, arith,
}
use speeed.Core.Send.{ReadCursor, begin, finish, has, remove, boundary_chunk, saturating_mul}
use speeed.Core.Send.Cursor.{IsSafe}

-- An item that is read, registered in its cursor.
abbrev pub IsInFlight : ReadCursor → ℕ → Type 0
IsInFlight c i = has c.in_flight i ≡ true

has-remove : (js : List ℕ) (i j : ℕ) → i ≢ j → has js j ≡ true → has (remove js i) j ≡ true
has-remove [] i j ne h = h
has-remove (k ∷ js) i j ne h = ground (arith, has-remove js i j ne)

All-has : (P : ℕ → Type 0) (js : List ℕ) (j : ℕ) → All P js → has js j ≡ true → P j
All-has P [] j a h = cc
All-has P (k ∷ js) j a h = elim (Bool-cases (k == j)) [
  | inl same ↦ rw (← (==_iff k j).0 same) a.0
  | inr other ↦ All-has P js j a.1 (rw other at h)
]

-- No chunk in flight starts before what was released.
pub in_flight-after :
    (chunk_size : ℕ) (c : ReadCursor) (i : ℕ)
    → IsSafe chunk_size c
    → IsInFlight c i
    → c.released_to ≤ i * chunk_size
in_flight-after chunk_size c i v h =
    All-has (λ j. c.released_to ≤ j * chunk_size) c.in_flight i v.reading h

pub in_flight-before :
    (chunk_size : ℕ) (c : ReadCursor) (i : ℕ)
    → IsSafe chunk_size c
    → IsInFlight c i
    → i < c.next_dispatch
in_flight-before chunk_size c i v h = All-has (λ j. j < c.next_dispatch) c.in_flight i v.ordered h

pub begin-IsInFlight : (c : ReadCursor) (i : ℕ) → IsInFlight (begin c i) i
unfolding begin
begin-IsInFlight c i = elim (Bool-cases (has c.in_flight i)) [
  | inl twice ↦ rw twice twice
  | inr fresh ↦ rw fresh (ground arith)
]

pub begin-keeps : (c : ReadCursor) (i j : ℕ) → IsInFlight c j → IsInFlight (begin c i) j
unfolding begin
begin-keeps c i j h = elim (Bool-cases (has c.in_flight i)) [
  | inl twice ↦ rw twice h
  | inr fresh ↦ rw fresh (ground arith)
]

pub begin-released_to : (c : ReadCursor) (i : ℕ) → (begin c i).released_to ≡ c.released_to
unfolding begin
begin-released_to c i = refl

-- What `finish` keeps of the other chunks, and what it lets go of.
abbrev pub EndsBy : ℕ → Option (ℕ × ℕ) → Type 0
EndsBy n none = Unit {0}
EndsBy n (some (start, end)) = end ≤ n

pub record Finished (i : ℕ) (c c' : ReadCursor) (range : Option (ℕ × ℕ)) : Type 0 where
  pub keeps : (j : ℕ) → i ≢ j → IsInFlight c j → IsInFlight c' j
  pub next : c'.next_dispatch ≡ c.next_dispatch
  pub grows : c.released_to ≤ c'.released_to
  pub range_end : EndsBy c'.released_to range

pub finish-Finished :
    (c : ReadCursor) (i batch chunk_size file_size : ℕ)
    → 0 < batch
    → let t = finish c i batch chunk_size file_size in Finished i c t.0 t.1
unfolding finish
finish-Finished c i batch chunk_size file_size some_bytes =
    let boundary : ℕ =
      min (saturating_mul (boundary_chunk (remove c.in_flight i) c.next_dispatch) chunk_size)
        file_size in
    elim (Bool-cases (ltb (boundary - c.released_to) batch)) [
      | inl little ↦ rw little (record {
        keeps = λ j ne h. has-remove c.in_flight i j ne h;
        next = refl;
        grows = omega arith;
        range_end = tt;
      })
      | inr enough ↦
          let far : batch ≤ boundary - c.released_to = ground arith in
          rw enough (record {
            keeps = λ j ne h. has-remove c.in_flight i j ne h;
            next = refl;
            grows = omega arith;
            range_end = omega arith;
          })
    ]
