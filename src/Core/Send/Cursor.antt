-- ===== src/Core/Send/Cursor.antt =====
-- What is released is never what a stream still reads.
use speeed.Base.{
  All-map, ℕ, ◌+◌, ◌-◌, ◌*◌, ◌≤◌, ◌<◌, ◌≡◌, refl, inl, inr, min, max, ltb, ◌==◌, Bool-cases, Option,
  none, some, List, [], ◌∷◌, All, arith,
}
use speeed.Core.Send.{
  ReadCursor, begin, finish, has, remove, first, boundary_chunk, unwrap_or, least_with,
  saturating_mul,
}

-- No chunk in flight, and none that is still to be dispatched, starts before `released_to`.
pub record IsSafe (chunk_size : ℕ) (c : ReadCursor) : Type 0 where
  pub reading : All (λ i. c.released_to ≤ i * chunk_size) c.in_flight
  pub ahead : c.released_to ≤ c.next_dispatch * chunk_size
  pub ordered : All (λ i. i < c.next_dispatch) c.in_flight

-- A range that is handed out follows the one before, holds at least a batch, ends inside the file,
-- and ends where each chunk in flight starts, or before.
abbrev pub Released : ℕ → ℕ → ℕ → ReadCursor → ReadCursor → Option (ℕ × ℕ) → Type 0
Released batch chunk_size file_size c c' none = c'.released_to ≡ c.released_to
Released batch chunk_size file_size c c' (some (start, end)) =
    (start ≡ c.released_to)
    × (end ≡ c'.released_to)
    × (start + batch ≤ end)
    × (end ≤ file_size)
    × All (λ i. end ≤ i * chunk_size) c'.in_flight

All-remove : (P : ℕ → Type 0) (js : List ℕ) (i : ℕ) → All P js → All P (remove js i)
All-remove P [] i a = tt
All-remove P (j ∷ js) i a = elim (Bool-cases (j == i)) [
  | inl same ↦ rw same (All-remove P js i a.1)
  | inr other ↦ rw other (a.0, All-remove P js i a.1)
]

unwrap_or-least_with :
    (j d : ℕ) (o : Option ℕ) → j < d → unwrap_or (least_with j o) d ≡ min j (unwrap_or o d)
unwrap_or-least_with j d none h = omega arith
unwrap_or-least_with j d (some k) h = refl

boundary_chunk-cons :
    (j : ℕ) (js : List ℕ) (d : ℕ) → j < d → boundary_chunk (j ∷ js) d ≡ min j (boundary_chunk js d)
boundary_chunk-cons j js d h = unwrap_or-least_with j d (first js) h

-- The least is at most each.
boundary_chunk-le :
    (js : List ℕ) (d : ℕ) → All (λ j. j < d) js → All (λ j. boundary_chunk js d ≤ j) js
boundary_chunk-le [] d a = tt
boundary_chunk-le (j ∷ js) d a =
    let least = boundary_chunk-cons j js d a.0 in
    (
      omega (arith, least),
      All-map (λ i. boundary_chunk js d ≤ i) (λ i. boundary_chunk (j ∷ js) d ≤ i) js
          (λ i h. omega (arith, least, h)) (boundary_chunk-le js d a.1),
    )

boundary_chunk-le-next : (js : List ℕ) (d : ℕ) → All (λ j. j < d) js → boundary_chunk js d ≤ d
boundary_chunk-le-next [] d a = omega arith
boundary_chunk-le-next (j ∷ js) d a =
    omega (arith, boundary_chunk-cons j js d a.0, boundary_chunk-le-next js d a.1)

-- When a chunk behind all that were dispatched begins, a safe cursor stays safe, and the next chunk to
-- be dispatched is the one after it.
pub begin-IsSafe :
    (chunk_size : ℕ) (c : ReadCursor) (index : ℕ)
    → IsSafe chunk_size c
    → c.next_dispatch ≤ index
    → IsSafe chunk_size (begin c index) × ((begin c index).next_dispatch ≡ index + 1)
unfolding begin
begin-IsSafe chunk_size c index v h =
    let far : c.released_to ≤ index * chunk_size =
      let le : c.next_dispatch * chunk_size ≤ index * chunk_size = grind arith in
      omega (arith, v.ahead) in
    let next : max c.next_dispatch (index + 1) ≡ index + 1 = omega arith in
    let up =
      All-map (λ i. i < c.next_dispatch) (λ i. i < max c.next_dispatch (index + 1)) c.in_flight
        (λ i lt. omega arith) v.ordered in
    elim (Bool-cases (has c.in_flight index)) [
      | inl twice ↦
          rw twice (
            record { reading = v.reading; ahead = rw next (omega (arith, far)); ordered = up },
            next,
          )
      | inr fresh ↦ rw fresh (
        record {
          reading = (far, v.reading);
          ahead = rw next (omega (arith, far));
          ordered = (omega arith, up);
        },
        next,
      )
    ]

-- On a safe cursor and with a batch that is not empty, `finish` leaves a safe cursor. When it hands out
-- a range to release, the range follows what was released before, holds at least the batch, ends
-- inside the file, and ends before each chunk that is still in flight.
pub finish-IsSafe :
    (c : ReadCursor) (index batch chunk_size file_size : ℕ)
    → IsSafe chunk_size c
    → 0 < batch
    → IsSafe chunk_size (finish c index batch chunk_size file_size).0
      × Released batch chunk_size file_size c
          (finish c index batch chunk_size file_size).0
          (finish c index batch chunk_size file_size).1
unfolding finish
finish-IsSafe c index batch chunk_size file_size v h =
    let js = remove c.in_flight index in
    let ordered = All-remove (λ i. i < c.next_dispatch) c.in_flight index v.ordered in
    let least = boundary_chunk-le js c.next_dispatch ordered in
    let below = boundary_chunk-le-next js c.next_dispatch ordered in
    let b : ℕ = boundary_chunk js c.next_dispatch in
    let boundary : ℕ = min (saturating_mul b chunk_size) file_size in
    let ahead : boundary ≤ c.next_dispatch * chunk_size =
      let le : b * chunk_size ≤ c.next_dispatch * chunk_size = grind arith in omega arith in
    let reading : All (λ i. boundary ≤ i * chunk_size) js =
      All-map (λ i. b ≤ i) (λ i. boundary ≤ i * chunk_size) js
        (λ i lt. let le : b * chunk_size ≤ i * chunk_size = grind arith in omega arith) least in
    elim (Bool-cases (ltb (boundary - c.released_to) batch)) [
      | inl little ↦ rw little (
        record {
          reading = All-remove (λ i. c.released_to ≤ i * chunk_size) c.in_flight index v.reading;
          ahead = v.ahead;
          ordered = ordered;
        },
        refl,
      )
      | inr enough ↦
          let far : batch ≤ boundary - c.released_to = ground arith in
          rw enough (
            record { reading = reading; ahead = ahead; ordered = ordered },
            (refl, refl, omega arith, omega arith, reading),
          )
    ]
