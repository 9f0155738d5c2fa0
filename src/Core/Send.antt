-- ===== src/Core/Send.antt =====
-- core/crates/aetherlink-core/src/send.rs: which pages of a source file may be released while
-- several streams read it. A `BTreeSet` is a list without repetitions; its `first` is the least.
pub mod Cursor
pub mod Queue
pub mod Announce
pub mod Pushed
pub mod Planned
pub mod Delivered
pub mod Arrives
mod Tests
use speeed.Base.{
  ℕ, zero, suc, ◌+◌, ◌-◌, ◌*◌, ◌^◌, min, max, Bool, true, false, not, ◌||◌, ltb, ◌==◌,
  if◌then◌else◌, Option, none, some, List, [], ◌∷◌,
}

-- `saturating_mul` on u64
abbrev pub saturating_mul : ℕ → ℕ → ℕ
saturating_mul a b = min (a * b) (2 ^ 64 - 1)

pub record ReadCursor : Type 0 where
  pub in_flight : List ℕ
  pub next_dispatch : ℕ
  pub released_to : ℕ

abbrev pub default : ReadCursor
default = record { in_flight = []; next_dispatch = 0; released_to = 0 }

abbrev pub has : List ℕ → ℕ → Bool
has [] i = false
has (j ∷ js) i = j == i || has js i

abbrev pub remove : List ℕ → ℕ → List ℕ
remove [] i = []
remove (j ∷ js) i = let rest = remove js i in if j == i then rest else j ∷ rest

abbrev pub least_with : ℕ → Option ℕ → Option ℕ
least_with j none = some j
least_with j (some k) = some (min j k)

abbrev pub first : List ℕ → Option ℕ
first [] = none
first (j ∷ js) = least_with j (first js)

unfoldable pub begin : ReadCursor → ℕ → ReadCursor
begin c index = record c {
  in_flight = if has c.in_flight index then c.in_flight else index ∷ c.in_flight;
  next_dispatch = max c.next_dispatch (index + 1);
}

-- The lowest chunk in flight, or else the chunk that is dispatched next.
abbrev pub unwrap_or : Option ℕ → ℕ → ℕ
unwrap_or none d = d
unwrap_or (some i) d = i

abbrev pub boundary_chunk : List ℕ → ℕ → ℕ
boundary_chunk in_flight next_dispatch = unwrap_or (first in_flight) next_dispatch

unfoldable pub finish : ReadCursor → ℕ → ℕ → ℕ → ℕ → ReadCursor × Option (ℕ × ℕ)
finish c index batch chunk_size file_size =
    let in_flight = remove c.in_flight index in
    let boundary =
      min (saturating_mul (boundary_chunk in_flight c.next_dispatch) chunk_size) file_size in
    if ltb (boundary - c.released_to) batch then (record c { in_flight = in_flight }, none) else (
      record c { in_flight = in_flight; released_to = boundary },
      some (c.released_to, boundary),
    )
