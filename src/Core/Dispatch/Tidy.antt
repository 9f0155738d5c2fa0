-- ===== src/Core/Dispatch/Tidy.antt =====
-- The items that workers hold, the cursors and the queue fit to one another.
use speeed.Base.{
  All-map, some_inj, get_elem?-set, get_elem?-lt, ℕ, ◌≤◌, ◌<◌, ◌≡◌, ◌≢◌, ◌⊎◌, sym, ap, ◌∙◌, inl,
  inr, ◌==◌, ==_iff, Bool-cases, Option, none, some, List, [], ◌∷◌, get_elem?, set,
  get_elem?-set_self, get_elem?-set_ne, All, arith,
}
use speeed.Core.Source.{SourceFile}
use speeed.Core.Send.{ReadCursor}
use speeed.Core.Send.Cursor.{IsSafe}
use speeed.Core.Send.Queue.{WorkItem}
use speeed.Core.Dispatch.{sending, Worker, Sending}
use speeed.Core.Dispatch.Cursors.{IsInFlight}

abbrev pub size_at : Option SourceFile → ℕ
size_at none = 0
size_at (some src) = src.layout.chunk_size

abbrev pub size_of : Sending → ℕ → ℕ
size_of env k = size_at (get_elem? env.sources k)

-- Worker `i` sends this item.
abbrev pub Sends : List Worker → ℕ → WorkItem → Type 0
Sends workers i item = (x : Worker) × (get_elem? workers i ≡ some x) × (x.phase ≡ sending item)

abbrev pub IsBefore : WorkItem → List WorkItem → Type 0
IsBefore item queue =
    All (λ (l : WorkItem). l.file_index ≡ item.file_index → item.chunk_index < l.chunk_index) queue

-- The chunks of each file stand in their order, each once.
abbrev pub Rises : List WorkItem → Type 0
Rises [] = Unit {0}
Rises (item ∷ queue) = IsBefore item queue × Rises queue

-- A range that was released ends where the cursor of its file says, or before.
abbrev pub Behind : List ReadCursor → ℕ × ℕ × ℕ → Type 0
Behind cursors (k, start, end) =
    (c : ReadCursor) × (get_elem? cursors k ≡ some c) × (end ≤ c.released_to)

-- A cursor that moves on leaves what was released behind it.
Behind-set :
    (cursors : List ReadCursor) (k : ℕ) (c c' : ReadCursor) (r : ℕ × ℕ × ℕ)
    → get_elem? cursors k ≡ some c
    → c.released_to ≤ c'.released_to
    → Behind cursors r
    → Behind (set cursors k c') r
Behind-set cursors k c c' (j, start, end) at grows (d, e, le) = elim (Bool-cases (k == j)) [
  | inl same ↦
      let eq : k ≡ j = (==_iff _ _).0 same in
      let one : d ≡ c = some_inj (sym e ∙ ap (get_elem? cursors) (sym eq) ∙ at) in
      (
        c',
        ap (get_elem? (set cursors k c')) (sym eq)
            ∙ get_elem?-set_self cursors k c' (get_elem?-lt cursors k at),
        omega (arith, grows, le, ap (λ q. q.released_to) one),
      )
  | inr other ↦ (d, get_elem?-set_ne cursors k j c' (λ p. cc (other, (==_iff _ _).1 p)) ∙ e, le)
]

pub All-Behind-set :
    (cursors : List ReadCursor) (k : ℕ) (c c' : ReadCursor) (released : List (ℕ × ℕ × ℕ))
    → get_elem? cursors k ≡ some c
    → c.released_to ≤ c'.released_to
    → All (Behind cursors) released
    → All (Behind (set cursors k c')) released
All-Behind-set cursors k c c' released at grows a =
    All-map (Behind cursors) (Behind (set cursors k c')) released
      (λ r b. Behind-set cursors k c c' r at grows b) a

pub record Tidy (env : Sending) (cursors : List ReadCursor) (queue : List WorkItem)
    (released : List (ℕ × ℕ × ℕ)) (workers : List Worker) : Type 0 where
  pub safe : (k : ℕ) (c : ReadCursor) → get_elem? cursors k ≡ some c → IsSafe (size_of env k) c
  pub ahead :
      (k : ℕ) (c : ReadCursor)
      → get_elem? cursors k ≡ some c
      → All (λ (l : WorkItem). l.file_index ≡ k → c.next_dispatch ≤ l.chunk_index) queue
  pub rises : Rises queue
  pub flight :
      (i : ℕ) (item : WorkItem)
      → Sends workers i item
      → (c : ReadCursor) × (get_elem? cursors item.file_index ≡ some c)
        × IsInFlight c item.chunk_index
  pub apart :
      (i j : ℕ) (a b : WorkItem)
      → i ≢ j
      → Sends workers i a
      → Sends workers j b
      → a.file_index ≡ b.file_index
      → a.chunk_index ≢ b.chunk_index
  pub behind : All (Behind cursors) released

-- What a worker sends after a turn: what it sent before, or what it has taken.
pub Sends-set :
    (workers : List Worker) (i j : ℕ) (x : Worker) (b : WorkItem)
    → Sends (set workers i x) j b
    → ((j ≡ i) × (x.phase ≡ sending b)) ⊎ ((i ≢ j) × Sends workers j b)
Sends-set workers i j x b (y, at, p) = elim (get_elem?-set workers i j x at) [
  | inl (same, is) ↦ inl (same, ap (λ w. w.phase) is ∙ p)
  | inr (other, is) ↦ inr (other, (y, is, p))
]

module _ {env : Sending} {cursors : List ReadCursor} {queue : List WorkItem}
    {released : List (ℕ × ℕ × ℕ)} {workers : List Worker} where
  -- A worker that does not send any more.
  pub Tidy-retire :
      (i : ℕ) (x : Worker)
      → ((b : WorkItem) → x.phase ≢ sending b)
      → Tidy env cursors queue released workers
      → Tidy env cursors queue released (set workers i x)
  Tidy-retire i x quiet t = record {
    safe = t.safe;
    ahead = t.ahead;
    rises = t.rises;
    flight = λ j b s. elim (Sends-set workers i j x b s) [
      | inl (_, p) ↦ absurd (quiet b p)
      | inr (_, old) ↦ t.flight j b old
    ];
    apart = λ j k a b ne s u same. elim (Sends-set workers i j x a s) [
      | inl (_, p) ↦ absurd (quiet a p)
      | inr (_, old) ↦ elim (Sends-set workers i k x b u) [
        | inl (_, p) ↦ absurd (quiet b p)
        | inr (_, old') ↦ t.apart j k a b ne old old' same
      ]
    ];
    behind = t.behind;
  }
