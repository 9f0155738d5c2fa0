-- ===== src/Core/Dispatch/Moves.antt =====
-- Taking an item and releasing behind it keep items, cursors and queue in step.
use speeed.Base.{
  All-map, some_inj, get_elem?-set, get_elem?-lt, ℕ, ◌≤◌, ◌<◌, ◌≡◌, ◌≢◌, refl, sym, ap, ◌∙◌, inl,
  inr, ◌==◌, ==_iff, Bool-cases, some, List, ◌∷◌, get_elem?, set, get_elem?-set_self,
  get_elem?-set_ne, arith,
}
use speeed.Core.Send.{ReadCursor, begin}
use speeed.Core.Send.Cursor.{begin-IsSafe}
use speeed.Core.Send.Queue.{WorkItem}
use speeed.Core.Dispatch.{sending, Worker, Sending}
use speeed.Core.Dispatch.Cursors.{
  IsInFlight, in_flight-before, begin-IsInFlight, begin-keeps, begin-released_to,
}
use speeed.Core.Dispatch.Tidy.{All-Behind-set, size_of, Sends, Tidy, Sends-set}

sending_inj : {a b : WorkItem} → sending a ≡ sending b → a ≡ b
sending_inj e = cc

-- The cursors once `item` is registered.
module _ (cursors : List ReadCursor) (item : WorkItem) (c : ReadCursor) where
  abbrev begun : List ReadCursor
  begun = set cursors item.file_index (begin c item.chunk_index)

  begun_self :
      get_elem? cursors item.file_index ≡ some c
      → get_elem? begun item.file_index ≡ some (begin c item.chunk_index)
  begun_self at =
      get_elem?-set_self cursors item.file_index (begin c item.chunk_index)
        (get_elem?-lt cursors item.file_index at)

  -- What was in flight stays in flight.
  begun-flight :
      get_elem? cursors item.file_index ≡ some c
      → (b : WorkItem)
      → ((d : ReadCursor) × (get_elem? cursors b.file_index ≡ some d) × IsInFlight d b.chunk_index)
      → (d : ReadCursor) × (get_elem? begun b.file_index ≡ some d) × IsInFlight d b.chunk_index
  begun-flight at b (d, e, h) = elim (Bool-cases (item.file_index == b.file_index)) [
    | inl same ↦
        let eq : item.file_index ≡ b.file_index = (==_iff _ _).0 same in
        let one : d ≡ c = some_inj (sym e ∙ ap (get_elem? cursors) (sym eq) ∙ at) in
        (
          begin c item.chunk_index,
          ap (get_elem? begun) (sym eq) ∙ begun_self at,
          begin-keeps c item.chunk_index b.chunk_index (rw (← one) h),
        )
    | inr other ↦ (
      d,
      get_elem?-set_ne cursors item.file_index b.file_index (begin c item.chunk_index)
            (λ p. cc (other, (==_iff _ _).1 p))
          ∙ e,
      h,
    )
  ]

module _ {env : Sending} {cursors : List ReadCursor} {queue : List WorkItem}
    {released : List (ℕ × ℕ × ℕ)} {workers : List Worker} (item : WorkItem) where
  -- An item leaves the queue, and no worker has it.
  pub Tidy-pop :
      Tidy env cursors (item ∷ queue) released workers → Tidy env cursors queue released workers
  Tidy-pop t = record {
    safe = t.safe;
    ahead = λ k c e. (t.ahead k c e).1;
    rises = t.rises.1;
    flight = t.flight;
    apart = t.apart;
    behind = t.behind;
  }

  module _ (c : ReadCursor) (at : get_elem? cursors item.file_index ≡ some c) where
    -- A worker takes the item, and the cursor of its file learns of it.
    pub Tidy-take :
        (i : ℕ) (x : Worker)
        → x.phase ≡ sending item
        → Tidy env cursors (item ∷ queue) released workers
        → Tidy env (begun cursors item c) queue released (set workers i x)
    Tidy-take i x takes t =
        let next : c.next_dispatch ≤ item.chunk_index = (t.ahead item.file_index c at).0 refl in
        let (safe, next_is) =
          begin-IsSafe (size_of env item.file_index) c item.chunk_index
            (t.safe item.file_index c at) next in
        let fresh : (j : ℕ) (b : WorkItem)
            → Sends workers j b
            → item.file_index ≡ b.file_index
            → item.chunk_index ≢ b.chunk_index =
          λ j b s same eq.
            let (d, e, h) = t.flight j b s in
            let lt =
              in_flight-before (size_of env b.file_index) d b.chunk_index (t.safe b.file_index d e)
                h in
            let one : d ≡ c = some_inj (sym e ∙ ap (get_elem? cursors) (sym same) ∙ at) in
            absurd (omega (arith, lt, next, eq, ap (λ r. r.next_dispatch) one)) in
        let item_of : (b : WorkItem) → x.phase ≡ sending b → item ≡ b =
          λ b p. sending_inj (sym takes ∙ p) in
        record {
          safe = λ k d e.
              elim (get_elem?-set cursors item.file_index k (begin c item.chunk_index) e) [
                | inl (same, is) ↦ rw (same, ← is) safe
                | inr (_, old) ↦ t.safe k d old
              ];
          ahead = λ k d e.
              elim (get_elem?-set cursors item.file_index k (begin c item.chunk_index) e) [
                | inl (same, is) ↦
                    All-map
                      (λ (l : WorkItem).
                        l.file_index ≡ item.file_index → item.chunk_index < l.chunk_index)
                      (λ (l : WorkItem). l.file_index ≡ k → d.next_dispatch ≤ l.chunk_index) queue
                      (λ l h eq.
                        let lt = h (eq ∙ same) in
                        omega (arith, lt, next_is, ap (λ r. r.next_dispatch) is))
                      t.rises.0
                | inr (_, old) ↦ (t.ahead k d old).1
              ];
          rises = t.rises.1;
          flight = λ j b s. elim (Sends-set workers i j x b s) [
            | inl (_, p) ↦ rw (← item_of b p) (
              begin c item.chunk_index,
              begun_self cursors item c at,
              begin-IsInFlight c item.chunk_index,
            )
            | inr (_, old) ↦ begun-flight cursors item c at b (t.flight j b old)
          ];
          apart = λ j k a b ne s u same. elim (Sends-set workers i j x a s) [
            | inl (ji, p) ↦ elim (Sends-set workers i k x b u) [
              | inl (ki, _) ↦ absurd (ne (ji ∙ sym ki))
              | inr (_, old) ↦
                  let mine = item_of a p in
                  λ eq.
                    fresh k b old (ap (λ r. r.file_index) mine ∙ same)
                      (ap (λ r. r.chunk_index) mine ∙ eq)
            ]
            | inr (_, old) ↦ elim (Sends-set workers i k x b u) [
              | inl (_, p) ↦
                  let mine = item_of b p in
                  λ eq.
                    fresh j a old (ap (λ r. r.file_index) mine ∙ sym same)
                      (ap (λ r. r.chunk_index) mine ∙ sym eq)
              | inr (_, old') ↦ t.apart j k a b ne old old' same
            ]
          ];
          behind =
              All-Behind-set cursors item.file_index c (begin c item.chunk_index) released at
                (omega (arith, begin-released_to c item.chunk_index)) t.behind;
        }
