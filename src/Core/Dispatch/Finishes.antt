-- ===== src/Core/Dispatch/Finishes.antt =====
-- Finishing a chunk and releasing behind it keep items, cursors and queue in step.
use speeed.Base.{
  some_inj, get_elem?-set, get_elem?-lt, ℕ, ◌≡◌, ◌≢◌, ◌⊎◌, sym, ap, ◌∙◌, inl, inr, ◌==◌, ==_iff,
  Bool-cases, Option, none, some, List, [], ◌∷◌, get_elem?, set, get_elem?-set_self,
  get_elem?-set_ne, All, All-append,
}
use speeed.Core.Send.{ReadCursor}
use speeed.Core.Send.Cursor.{IsSafe}
use speeed.Core.Send.Queue.{WorkItem}
use speeed.Core.Dispatch.{sending, Worker, Sending, released_with}
use speeed.Core.Dispatch.Cursors.{EndsBy, Finished}
use speeed.Core.Dispatch.Tidy.{All-Behind-set, Behind, size_of, Sends, Tidy, Sends-set}

-- What is let go of ends where the cursor of the file is now.
released_with-Behind :
    (cursors : List ReadCursor) (k : ℕ) (c : ReadCursor) (range : Option (ℕ × ℕ))
    (released : List (ℕ × ℕ × ℕ))
    → get_elem? cursors k ≡ some c
    → EndsBy c.released_to range
    → All (Behind cursors) released
    → All (Behind cursors) (released_with k range released)
released_with-Behind cursors k c none released at ends a = a
released_with-Behind cursors k c (some (start, end)) released at ends a =
    All-append (Behind cursors) released ((k, start, end) ∷ []) a ((c, at, ends), tt)

module _ {env : Sending} {cursors : List ReadCursor} {queue : List WorkItem}
    {released : List (ℕ × ℕ × ℕ)} {workers : List Worker} (item : WorkItem) (c c' : ReadCursor)
    (range : Option (ℕ × ℕ)) (at : get_elem? cursors item.file_index ≡ some c) where
  -- A worker has written its chunk, and the cursor of its file learns of it.
  pub Tidy-done :
      (i : ℕ) (x : Worker)
      → ((b : WorkItem) → x.phase ≢ sending b)
      → Sends workers i item
      → IsSafe (size_of env item.file_index) c'
      → Finished item.chunk_index c c' range
      → Tidy env cursors queue released workers
      → Tidy env
          (set cursors item.file_index c')
          queue
          (released_with item.file_index range released)
          (set workers i x)
  Tidy-done i x quiet mine safe f t =
      let k : ℕ = item.file_index in
      let split : (j : ℕ) (d : ReadCursor)
          → get_elem? (set cursors k c') j ≡ some d
          → ((j ≡ k) × (c' ≡ d)) ⊎ ((k ≢ j) × (get_elem? cursors j ≡ some d)) =
        λ j d e. get_elem?-set cursors k j c' e in
      record {
        safe = λ j d e. elim (split j d e) [
          | inl (same, is) ↦ rw (same, ← is) safe
          | inr (_, old) ↦ t.safe j d old
        ];
        ahead = λ j d e. elim (split j d e) [
          | inl (same, is) ↦ rw (same, ← is, f.next) (t.ahead k c at)
          | inr (_, old) ↦ t.ahead j d old
        ];
        rises = t.rises;
        flight = λ j b s. elim (Sends-set workers i j x b s) [
          | inl (_, p) ↦ absurd (quiet b p)
          | inr (other, old) ↦ elim (Bool-cases (k == b.file_index)) [
            | inl same ↦
                let eq : k ≡ b.file_index = (==_iff _ _).0 same in
                let (d, e, h) = t.flight j b old in
                let one : d ≡ c = some_inj (sym e ∙ ap (get_elem? cursors) (sym eq) ∙ at) in
                (
                  c',
                  ap (get_elem? (set cursors k c')) (sym eq)
                      ∙ get_elem?-set_self cursors k c' (get_elem?-lt cursors k at),
                  f.keeps b.chunk_index (t.apart i j item b other mine old eq) (rw (← one) h),
                )
            | inr differs ↦
                let (d, e, h) = t.flight j b old in
                (
                  d,
                  get_elem?-set_ne cursors k b.file_index c' (λ p. cc (differs, (==_iff _ _).1 p))
                      ∙ e,
                  h,
                )
          ]
        ];
        apart = λ j l a b ne s u same. elim (Sends-set workers i j x a s) [
          | inl (_, p) ↦ absurd (quiet a p)
          | inr (_, old) ↦ elim (Sends-set workers i l x b u) [
            | inl (_, p) ↦ absurd (quiet b p)
            | inr (_, old') ↦ t.apart j l a b ne old old' same
          ]
        ];
        behind =
            released_with-Behind (set cursors k c') k c' range released
              (get_elem?-set_self cursors k c' (get_elem?-lt cursors k at)) f.range_end
              (All-Behind-set cursors k c c' released at f.grows t.behind);
      }
