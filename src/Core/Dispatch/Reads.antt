-- ===== src/Core/Dispatch/Reads.antt =====
-- What a worker sends, and what is still in the queue, is not released.
use speeed.Base.{
  All-map, some_inj, ℕ, zero, suc, ◌^◌, ◌*◌, ◌≤◌, ◌<◌, ◌≡◌, ◌≢◌, refl, sym, ap, ◌∙◌, Bool, true,
  some, List, [], ◌∷◌, get_elem?, replicate, All, ok, ok_inj, arith,
}
use speeed.Core.Source.{SourceFile}
use speeed.Core.Send.{ReadCursor, default}
use speeed.Core.Send.Queue.{Entry, FileProgress, WorkItem, build_queue, Work}
use speeed.Core.Send.Planned.{Answered, wanted_bytes, build_queue-wanted}
use speeed.Core.Dispatch.{idle, sending, Worker, Shared, Sending, shared_of, cursors_of, dispatch}
use speeed.Core.Dispatch.Cursors.{in_flight-after}
use speeed.Core.Dispatch.Tidy.{size_of, Sends, Rises, Behind, Tidy}
use speeed.Core.Dispatch.Ascends.{wanted-Rises}
use speeed.Core.Dispatch.Releases.{dispatch-Fits}
use speeed.Core.Dispatch.Sent.{fresh}

-- The range is of another file, or it ends where the chunk of the item starts, or before.
abbrev pub Clears : Sending → WorkItem → ℕ × ℕ × ℕ → Type 0
Clears env item (k, start, end) = k ≡ item.file_index → end ≤ item.chunk_index * size_of env k

cursors_of-default :
    (sources : List SourceFile) (k : ℕ) (c : ReadCursor)
    → get_elem? (cursors_of sources) k ≡ some c
    → default ≡ c
cursors_of-default [] k c e = cc
cursors_of-default (src ∷ sources) zero c e = some_inj e
cursors_of-default (src ∷ sources) (suc k) c e = cursors_of-default sources k c e

fresh_rests :
    (n i : ℕ) (item : WorkItem) (x : Worker)
    → get_elem? (replicate n fresh) i ≡ some x
    → x.phase ≢ sending item
fresh_rests zero i item x e p = cc
fresh_rests (suc n) zero item x e p =
    let is : fresh ≡ x = some_inj e in
    let no_item : idle ≡ sending item = ap (λ w. w.phase) is ∙ p in cc
fresh_rests (suc n) (suc i) item x e p = fresh_rests n i item x e p

All-any : (P : WorkItem → Type 0) (queue : List WorkItem) → ((l : WorkItem) → P l) → All P queue
All-any P [] f = tt
All-any P (l ∷ queue) f = (f l, All-any P queue f)

-- At the start.
start-Tidy :
    (env : Sending) (queue : List WorkItem) (n : ℕ)
    → Rises queue
    → let s = shared_of env queue in Tidy env s.cursors s.queue s.released (replicate n fresh)
start-Tidy env queue n rises = record {
  safe = λ k c e.
      rw (← cursors_of-default env.sources k c e)
        (record { reading = tt; ahead = omega arith; ordered = tt });
  ahead = λ k c e.
      rw (← cursors_of-default env.sources k c e) (
        All-any (λ (l : WorkItem). l.file_index ≡ k → 0 ≤ l.chunk_index) queue
          (λ l _. omega arith));
  rises = rises;
  flight = λ i item (x, at, p). absurd (fresh_rests n i item x at p);
  apart = λ i j a b ne (x, at, p) u same. absurd (fresh_rests n i a x at p);
  behind = tt;
}

-- Each range ends at the cursor of its file, or before.
Clears-item :
    (env : Sending) (cursors : List ReadCursor) (item : WorkItem) (r : ℕ × ℕ × ℕ)
    → ((c : ReadCursor)
        → get_elem? cursors item.file_index ≡ some c
        → c.released_to ≤ item.chunk_index * size_of env item.file_index)
    → Behind cursors r
    → Clears env item r
Clears-item env cursors item (k, start, end) far (d, e, le) same =
    let below = far d (ap (get_elem? cursors) (sym same) ∙ e) in rw same (omega (arith, le, below))

module _ {env : Sending} {cursors : List ReadCursor} {queue : List WorkItem}
    {released : List (ℕ × ℕ × ℕ)} {workers : List Worker}
    (t : Tidy env cursors queue released workers) where
  Sends-Clears : (i : ℕ) (item : WorkItem) → Sends workers i item → All (Clears env item) released
  Sends-Clears i item s =
      let (d, e, h) = t.flight i item s in
      All-map (Behind cursors) (Clears env item) released
        (λ r b.
          Clears-item env cursors item r
            (λ c at.
              let one : d ≡ c = some_inj (sym e ∙ at) in
              in_flight-after (size_of env item.file_index) c item.chunk_index
                (t.safe item.file_index c at) (rw one at h))
            b)
        t.behind

  queue_item-Clears :
      (item : WorkItem)
      → ((c : ReadCursor)
          → get_elem? cursors item.file_index ≡ some c
          → c.next_dispatch ≤ item.chunk_index)
      → All (Clears env item) released
  queue_item-Clears item next =
      All-map (Behind cursors) (Clears env item) released
        (λ r b.
          Clears-item env cursors item r
            (λ c at.
              let size : ℕ = size_of env item.file_index in
              let le = next c at in
              let safe = t.safe item.file_index c at in
              let far : c.next_dispatch * size ≤ item.chunk_index * size = grind arith in
              omega (arith, far, safe.ahead))
            b)
        t.behind

  queue-Clears :
      (ls : List WorkItem)
      → ((k : ℕ) (c : ReadCursor)
          → get_elem? cursors k ≡ some c
          → All (λ (l : WorkItem). l.file_index ≡ k → c.next_dispatch ≤ l.chunk_index) ls)
      → All (λ l. All (Clears env l) released) ls
  queue-Clears [] ahead = tt
  queue-Clears (l ∷ ls) ahead = (
    queue_item-Clears l (λ c at. (ahead l.file_index c at).0 refl),
    queue-Clears ls (λ k c at. (ahead k c at).1),
  )

-- The receiver's answers fit the entries, their total is a u64, and pages are released. Then in
-- whatever order the workers take their turns, and wherever their writes fail: no range that was
-- released reaches into a chunk that a worker is sending, nor into one that is still in the work queue.
pub dispatch-Clears :
    (env : Sending) (accepted : List ℕ) (progress : List FileProgress) (entries : List Entry)
    (work : Work) (n : ℕ) (schedule : List (ℕ × Bool)) (shared : Shared) (workers : List Worker)
    → env.release_pages ≡ true
    → All (Answered progress) entries
    → wanted_bytes accepted progress entries < 2 ^ 64
    → build_queue accepted progress entries ≡ ok work
    → dispatch env (shared_of env work.queue) (replicate n fresh) schedule ≡ (shared, workers)
    → ((i : ℕ) (item : WorkItem) → Sends workers i item → All (Clears env item) shared.released)
      × All (λ item. All (Clears env item) shared.released) shared.queue
dispatch-Clears env accepted progress entries work n schedule shared workers on a fits built e =
    let same =
      ap (λ w. w.queue)
        (ok_inj (sym (build_queue-wanted accepted progress entries a fits) ∙ built)) in
    let rises : Rises work.queue = rw (← same) (wanted-Rises accepted progress entries 0) in
    let ends =
      dispatch-Fits env on schedule (shared_of env work.queue) (replicate n fresh)
        (start-Tidy env work.queue n rises) in
    let t : Tidy env shared.cursors shared.queue shared.released workers =
      rw (← ap (λ r. r.0) e, ← ap (λ r. r.1) e) ends in
    (Sends-Clears t, queue-Clears t shared.queue t.ahead)
