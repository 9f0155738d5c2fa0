-- ===== src/Core/Dispatch/Releases.antt =====
-- No page is released that a worker still sends.
use speeed.Base.{
  some_inj, ℕ, zero, suc, ◌<◌, ◌≡◌, ◌≢◌, refl, sym, ap, ◌∙◌, inl, inr, Bool, true, false, Option,
  none, some, Option-cases, List, [], ◌∷◌, get_elem?, set, max, ok, Result-cases, >>=-eq-ok, ok_inj,
  or_panic, or_panic-eq-ok, map_err, arith,
}
use speeed.Proto.Errors.{add_u64}
use speeed.Proto.Chunk.{range}
use speeed.Core.Errors.{io, wire}
use speeed.Core.Source.{SourceFile, chunk, release_batch_bytes}
use speeed.Core.Send.{ReadCursor, finish}
use speeed.Core.Send.Cursor.{IsSafe, finish-IsSafe}
use speeed.Core.Send.Queue.{WorkItem, chunk_frames}
use speeed.Core.Dispatch.{
  Phase, idle, sending, ended, failed, Worker, Shared, Sending, take_item, release_item,
  released_with, send_item, step_of, turn, dispatch,
}
use speeed.Core.Dispatch.Cursors.{Finished, finish-Finished}
use speeed.Core.Dispatch.Tidy.{size_at, size_of, Tidy, Tidy-retire}
use speeed.Core.Dispatch.Moves.{Tidy-pop, Tidy-take}
use speeed.Core.Dispatch.Finishes.{Tidy-done}

-- The shared state fits to what the workers do.
abbrev pub Fits : Sending → Shared → List Worker → Type 0
Fits env shared workers = Tidy env shared.cursors shared.queue shared.released workers

-- A turn is a step of one worker.
turn-set :
    (env : Sending) (breaks : Bool) (shared : Shared) (workers : List Worker) (i : ℕ) (x : Worker)
    → get_elem? workers i ≡ some x
    → let t = step_of x.phase env breaks shared x in
      turn env breaks shared workers i ≡ (t.0, set workers i t.1)
unfolding turn
turn-set env breaks shared [] i x e = cc
turn-set env breaks shared (y ∷ ys) zero x e = rw (some_inj e) refl
turn-set env breaks shared (y ∷ ys) (suc i) x e = rw (turn-set env breaks shared ys i x e) refl

turn-nobody :
    (env : Sending) (breaks : Bool) (shared : Shared) (workers : List Worker) (i : ℕ)
    → get_elem? workers i ≡ none
    → turn env breaks shared workers i ≡ (shared, workers)
unfolding turn
turn-nobody env breaks shared [] i e = refl
turn-nobody env breaks shared (y ∷ ys) zero e = cc
turn-nobody env breaks shared (y ∷ ys) (suc i) e = rw (turn-nobody env breaks shared ys i e) refl

-- What writing a chunk leaves of the cursors and the released ranges.
record Done (env : Sending) (item : WorkItem) (shared shared' : Shared) : Type 0 where
  pub cursor : ReadCursor
  pub cursor' : ReadCursor
  pub let_go : Option (ℕ × ℕ)
  pub at : get_elem? shared.cursors item.file_index ≡ some cursor
  pub finished : Finished item.chunk_index cursor cursor' let_go
  pub stays_safe :
      IsSafe (size_of env item.file_index) cursor → IsSafe (size_of env item.file_index) cursor'
  pub queue_is : shared'.queue ≡ shared.queue
  pub cursors_are : shared'.cursors ≡ set shared.cursors item.file_index cursor'
  pub released_are : shared'.released ≡ released_with item.file_index let_go shared.released

module _ (env : Sending) (on : env.release_pages ≡ true) where
  release_item-Done :
      (src : SourceFile) (item : WorkItem) (shared shared' : Shared)
      → get_elem? env.sources item.file_index ≡ some src
      → release_item env src item shared ≡ ok shared'
      → Done env item shared shared'
  unfolding release_item
  release_item-Done src item shared shared' own e =
      let (c, e1, f1) =
        >>=-eq-ok (or_panic (get_elem? shared.cursors item.file_index)) _ (rw on at e) in
      let batch : ℕ = max release_batch_bytes src.layout.chunk_size in
      let some_bytes : 0 < batch = omega arith in
      let size : size_of env item.file_index ≡ src.layout.chunk_size = ap size_at own in
      let out = ok_inj f1 in
      let t : ReadCursor × Option (ℕ × ℕ) =
        finish c item.chunk_index batch src.layout.chunk_size src.layout.file_size in
      record {
        cursor = c;
        cursor' = t.0;
        let_go = t.1;
        at = or_panic-eq-ok (get_elem? shared.cursors item.file_index) e1;
        finished =
            finish-Finished c item.chunk_index batch src.layout.chunk_size src.layout.file_size
              some_bytes;
        stays_safe = λ safe.
            rw size
              (finish-IsSafe c item.chunk_index batch src.layout.chunk_size src.layout.file_size
                (rw size at safe) some_bytes).0;
        queue_is = ap (λ s. s.queue) (sym out);
        cursors_are = ap (λ s. s.cursors) (sym out);
        released_are = ap (λ s. s.released) (sym out);
      }

  send_item-Done :
      (item : WorkItem) (shared shared' : Shared) (x x' : Worker)
      → send_item env item shared x ≡ ok (shared', x')
      → Done env item shared shared' × (x'.phase ≡ idle)
  unfolding send_item
  send_item-Done item shared shared' x x' e =
      let (src, e1, f1) = >>=-eq-ok (or_panic (get_elem? env.sources item.file_index)) _ e in
      let ((offset, len), _, f2) =
        >>=-eq-ok (map_err wire (range src.layout item.chunk_index)) _ f1 in
      let (payload, _, f3) = >>=-eq-ok (chunk src item.chunk_index) _ f2 in
      let (frames, _, f4) =
        >>=-eq-ok (chunk_frames item.file_index offset env.frame_size payload) _ f3 in
      let (shared1, e5, f5) = >>=-eq-ok (release_item env src item shared) _ f4 in
      let (done, _, f6) = >>=-eq-ok (add_u64 shared.sent len) _ f5 in
      let d =
        release_item-Done src item shared shared1
          (or_panic-eq-ok (get_elem? env.sources item.file_index) e1) e5 in
      let out = ok_inj f6 in
      (
        record {
          cursor = d.cursor;
          cursor' = d.cursor';
          let_go = d.let_go;
          at = d.at;
          finished = d.finished;
          stays_safe = d.stays_safe;
          queue_is = ap (λ t. t.0.queue) (sym out) ∙ d.queue_is;
          cursors_are = ap (λ t. t.0.cursors) (sym out) ∙ d.cursors_are;
          released_are = ap (λ t. t.0.released) (sym out) ∙ d.released_are;
        },
        ap (λ t. t.1.phase) (sym out),
      )

  quiet :
      (x : Worker) (p : Phase)
      → ((b : WorkItem) → p ≢ sending b)
      → x.phase ≡ p
      → (b : WorkItem) → x.phase ≢ sending b
  quiet x p other is b e = other b (sym is ∙ e)

  module _ (workers : List Worker) (i : ℕ) (x : Worker) (here : get_elem? workers i ≡ some x) where
    send_item-Fits :
        (item : WorkItem) (shared shared' : Shared) (x' : Worker)
        → x.phase ≡ sending item
        → send_item env item shared x ≡ ok (shared', x')
        → Fits env shared workers
        → Fits env shared' (set workers i x')
    send_item-Fits item shared shared' x' p e t =
        let (d, rests) = send_item-Done item shared shared' x x' e in
        rw (d.queue_is, d.cursors_are, d.released_are)
          (Tidy-done item d.cursor d.cursor' d.let_go d.at i x'
            (λ b q. absurd (let no_item : idle ≡ sending b = sym rests ∙ q in cc)) (x, here, p)
            (d.stays_safe (t.safe item.file_index d.cursor d.at)) d.finished t)

    sending-Fits :
        (item : WorkItem) (breaks : Bool) (shared : Shared)
        → x.phase ≡ sending item
        → Fits env shared workers
        → let t = step_of (sending item) env breaks shared x in Fits env t.0 (set workers i t.1)
    sending-Fits item true shared p t = Tidy-retire i _ (λ b q. cc) t
    sending-Fits item false shared p t = elim (Result-cases (send_item env item shared x)) [
      | inl ((shared', x'), e) ↦ rw e (send_item-Fits item shared shared' x' p e t)
      | inr (inl (y, e)) ↦ rw e (Tidy-retire i (record x { phase = failed item y }) (λ b q. cc) t)
      | inr (inr e) ↦ rw e (Tidy-retire i (record x { phase = failed item io }) (λ b q. cc) t)
    ]

    take_item-Fits :
        (queue : List WorkItem) (shared : Shared)
        → shared.queue ≡ queue
        → Fits env shared workers
        → let t = take_item env queue shared x in Fits env t.0 (set workers i t.1)
    take_item-Fits [] shared is t = Tidy-retire i (record x { phase = ended }) (λ b q. cc) t
    take_item-Fits (item ∷ queue) shared is t =
        let full : Tidy env shared.cursors (item ∷ queue) shared.released workers = rw is at t in
        elim (Option-cases (get_elem? shared.cursors item.file_index)) [
          | inl none_there ↦
              simp (on, none_there)
                (Tidy-retire i (record x { phase = failed item io }) (λ b q. cc)
                  (Tidy-pop item full))
          | inr (c, at) ↦
              simp (on, at) (Tidy-take item c at i (record x { phase = sending item }) refl full)
        ]

    step_of-Fits :
        (p : Phase) (breaks : Bool) (shared : Shared)
        → x.phase ≡ p
        → Fits env shared workers
        → let t = step_of p env breaks shared x in Fits env t.0 (set workers i t.1)
    step_of-Fits idle breaks shared p t = take_item-Fits shared.queue shared refl t
    step_of-Fits (sending item) breaks shared p t = sending-Fits item breaks shared p t
    step_of-Fits ended breaks shared p t =
        Tidy-retire i x (λ b q. let no_item : ended ≡ sending b = sym p ∙ q in cc) t
    step_of-Fits (failed item e) breaks shared p t =
        Tidy-retire i x (λ b q. let no_item : failed item e ≡ sending b = sym p ∙ q in cc) t

  turn-Fits :
      (breaks : Bool) (shared : Shared) (workers : List Worker) (i : ℕ)
      → Fits env shared workers
      → let t = turn env breaks shared workers i in Fits env t.0 t.1
  turn-Fits breaks shared workers i t = elim (Option-cases (get_elem? workers i)) [
    | inl nobody ↦ rw (turn-nobody env breaks shared workers i nobody) t
    | inr (x, here) ↦
        rw (turn-set env breaks shared workers i x here)
          (step_of-Fits workers i x here x.phase breaks shared refl t)
  ]

  pub dispatch-Fits :
      (schedule : List (ℕ × Bool)) (shared : Shared) (workers : List Worker)
      → Fits env shared workers
      → let t = dispatch env shared workers schedule in Fits env t.0 t.1
  unfolding dispatch
  dispatch-Fits [] shared workers t = t
  dispatch-Fits ((i, breaks) ∷ schedule) shared workers t =
      dispatch-Fits schedule (turn env breaks shared workers i).0
        (turn env breaks shared workers i).1 (turn-Fits breaks shared workers i t)
