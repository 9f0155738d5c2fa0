-- ===== src/Core/Dispatch/Sent.antt =====
-- When the workers have ended, the bytes of the queue were counted as sent.
use speeed.Base.{
  All-get_elem?, ℕ, zero, suc, ◌+◌, ◌≡◌, refl, sym, ap, ◌∙◌, inl, inr, Bool, true, false, List, [],
  ◌∷◌, get_elem?, replicate, All, arith, Result, ok, >>=-eq-ok, Result-cases, ok_inj, or_panic,
  or_panic-eq-ok, map_err, map_err-eq-ok,
}
use speeed.Proto.Errors.{add_u64}
use speeed.Proto.Chunk.{range}
use speeed.Proto.Chunk.Layout
use speeed.Proto.Chunk.Layout.{len_at}
use speeed.Core.Errors.{CoreError, wire}
use speeed.Core.Recv.Verified.{range-InFile}
use speeed.Core.Source.{chunk}
use speeed.Core.Send.Queue.{WorkItem, chunk_frames}
use speeed.Core.Dispatch.{
  Phase, idle, sending, ended, failed, Worker, Shared, Sending, shared_of, release_item, send_item,
  step_of, turn, dispatch,
}
use speeed.Core.Dispatch.Accounting.{
  len_of, bytes_in, held, all_held, Empties, Kept, take_item-Kept, release_item-same,
}

-- A worker before its first item.
abbrev pub fresh : Worker
fresh = record { phase = idle; written = [] }

add_u64-sum : (x y : ℕ) {z : ℕ} → ◌≡◌ {A = Result CoreError ℕ} (add_u64 x y) (ok z) → x + y ≡ z
add_u64-sum x y e = ground arith

module _ (env : Sending) (v : All (λ s. Layout.IsValid s.layout) env.sources) where
  stays_put : (p : Phase) (shared : Shared) → Empties p shared → Kept env p shared shared p
  stays_put p shared h = record { bytes = refl; stays = λ n. n; empties = h }

  fails :
      (item : WorkItem) (e : CoreError) (shared : Shared)
      → Kept env (sending item) shared shared (failed item e)
  fails item e shared = record { bytes = refl; stays = λ n. n; empties = λ p. cc }

  send_item-Kept :
      (item : WorkItem) (shared shared' : Shared) (x x' : Worker)
      → send_item env item shared x ≡ ok (shared', x')
      → Kept env (sending item) shared shared' x'.phase
  unfolding send_item
  send_item-Kept item shared shared' x x' e =
      let (src, e1, f1) = >>=-eq-ok (or_panic (get_elem? env.sources item.file_index)) _ e in
      let ((offset, len), e2, f2) =
        >>=-eq-ok (map_err wire (range src.layout item.chunk_index)) _ f1 in
      let (payload, _, f3) = >>=-eq-ok (chunk src item.chunk_index) _ f2 in
      let (frames, _, f4) =
        >>=-eq-ok (chunk_frames item.file_index offset env.frame_size payload) _ f3 in
      let (shared1, e5, f5) = >>=-eq-ok (release_item env src item shared) _ f4 in
      let (done, e6, f6) = >>=-eq-ok (add_u64 shared.sent len) _ f5 in
      let at = or_panic-eq-ok (get_elem? env.sources item.file_index) e1 in
      let valid = All-get_elem? (λ s. Layout.IsValid s.layout) env.sources item.file_index v at in
      let place = range-InFile valid (map_err-eq-ok wire (range src.layout item.chunk_index) e2) in
      let own : len_of (get_elem? env.sources item.file_index) item.chunk_index
          ≡ len_at src.layout item.chunk_index =
        ap (λ o. len_of o item.chunk_index) at in
      let (queue, _) = release_item-same env src item shared e5 in
      let out = ok_inj f6 in
      let queue' : shared'.queue ≡ shared.queue = ap (λ t. t.0.queue) (sym out) ∙ queue in
      let sent' : shared'.sent ≡ done = ap (λ t. t.0.sent) (sym out) in
      let phase' : x'.phase ≡ idle = ap (λ t. t.1.phase) (sym out) in
      let counted = add_u64-sum shared.sent len e6 in
      record {
        bytes = omega (
          arith,
          ap (bytes_in env) queue',
          sent',
          ap (held env) phase',
          counted,
          place.long,
          own,
        );
        stays = λ n. queue' ∙ n;
        empties = λ p. cc (p, phase');
      }

  sending-Kept :
      (item : WorkItem) (breaks : Bool) (shared : Shared) (x : Worker)
      → let t = step_of (sending item) env breaks shared x in
        Kept env (sending item) shared t.0 t.1.phase
  sending-Kept item true shared x = fails item _ shared
  sending-Kept item false shared x = elim (Result-cases (send_item env item shared x)) [
    | inl ((shared', x'), e) ↦ rw e (send_item-Kept item shared shared' x x' e)
    | inr (inl (y, e)) ↦ rw e (fails item y shared)
    | inr (inr e) ↦ rw e (fails item _ shared)
  ]

  step_of-Kept :
      (p : Phase) (breaks : Bool) (shared : Shared) (x : Worker)
      → x.phase ≡ p
      → Empties p shared
      → let t = step_of p env breaks shared x in Kept env p shared t.0 t.1.phase
  step_of-Kept idle breaks shared x e h = take_item-Kept env shared.queue shared x refl
  step_of-Kept (sending item) breaks shared x e h = sending-Kept item breaks shared x
  step_of-Kept ended breaks shared x e h = rw e (stays_put ended shared h)
  step_of-Kept (failed item y) breaks shared x e h = rw e (stays_put (failed item y) shared h)

  abbrev AllEmpty : List Worker → Shared → Type 0
  AllEmpty workers shared = All (λ x. Empties x.phase shared) workers

  -- What a turn keeps.
  record Turned (shared shared' : Shared) (xs xs' : List Worker) : Type 0 where
    pub bytes :
        shared'.sent + bytes_in env shared'.queue + all_held env xs'
        ≡ shared.sent + bytes_in env shared.queue + all_held env xs
    pub stays : shared.queue ≡ [] → shared'.queue ≡ []
    pub empties : AllEmpty xs' shared'

  others :
      (xs : List Worker) (shared shared' : Shared)
      → (shared.queue ≡ [] → shared'.queue ≡ [])
      → AllEmpty xs shared
      → AllEmpty xs shared'
  others [] shared shared' stays a = tt
  others (x ∷ xs) shared shared' stays a = (λ p. stays (a.0 p), others xs shared shared' stays a.1)

  turn-Turned :
      (breaks : Bool) (shared : Shared) (xs : List Worker) (i : ℕ)
      → AllEmpty xs shared
      → let t = turn env breaks shared xs i in Turned shared t.0 xs t.1
  unfolding turn
  turn-Turned breaks shared [] i a = record { bytes = refl; stays = λ n. n; empties = tt }
  turn-Turned breaks shared (x ∷ xs) zero a =
      let k = step_of-Kept x.phase breaks shared x refl a.0 in
      record {
        bytes = omega (arith, k.bytes);
        stays = k.stays;
        empties = (k.empties, others xs shared (step_of x.phase env breaks shared x).0 k.stays a.1);
      }
  turn-Turned breaks shared (x ∷ xs) (suc i) a =
      let k = turn-Turned breaks shared xs i a.1 in
      record {
        bytes = omega (arith, k.bytes);
        stays = k.stays;
        empties = (λ p. k.stays (a.0 p), k.empties);
      }

  dispatch-Turned :
      (schedule : List (ℕ × Bool)) (shared : Shared) (xs : List Worker)
      → AllEmpty xs shared
      → let t = dispatch env shared xs schedule in Turned shared t.0 xs t.1
  unfolding dispatch
  dispatch-Turned [] shared xs a = record { bytes = refl; stays = λ n. n; empties = a }
  dispatch-Turned ((i, breaks) ∷ schedule) shared xs a =
      let k = turn-Turned breaks shared xs i a in
      let r =
        dispatch-Turned schedule (turn env breaks shared xs i).0 (turn env breaks shared xs i).1
          k.empties in
      record { bytes = r.bytes ∙ k.bytes; stays = λ n. r.stays (k.stays n); empties = r.empties }

all_held-ended :
    (env : Sending) (xs : List Worker) → All (λ x. x.phase ≡ ended) xs → all_held env xs ≡ 0
all_held-ended env [] a = refl
all_held-ended env (x ∷ xs) a = omega (arith, ap (held env) a.0, all_held-ended env xs a.1)

fresh_held : (env : Sending) (n : ℕ) → all_held env (replicate n fresh) ≡ 0
fresh_held env zero = refl
fresh_held env (suc n) = omega (arith, fresh_held env n)

fresh_empty : (n : ℕ) (shared : Shared) → All (λ x. Empties x.phase shared) (replicate n fresh)
fresh_empty zero shared = tt
fresh_empty (suc n) shared = (λ p. cc, fresh_empty n shared)

-- From a queue over sources with valid layouts, with any number of workers, in any order of their turns
-- and wherever writes fail: the bytes that were counted as sent, those of the queue and those of the items
-- that workers hold are the bytes of the queue at the start. When one worker or more were started and
-- all have ended without an error, the queue is empty and all its bytes were counted.
pub dispatch-sent :
    (env : Sending) (queue : List WorkItem) (n : ℕ) (schedule : List (ℕ × Bool)) (shared : Shared)
    (x : Worker) (xs : List Worker)
    → All (λ s. Layout.IsValid s.layout) env.sources
    → dispatch env (shared_of env queue) (replicate n fresh) schedule ≡ (shared, x ∷ xs)
    → (shared.sent + bytes_in env shared.queue + all_held env (x ∷ xs) ≡ bytes_in env queue)
      × (All (λ y. y.phase ≡ ended) (x ∷ xs)
          → (shared.queue ≡ []) × (shared.sent ≡ bytes_in env queue))
dispatch-sent env queue n schedule shared x xs v e =
    let k =
      dispatch-Turned env v schedule (shared_of env queue) (replicate n fresh)
        (fresh_empty n (shared_of env queue)) in
    let shared_is : (dispatch env (shared_of env queue) (replicate n fresh) schedule).0 ≡ shared =
      ap (λ t. t.0) e in
    let workers_are : (dispatch env (shared_of env queue) (replicate n fresh) schedule).1 ≡ x ∷ xs =
      ap (λ t. t.1) e in
    let bytes : shared.sent + bytes_in env shared.queue + all_held env (x ∷ xs)
        ≡ 0 + bytes_in env queue + all_held env (replicate n fresh) =
      rw (shared_is, workers_are) at k.bytes in
    let empties : All (λ y. Empties y.phase shared) (x ∷ xs) =
      rw (shared_is, workers_are) at k.empties in
    let whole : shared.sent + bytes_in env shared.queue + all_held env (x ∷ xs)
        ≡ bytes_in env queue =
      omega (arith, bytes, fresh_held env n) in
    (
      whole,
      λ all.
          let empty = empties.0 all.0 in
          (empty, omega (arith, whole, all_held-ended env (x ∷ xs) all, ap (bytes_in env) empty)),
    )
