-- ===== src/Core/Dispatch/Written.antt =====
-- What the workers write is the frames of the chunks of the queue.
use speeed.Base.{
  ℕ, zero, suc, ◌+◌, ◌≡◌, refl, sym, ap, ◌∙◌, inl, inr, Bool, true, false, List, [], ◌∷◌, ◌++◌,
  get_elem?, replicate, All, arith, Result, ok, err, panic, ◌>>=◌, >>=-eq-ok, Result-cases, ok_inj,
  or_panic, map_err,
}
use speeed.Base.Bytes.{Bytes}
use speeed.Proto.Errors.{add_u64}
use speeed.Proto.Chunk.{range}
use speeed.Proto.Chunk.Layout
use speeed.Core.Errors.{CoreError, io, wire}
use speeed.Core.Source.{SourceFile, chunk}
use speeed.Core.Send.{ReadCursor}
use speeed.Core.Send.Queue.{WorkItem, chunk_frames}
use speeed.Core.Dispatch.{
  Phase, idle, sending, ended, failed, Worker, Shared, Sending, shared_of, registered, take_item,
  release_item, send_item, step_of, turn, dispatch,
}
use speeed.Core.Dispatch.Accounting.{bytes_in, all_held, release_item-same}
use speeed.Core.Dispatch.Sent.{fresh, dispatch-sent}

-- The frames of the chunk that an item names.
abbrev pub frames_of : Sending → WorkItem → Result CoreError Bytes
frames_of env item = do
  src ← or_panic (get_elem? env.sources item.file_index)
  (offset, len) ← map_err wire (range src.layout item.chunk_index)
  payload ← chunk src item.chunk_index
  chunk_frames item.file_index offset env.frame_size payload

-- The bytes are the frames of these items, the last one first in the list, one behind the other.
pub data Frames (env : Sending) : Bytes → List WorkItem → Type 0 where
  nothing : Frames env [] []
  behind :
      {bytes frames : Bytes} {item : WorkItem} {items : List WorkItem}
      → Frames env bytes items
      → frames_of env item ≡ ok frames
      → Frames env (bytes ++ frames) (item ∷ items)

-- Each worker has written the frames of the items in its list.
abbrev pub AllFrames : Sending → List Worker → List (List WorkItem) → Type 0
AllFrames env [] [] = Unit
AllFrames env [] (l ∷ ls) = ⊥
AllFrames env (x ∷ xs) [] = ⊥
AllFrames env (x ∷ xs) (l ∷ ls) = Frames env x.written l × AllFrames env xs ls

-- The items in a list, each with its weight.
abbrev pub weigh : (WorkItem → ℕ) → List WorkItem → ℕ
weigh f [] = 0
weigh f (item ∷ items) = f item + weigh f items

abbrev pub weigh_all : (WorkItem → ℕ) → List (List WorkItem) → ℕ
weigh_all f [] = 0
weigh_all f (l ∷ ls) = weigh f l + weigh_all f ls

-- The item that a worker has taken and not sent.
abbrev pub weigh_held : (WorkItem → ℕ) → Phase → ℕ
weigh_held f idle = 0
weigh_held f (sending item) = f item
weigh_held f ended = 0
weigh_held f (failed item e) = f item

abbrev pub weigh_workers : (WorkItem → ℕ) → List Worker → ℕ
weigh_workers f [] = 0
weigh_workers f (x ∷ xs) = weigh_held f x.phase + weigh_workers f xs

-- What a step of one worker keeps.
record Stepped (env : Sending) (p : Phase) (l : List WorkItem) (shared shared' : Shared)
    (x' : Worker) : Type 0 where
  pub items : List WorkItem
  pub frames : Frames env x'.written items
  pub weight :
      (f : WorkItem → ℕ)
      → weigh f items + weigh_held f x'.phase + weigh f shared'.queue
        ≡ weigh f l + weigh_held f p + weigh f shared.queue

module _ (env : Sending) where
  registered-Stepped :
      (r : Result CoreError (List ReadCursor)) (item : WorkItem) (queue l : List WorkItem)
      (shared : Shared) (x : Worker)
      → shared.queue ≡ item ∷ queue
      → Frames env x.written l
      → let t = registered r item (record shared { queue = queue }) x in
        Stepped env idle l shared t.0 t.1
  registered-Stepped (ok cursors) item queue l shared x e w = record {
    items = l;
    frames = w;
    weight = λ f. omega (arith, ap (weigh f) e);
  }
  registered-Stepped (err y) item queue l shared x e w = record {
    items = l;
    frames = w;
    weight = λ f. omega (arith, ap (weigh f) e);
  }
  registered-Stepped panic item queue l shared x e w = record {
    items = l;
    frames = w;
    weight = λ f. omega (arith, ap (weigh f) e);
  }

  take_item-Stepped :
      (queue l : List WorkItem) (shared : Shared) (x : Worker)
      → shared.queue ≡ queue
      → Frames env x.written l
      → let t = take_item env queue shared x in Stepped env idle l shared t.0 t.1
  take_item-Stepped [] l shared x e w = record { items = l; frames = w; weight = λ f. refl }
  take_item-Stepped (item ∷ queue) l shared x e w = registered-Stepped _ item queue l shared x e w

  frames_of-parts :
      (item : WorkItem) (src : SourceFile) (offset len : ℕ) (payload frames : Bytes)
      → ◌≡◌ {A = Result CoreError SourceFile}
          (or_panic (get_elem? env.sources item.file_index))
          (ok src)
      → map_err wire (range src.layout item.chunk_index) ≡ ok (offset, len)
      → chunk src item.chunk_index ≡ ok payload
      → chunk_frames item.file_index offset env.frame_size payload ≡ ok frames
      → frames_of env item ≡ ok frames
  frames_of-parts item src offset len payload frames e1 e2 e3 e4 = rw (e1, e2, e3, e4) refl

  -- One item becomes its frames, behind what was written.
  send_item-Stepped :
      (item : WorkItem) (l : List WorkItem) (shared shared' : Shared) (x x' : Worker)
      → send_item env item shared x ≡ ok (shared', x')
      → Frames env x.written l
      → Stepped env (sending item) l shared shared' x'
  unfolding send_item
  send_item-Stepped item l shared shared' x x' e w =
      let (src, e1, f1) = >>=-eq-ok (or_panic (get_elem? env.sources item.file_index)) _ e in
      let ((offset, len), e2, f2) =
        >>=-eq-ok (map_err wire (range src.layout item.chunk_index)) _ f1 in
      let (payload, e3, f3) = >>=-eq-ok (chunk src item.chunk_index) _ f2 in
      let (frames, e4, f4) =
        >>=-eq-ok (chunk_frames item.file_index offset env.frame_size payload) _ f3 in
      let (shared1, e5, f5) = >>=-eq-ok (release_item env src item shared) _ f4 in
      let (done, e6, f6) = >>=-eq-ok (add_u64 shared.sent len) _ f5 in
      let own : frames_of env item ≡ ok frames =
        frames_of-parts item src offset len payload frames e1 e2 e3 e4 in
      let (queue, _) = release_item-same env src item shared e5 in
      let out = ok_inj f6 in
      let queue' : shared'.queue ≡ shared.queue = ap (λ t. t.0.queue) (sym out) ∙ queue in
      let phase' : x'.phase ≡ idle = ap (λ t. t.1.phase) (sym out) in
      record {
        items = item ∷ l;
        frames = rw (ap (λ t. t.1.written) (sym out)) (behind w own);
        weight = λ f. omega (arith, ap (weigh f) queue', ap (weigh_held f) phase');
      }

  waits :
      (p : Phase) (l : List WorkItem) (shared : Shared) (x : Worker)
      → x.phase ≡ p
      → Frames env x.written l
      → Stepped env p l shared shared x
  waits p l shared x e w = record {
    items = l;
    frames = w;
    weight = λ f. omega (arith, ap (weigh_held f) e);
  }

  fails :
      (item : WorkItem) (y : CoreError) (l : List WorkItem) (shared : Shared) (x : Worker)
      → Frames env x.written l
      → Stepped env (sending item) l shared shared (record x { phase = failed item y })
  fails item y l shared x w = record { items = l; frames = w; weight = λ f. refl }

  step_of-Stepped :
      (p : Phase) (breaks : Bool) (l : List WorkItem) (shared : Shared) (x : Worker)
      → x.phase ≡ p
      → Frames env x.written l
      → let t = step_of p env breaks shared x in Stepped env p l shared t.0 t.1
  step_of-Stepped idle breaks l shared x e w = take_item-Stepped shared.queue l shared x refl w
  step_of-Stepped (sending item) true l shared x e w = fails item io l shared x w
  step_of-Stepped (sending item) false l shared x e w =
      elim (Result-cases (send_item env item shared x)) [
        | inl ((shared', x'), is) ↦ rw is (send_item-Stepped item l shared shared' x x' is w)
        | inr (inl (y, is)) ↦ rw is (fails item y l shared x w)
        | inr (inr is) ↦ rw is (fails item io l shared x w)
      ]
  step_of-Stepped ended breaks l shared x e w = waits ended l shared x e w
  step_of-Stepped (failed item y) breaks l shared x e w = waits (failed item y) l shared x e w

  -- What a turn keeps, for all workers together.
  record Turned (shared shared' : Shared) (xs xs' : List Worker) (ls : List (List WorkItem))
      : Type 0 where
    pub logs : List (List WorkItem)
    pub frames : AllFrames env xs' logs
    pub weight :
        (f : WorkItem → ℕ)
        → weigh_all f logs + weigh_workers f xs' + weigh f shared'.queue
          ≡ weigh_all f ls + weigh_workers f xs + weigh f shared.queue

  turn-Turned :
      (breaks : Bool) (shared : Shared) (xs : List Worker) (ls : List (List WorkItem)) (i : ℕ)
      → AllFrames env xs ls
      → let t = turn env breaks shared xs i in Turned shared t.0 xs t.1 ls
  unfolding turn
  turn-Turned breaks shared [] ls i a = record { logs = ls; frames = a; weight = λ f. refl }
  turn-Turned breaks shared (x ∷ xs) [] i a = absurd a
  turn-Turned breaks shared (x ∷ xs) (l ∷ ls) zero a =
      let k = step_of-Stepped x.phase breaks l shared x refl a.0 in
      record {
        logs = k.items ∷ ls;
        frames = (k.frames, a.1);
        weight = λ f. let same = k.weight f in omega (arith, same);
      }
  turn-Turned breaks shared (x ∷ xs) (l ∷ ls) (suc i) a =
      let k = turn-Turned breaks shared xs ls i a.1 in
      record {
        logs = l ∷ k.logs;
        frames = (a.0, k.frames);
        weight = λ f. let same = k.weight f in omega (arith, same);
      }

  dispatch-Turned :
      (schedule : List (ℕ × Bool)) (shared : Shared) (xs : List Worker) (ls : List (List WorkItem))
      → AllFrames env xs ls
      → let t = dispatch env shared xs schedule in Turned shared t.0 xs t.1 ls
  unfolding dispatch
  dispatch-Turned [] shared xs ls a = record { logs = ls; frames = a; weight = λ f. refl }
  dispatch-Turned ((i, breaks) ∷ schedule) shared xs ls a =
      let k = turn-Turned breaks shared xs ls i a in
      let r =
        dispatch-Turned schedule (turn env breaks shared xs i).0 (turn env breaks shared xs i).1
          k.logs k.frames in
      record { logs = r.logs; frames = r.frames; weight = λ f. r.weight f ∙ k.weight f }

  fresh-AllFrames : (n : ℕ) → AllFrames env (replicate n fresh) (replicate n [])
  fresh-AllFrames zero = tt
  fresh-AllFrames (suc n) = (nothing, fresh-AllFrames n)

nothing_weighs :
    (f : WorkItem → ℕ) (n : ℕ)
    → (weigh_all f (replicate n []) ≡ 0) × (weigh_workers f (replicate n fresh) ≡ 0)
nothing_weighs f zero = (refl, refl)
nothing_weighs f (suc n) = let (a, b) = nothing_weighs f n in (omega (arith, a), omega (arith, b))

ended_weighs :
    (f : WorkItem → ℕ) (xs : List Worker) → All (λ x. x.phase ≡ ended) xs → weigh_workers f xs ≡ 0
ended_weighs f [] a = refl
ended_weighs f (x ∷ xs) a = omega (arith, ap (weigh_held f) a.0, ended_weighs f xs a.1)

-- What every worker has written is the frames of the items of a list, one behind the other; and however
-- items are weighed, the lists, the items that workers hold and the queue weigh what the queue weighed
-- at the start.
pub record Conserves (env : Sending) (queue : List WorkItem) (shared : Shared) (xs : List Worker)
    : Type 0 where
  pub logs : List (List WorkItem)
  pub frames : AllFrames env xs logs
  pub weight :
      (f : WorkItem → ℕ)
      → weigh_all f logs + weigh_workers f xs + weigh f shared.queue ≡ weigh f queue
  pub all_written :
      All (λ x. x.phase ≡ ended) xs → (f : WorkItem → ℕ) → weigh_all f logs ≡ weigh f queue

-- From a queue over sources with valid layouts, with one worker or more, in any order of their turns
-- and wherever writes fail: what each worker has written (up to an item at which it failed) is the
-- frames of chunks of the queue, one chunk behind the other, and the chunks that were written, those
-- that workers hold and those still in the queue are the chunks of the queue at the start, each as often
-- as there; the bytes that were counted as sent, those of the queue and those of the items that workers
-- hold are its bytes. When all workers have ended without an error, each chunk of the queue was
-- written, as often as it is there, and all its bytes were counted.
pub dispatch-Written :
    (env : Sending) (queue : List WorkItem) (n : ℕ) (schedule : List (ℕ × Bool)) (shared : Shared)
    (x : Worker) (xs : List Worker)
    → All (λ s. Layout.IsValid s.layout) env.sources
    → dispatch env (shared_of env queue) (replicate n fresh) schedule ≡ (shared, x ∷ xs)
    → Conserves env queue shared (x ∷ xs)
      × (shared.sent + bytes_in env shared.queue + all_held env (x ∷ xs) ≡ bytes_in env queue)
      × (All (λ y. y.phase ≡ ended) (x ∷ xs) → shared.sent ≡ bytes_in env queue)
dispatch-Written env queue n schedule shared x xs v e =
    let counted = dispatch-sent env queue n schedule shared x xs v e in
    let k =
      dispatch-Turned env schedule (shared_of env queue) (replicate n fresh) (replicate n [])
        (fresh-AllFrames env n) in
    let shared_is : (dispatch env (shared_of env queue) (replicate n fresh) schedule).0 ≡ shared =
      ap (λ t. t.0) e in
    let workers_are : (dispatch env (shared_of env queue) (replicate n fresh) schedule).1 ≡ x ∷ xs =
      ap (λ t. t.1) e in
    let whole : (f : WorkItem → ℕ)
        → weigh_all f k.logs + weigh_workers f (x ∷ xs) + weigh f shared.queue ≡ weigh f queue =
      λ f.
        let (a, b) = nothing_weighs f n in
        let all = k.weight f in
        omega (
          arith,
          all,
          a,
          b,
          ap (weigh_workers f) workers_are,
          ap (λ s. weigh f s.queue) shared_is,
        ) in
    (
      record {
        logs = k.logs;
        frames = rw (← workers_are) k.frames;
        weight = whole;
        all_written = λ ends f.
            let all = whole f in
            let empty = (counted.1 ends).0 in
            omega (arith, all, ended_weighs f (x ∷ xs) ends, ap (weigh f) empty);
      },
      counted.0,
      λ ends. (counted.1 ends).1,
    )
