-- ===== src/Core/Dispatch/Accounting.antt =====
-- Every chunk of the queue is taken by one worker, and counted when it was sent.
use speeed.Base.{
  ℕ, ◌+◌, ◌≡◌, refl, sym, ap, inl, inr, Bool-cases, Option, none, some, List, [], ◌∷◌, get_elem?,
  arith, Result, ok, err, panic, >>=-eq-ok, ok_inj, or_panic,
}
use speeed.Proto.Chunk.Layout.{len_at}
use speeed.Core.Errors.{CoreError}
use speeed.Core.Source.{SourceFile}
use speeed.Core.Send.{ReadCursor}
use speeed.Core.Send.Queue.{WorkItem}
use speeed.Core.Dispatch.{
  Phase, idle, sending, ended, failed, Worker, Shared, Sending, registered, take_item, release_item,
}

-- The length of the chunk that an item names.
abbrev pub len_of : Option SourceFile → ℕ → ℕ
len_of none chunk_index = 0
len_of (some src) chunk_index = len_at src.layout chunk_index

abbrev pub bytes_in : Sending → List WorkItem → ℕ
bytes_in env [] = 0
bytes_in env (item ∷ queue) =
    len_of (get_elem? env.sources item.file_index) item.chunk_index + bytes_in env queue

-- The bytes of the item that a worker has taken and not sent.
abbrev pub held : Sending → Phase → ℕ
held env idle = 0
held env (sending item) = len_of (get_elem? env.sources item.file_index) item.chunk_index
held env ended = 0
held env (failed item e) = len_of (get_elem? env.sources item.file_index) item.chunk_index

abbrev pub all_held : Sending → List Worker → ℕ
all_held env [] = 0
all_held env (x ∷ xs) = held env x.phase + all_held env xs

-- A queue that a worker found empty stays empty.
abbrev pub Empties : Phase → Shared → Type 0
Empties p shared = p ≡ ended → shared.queue ≡ []

-- What a step of one worker keeps.
pub record Kept (env : Sending) (p : Phase) (shared shared' : Shared) (p' : Phase) : Type 0 where
  pub bytes :
      shared'.sent + bytes_in env shared'.queue + held env p'
      ≡ shared.sent + bytes_in env shared.queue + held env p
  pub stays : shared.queue ≡ [] → shared'.queue ≡ []
  pub empties : Empties p' shared'

registered-Kept :
    (env : Sending) (r : Result CoreError (List ReadCursor)) (item : WorkItem)
    (queue : List WorkItem) (shared : Shared) (x : Worker)
    → shared.queue ≡ item ∷ queue
    → let t = registered r item (record shared { queue = queue }) x in
      Kept env idle shared t.0 t.1.phase
registered-Kept env (ok cursors) item queue shared x e = record {
  bytes = omega (arith, ap (bytes_in env) e);
  stays = λ n. cc (e, n);
  empties = λ p. cc;
}
registered-Kept env (err y) item queue shared x e = record {
  bytes = omega (arith, ap (bytes_in env) e);
  stays = λ n. cc (e, n);
  empties = λ p. cc;
}
registered-Kept env panic item queue shared x e = record {
  bytes = omega (arith, ap (bytes_in env) e);
  stays = λ n. cc (e, n);
  empties = λ p. cc;
}

pub take_item-Kept :
    (env : Sending) (queue : List WorkItem) (shared : Shared) (x : Worker)
    → shared.queue ≡ queue
    → let t = take_item env queue shared x in Kept env idle shared t.0 t.1.phase
take_item-Kept env [] shared x e = record { bytes = refl; stays = λ n. n; empties = λ p. e }
take_item-Kept env (item ∷ queue) shared x e = registered-Kept env _ item queue shared x e

-- Releasing pages changes neither the queue nor the count.
pub release_item-same :
    (env : Sending) (src : SourceFile) (item : WorkItem) (shared : Shared) {shared' : Shared}
    → release_item env src item shared ≡ ok shared'
    → (shared'.queue ≡ shared.queue) × (shared'.sent ≡ shared.sent)
unfolding release_item
release_item-same env src item shared e = elim (Bool-cases env.release_pages) [
  | inl on ↦
      let (c, _, f) =
        >>=-eq-ok (or_panic (get_elem? shared.cursors item.file_index)) _ (rw on at e) in
      (ap (λ s. s.queue) (sym (ok_inj f)), ap (λ s. s.sent) (sym (ok_inj f)))
  | inr off ↦
      let same = ok_inj (rw off at e) in (ap (λ s. s.queue) (sym same), ap (λ s. s.sent) (sym same))
]
