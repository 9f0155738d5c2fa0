-- ===== src/Core/Dispatch.antt =====
-- core/crates/aetherlink-core/src/send.rs, `run`: the workers that take chunks from the queue, and the
-- end of the transfer. Under the lock of the queue a worker takes an item and registers it; later it
-- has written the item's frames. These are its two steps, and a schedule says whose turn it is and
-- whether the writes of that turn fail. The flush and the shutdown of a stream after the last item are
-- left out.
pub mod Accounting
pub mod Ascends
pub mod Cursors
pub mod Moves
pub mod Finishes
pub mod Reads
pub mod Releases
pub mod Tidy
pub mod Sent
pub mod Written
mod Tests
use speeed.Base.{
  ℕ, zero, suc, ◌+◌, max, Bool, true, false, if◌then◌else◌, Option, none, some, List, [], ◌∷◌, ◌++◌,
  get_elem?, set, Result, ok, err, panic, ◌>>=◌, or_panic, map_err,
}
use speeed.Base.Bytes.{Bytes}
use speeed.Proto.Errors.{add_u64}
use speeed.Proto.Chunk.{range}
use speeed.Core.Errors.{
  CoreError, io, wire, protocol, expected_accept, expected_complete, peer_aborted,
}
use speeed.Core.Control.{ManifestAccept, Body, hello, offer, accept, complete, abort}
use speeed.Core.Source.{SourceFile, chunk, release_batch_bytes}
use speeed.Core.Send.{ReadCursor, default, begin, finish}
use speeed.Core.Send.Queue.{WorkItem, chunk_frames}

-- The answer to the offer.
abbrev pub expect_accept : Body → Result CoreError ManifestAccept
expect_accept (accept a) = ok a
expect_accept (abort a) = err (peer_aborted a.reason)
expect_accept (hello _) = err (protocol expected_accept)
expect_accept (offer _) = err (protocol expected_accept)
expect_accept (complete _) = err (protocol expected_accept)

-- A worker is between two items, has one, has ended, or has failed with one.
pub data Phase : Type 0 where
  idle : Phase
  sending : WorkItem → Phase
  ended : Phase
  failed : WorkItem → CoreError → Phase

pub record Worker : Type 0 where
  pub phase : Phase
  pub written : Bytes

-- What the workers share: the queue, a cursor for each source, the bytes that were sent, the progress
-- that was reported, and the ranges of the sources that were released.
pub record Shared : Type 0 where
  pub queue : List WorkItem
  pub cursors : List ReadCursor
  pub sent : ℕ
  pub progress : List (ℕ × ℕ)
  pub released : List (ℕ × ℕ × ℕ)

pub record Sending : Type 0 where
  pub sources : List SourceFile
  pub frame_size : ℕ
  pub release_pages : Bool
  pub bytes_to_send : ℕ

abbrev cursors_of : List SourceFile → List ReadCursor
cursors_of [] = []
cursors_of (src ∷ sources) = default ∷ cursors_of sources

abbrev pub shared_of : Sending → List WorkItem → Shared
shared_of env queue = record {
  queue = queue;
  cursors = cursors_of env.sources;
  sent = 0;
  progress = [];
  released = [];
}

-- The cursors once the item is registered.
abbrev pub register : Sending → List ReadCursor → WorkItem → Result CoreError (List ReadCursor)
register env cursors item =
    let begun = (do
      c ← or_panic (get_elem? cursors item.file_index)
      ok (set cursors item.file_index (begin c item.chunk_index))) in
    if env.release_pages then begun else ok cursors

-- A panic of a worker reaches `run` as an error of input and output.
abbrev pub registered :
    Result CoreError (List ReadCursor) → WorkItem → Shared → Worker → Shared × Worker
registered (ok cursors) item shared worker =
    (record shared { cursors = cursors }, record worker { phase = sending item })
registered (err e) item shared worker = (shared, record worker { phase = failed item e })
registered panic item shared worker = (shared, record worker { phase = failed item io })

abbrev pub take_item : Sending → List WorkItem → Shared → Worker → Shared × Worker
take_item env [] shared worker = (shared, record worker { phase = ended })
take_item env (item ∷ queue) shared worker =
    registered (register env shared.cursors item) item (record shared { queue = queue }) worker

abbrev pub released_with : ℕ → Option (ℕ × ℕ) → List (ℕ × ℕ × ℕ) → List (ℕ × ℕ × ℕ)
released_with file_index none released = released
released_with file_index (some (start, end)) released = released ++ (file_index, start, end) ∷ []

-- The cursor is told that the chunk was written, and what is behind it is released.
unfoldable pub release_item : Sending → SourceFile → WorkItem → Shared → Result CoreError Shared
release_item env src item shared =
    let finished = (do
      c ← or_panic (get_elem? shared.cursors item.file_index)
      let (c', range) =
          finish c item.chunk_index (max release_batch_bytes src.layout.chunk_size)
            src.layout.chunk_size src.layout.file_size
      ok (record shared {
        cursors = set shared.cursors item.file_index c';
        released = released_with item.file_index range shared.released;
      })) in
    if env.release_pages then finished else ok shared

unfoldable pub send_item : Sending → WorkItem → Shared → Worker → Result CoreError (Shared × Worker)
send_item env item shared worker = do
  src ← or_panic (get_elem? env.sources item.file_index)
  (offset, len) ← map_err wire (range src.layout item.chunk_index)
  payload ← chunk src item.chunk_index
  frames ← chunk_frames item.file_index offset env.frame_size payload
  shared' ← release_item env src item shared
  done ← add_u64 shared.sent len
  ok (
    record shared' { sent = done; progress = shared'.progress ++ (done, env.bytes_to_send) ∷ [] },
    record { phase = idle; written = worker.written ++ frames },
  )

abbrev pub after_send :
    Result CoreError (Shared × Worker) → WorkItem → Shared → Worker → Shared × Worker
after_send (ok next) item shared worker = next
after_send (err e) item shared worker = (shared, record worker { phase = failed item e })
after_send panic item shared worker = (shared, record worker { phase = failed item io })

abbrev pub step_of : Phase → Sending → Bool → Shared → Worker → Shared × Worker
step_of idle env breaks shared worker = take_item env shared.queue shared worker
step_of (sending item) env breaks shared worker =
    if breaks
    then (shared, record worker { phase = failed item io })
    else after_send (send_item env item shared worker) item shared worker
step_of ended env breaks shared worker = (shared, worker)
step_of (failed item e) env breaks shared worker = (shared, worker)

unfoldable pub turn : Sending → Bool → Shared → List Worker → ℕ → Shared × List Worker
turn env breaks shared [] i = (shared, [])
turn env breaks shared (x ∷ xs) zero =
    let (shared', x') = step_of x.phase env breaks shared x in (shared', x' ∷ xs)
turn env breaks shared (x ∷ xs) (suc i) =
    let (shared', xs') = turn env breaks shared xs i in (shared', x ∷ xs')

unfoldable pub dispatch : Sending → Shared → List Worker → List (ℕ × Bool) → Shared × List Worker
dispatch env shared workers [] = (shared, workers)
dispatch env shared workers ((i, breaks) ∷ schedule) =
    let (shared', workers') = turn env breaks shared workers i in
    dispatch env shared' workers' schedule

-- The message that ends the transfer: the bytes of the statistics.
abbrev pub confirm : ℕ → Body → Result CoreError ℕ
confirm bytes_to_send (complete c) = ok (max c.bytes_written bytes_to_send)
confirm bytes_to_send (abort a) = err (peer_aborted a.reason)
confirm bytes_to_send (hello _) = err (protocol expected_complete)
confirm bytes_to_send (offer _) = err (protocol expected_complete)
confirm bytes_to_send (accept _) = err (protocol expected_complete)
