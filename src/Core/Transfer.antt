-- ===== src/Core/Transfer.antt =====
-- core/crates/aetherlink-core/src/recv.rs, `run`: the workers behind the hello and the offer, and how the
-- transfer ends. A worker drains one stream; the runtime chooses which of them takes the next frame,
-- and that order is the schedule. The greeting on each data stream is read before its worker starts.
pub mod Turns
pub mod Ends
pub mod Sample
use speeed.Base.{
  ℕ, ◌+◌, zero, suc, Bool, true, false, not, ltb, if◌then◌else◌, Option, none, some, List, [], ◌∷◌,
  length, map, Result, ok, err, panic, ◌>>=◌,
}
use speeed.Base.Bytes.{Bytes}
use speeed.Proto.Bitmap
use speeed.Proto.Frame.{header_len}
use speeed.Core.Errors.{CoreError, io, incomplete}
use speeed.Core.Control.{Body}
use speeed.Core.Offer.{Setup, Refusal, Accepting, handshake, start}
use speeed.Core.Recv.{FileState, World, Stream, Session, take_frame, close, checkpoint}

-- A worker, with the bytes that will still arrive on its stream.
pub record Worker : Type 0 where
  pub stream : Stream
  pub input : Bytes
  pub outcome : Option (Result CoreError (Unit {0}))

abbrev pub spawn : Bytes → Worker
spawn input = record { stream = record { buf = []; current = none }; input = input; outcome = none }

-- What a round of the loop leads to.
abbrev pub after_frame : Result CoreError (World × Stream × Bytes) → World → Worker → World × Worker
after_frame (ok (w', s', rest)) w worker =
    (w', record { stream = s'; input = rest; outcome = none })
after_frame (err e) w worker = (w, record worker { outcome = some (err e) })
after_frame panic w worker = (w, record worker { outcome = some panic })

-- One round of a worker that has not ended.
unfoldable pub round : Session → World → Worker → World × Worker
round session w worker =
    if ltb (length worker.input) header_len
    then (w, record worker { outcome = some (close worker.stream) })
    else after_frame (take_frame session w worker.stream worker.input) w worker

abbrev pub unless_ended :
    Option (Result CoreError (Unit {0})) → World × Worker → World × Worker → World × Worker
unless_ended none now next = next
unless_ended (some r) now next = now

unfoldable pub advance : Session → World → Worker → World × Worker
advance session w worker = unless_ended worker.outcome (w, worker) (round session w worker)

-- The worker at a place takes its turn.
unfoldable pub turn : Session → World → List Worker → ℕ → World × List Worker
turn session w [] i = (w, [])
turn session w (x ∷ xs) zero = let (w', x') = advance session w x in (w', x' ∷ xs)
turn session w (x ∷ xs) (suc i) = let (w', xs') = turn session w xs i in (w', x ∷ xs')

unfoldable pub run_schedule : Session → World → List Worker → List ℕ → World × List Worker
run_schedule session w workers [] = (w, workers)
run_schedule session w workers (i ∷ is) =
    let (w', workers') = turn session w workers i in run_schedule session w' workers' is

-- What awaiting a worker gives: an error, if it ended with one. A panic is an error of input and output.
abbrev pub error_of : Result CoreError (Unit {0}) → Option CoreError
error_of (ok _) = none
error_of (err e) = some e
error_of panic = some io

abbrev pub or_else : Option CoreError → Option CoreError → Option CoreError
or_else none later = later
or_else (some e) later = some e

-- All workers are awaited in their order, and the first error is kept; nothing, while one runs.
unfoldable pub first_error : List Worker → Option (Option CoreError)
first_error [] = some none
first_error (worker ∷ workers) =
    let rest = first_error workers in
    elim worker.outcome [
      | none ↦ none
      | some r ↦ elim rest [ none ↦ none | some later ↦ some (or_else (error_of r) later) ]
    ]

abbrev pub checkpoint_all : List (ℕ × FileState) → List (ℕ × FileState)
checkpoint_all [] = []
checkpoint_all ((k, st) ∷ files) = (k, checkpoint st) ∷ checkpoint_all files

-- A file that is done is synced, and its record discarded. (What that removes by name is in
-- Core/Resume/Names.)
abbrev pub finished : FileState → FileState
finished st = record st { synced = st.content; recorded = none }

unfoldable pub complete_files :
    List (ℕ × FileState) → List (ℕ × FileState) × Result CoreError (Unit {0})
complete_files [] = ([], ok tt)
complete_files ((k, st) ∷ files) =
    let (rest, outcome) = complete_files files in
    if Bitmap.is_complete st.bitmap
    then ((k, finished st) ∷ rest, outcome)
    else ((k, checkpoint st) ∷ files, err incomplete)

-- The end of the transfer: the bytes of its statistics, when every file is complete.
abbrev pub conclude_with : Option CoreError → World → List (ℕ × FileState) × Result CoreError ℕ
conclude_with (some e) w = (checkpoint_all w.files, err e)
conclude_with none w =
    let (files, outcome) = complete_files w.files in (files, (do _ ← outcome; ok w.counter))

abbrev pub conclude_if :
    Option (Option CoreError) → World → Option (List (ℕ × FileState) × Result CoreError ℕ)
conclude_if none w = none
conclude_if (some failure) w = some (conclude_with failure w)

unfoldable pub conclude : World → List Worker → Option (List (ℕ × FileState) × Result CoreError ℕ)
conclude w workers = conclude_if (first_error workers) w

-- The streams `i`, …, `i + n - 1`, each with what arrives on it.
unfoldable pub spawn_all : ℕ → ℕ → (ℕ → Bytes) → List Worker
spawn_all zero i inputs = []
spawn_all (suc n) i inputs = spawn (inputs i) ∷ spawn_all n (i + 1) inputs

abbrev pub session_of : Setup → (World → Bool) → Accepting → Session
session_of setup free a = record {
  blake3 = setup.blake3;
  free = free;
  total_bytes = a.total_bytes;
  checkpoint_bytes = setup.config.checkpoint_bytes;
}

-- A transfer from the hello on. There is no result while a worker runs.
unfoldable pub transfer :
    Setup
    → (World → Bool)
    → Body
    → Body
    → (ℕ → Bytes)
    → List ℕ
    → Result Refusal (Option (List (ℕ × FileState) × Result CoreError ℕ))
transfer setup free first second inputs schedule = do
  (stream_count, a) ← handshake setup first second
  let (w, workers) =
      run_schedule (session_of setup free a) (start a) (spawn_all stream_count 0 inputs) schedule
  ok (conclude w workers)
