-- ===== src/Core/Dispatch/Tests.antt =====
-- core/crates/aetherlink-core/src/send.rs: the theorems at concrete inputs.
use speeed.Base.{
  ok, ◌<◌, ◌^◌, ℕ, ◌+◌, ◌≡◌, refl, true, false, Bool, List, [], ◌∷◌, ◌++◌, replicate, All, arith,
}
use speeed.Base.Bytes.{Bytes}
use speeed.Proto.Chunk.{range}
use speeed.Proto.Chunk.Layout
use speeed.Proto.Frame
use speeed.Proto.Frame.{file_data, to_bytes}
use speeed.Core.Source.{SourceFile, chunk}
use speeed.Core.Send.{begin, finish}
use speeed.Core.Send.Queue.{
  WorkItem, chunk_frames, frames_from, Entry, Work, have, push_chunks, push_ranges, build_from,
  build_queue,
}
use speeed.Core.Send.Planned.{Answered, wanted_bytes}
use speeed.Core.Dispatch.Tidy.{Sends}
use speeed.Core.Dispatch.Reads.{Clears, dispatch-Clears}
use speeed.Proto.Bitmap
use speeed.Proto.Bitmap.{ChunkBitmap, get, missing_ranges}
use speeed.Proto.Bitmap.Invariant.{is_true}
use speeed.Proto.Bitmap.Parse.{new-IsValid}
use speeed.Core.Dispatch.{
  Worker, Shared, Sending, idle, sending, ended, shared_of, release_item, send_item, turn, dispatch,
}
use speeed.Core.Dispatch.Accounting.{bytes_in, all_held}
use speeed.Core.Dispatch.Sent.{fresh}
use speeed.Core.Dispatch.Written.{Conserves, dispatch-Written}

abbrev source : SourceFile
source = record {
  map = 7 ∷ 8 ∷ 9 ∷ [];
  layout = record { file_size = 3; chunk_size = 65536; count = 1 };
  page_size = 4096;
}

abbrev env : Sending
env = record { sources = source ∷ []; frame_size = 2; release_pages = true; bytes_to_send = 3 }

abbrev queue : List WorkItem
queue = record { file_index = 0; chunk_index = 0 } ∷ []

-- The second worker finds the queue empty while the first one sends.
abbrev schedule : List (ℕ × Bool)
schedule = (0, false) ∷ (1, false) ∷ (0, false) ∷ (0, false) ∷ []

abbrev sent_all : Shared
sent_all = record {
  queue = [];
  cursors = record { in_flight = []; next_dispatch = 1; released_to = 0 } ∷ [];
  sent = 3;
  progress = (3, 3) ∷ [];
  released = [];
}

abbrev two_frames : Bytes
two_frames =
    to_bytes (Frame.new file_data 0 0 2) ++ 7 ∷ 8 ∷ to_bytes (Frame.new file_data 0 2 1) ++ 9 ∷ []

abbrev sender : Worker
sender = record { phase = ended; written = two_frames }

abbrev bystander : Worker
bystander = record { phase = ended; written = [] }

four_turns :
    dispatch env (shared_of env queue) (replicate 2 fresh) schedule
    ≡ (sent_all, sender ∷ bystander ∷ [])
unfolding dispatch turn send_item release_item chunk range chunk_frames frames_from begin finish
    to_bytes
four_turns = refl

source-IsValid : All (λ s. Layout.IsValid s.layout) env.sources
source-IsValid = (
  record { sized = omega arith; at_least = omega arith; at_most = omega arith; counted = refl },
  tt,
)

dispatch-Written_example :
    Conserves env queue sent_all (sender ∷ bystander ∷ [])
    × (sent_all.sent + bytes_in env [] + all_held env (sender ∷ bystander ∷ [])
        ≡ bytes_in env queue)
    × (All (λ y. y.phase ≡ ended) (sender ∷ bystander ∷ []) → sent_all.sent ≡ bytes_in env queue)
dispatch-Written_example =
    dispatch-Written env queue 2 schedule sent_all sender (bystander ∷ []) source-IsValid four_turns

abbrev three_entries : List Entry
three_entries =
    record { file_id = 0; layout = source.layout }
    ∷ record { file_id = 1; layout = source.layout }
    ∷ record { file_id = 2; layout = source.layout }
    ∷ []

abbrev three_files : Sending
three_files = record {
  sources = source ∷ source ∷ source ∷ [];
  frame_size = 2;
  release_pages = true;
  bytes_to_send = 9;
}

abbrev all_work : Work
all_work = record {
  queue =
      record { file_index = 0; chunk_index = 0 }
      ∷ record { file_index = 1; chunk_index = 0 }
      ∷ record { file_index = 2; chunk_index = 0 }
      ∷ [];
  bytes_to_send = 9;
}

all_work-queue : build_queue (0 ∷ 1 ∷ 2 ∷ []) [] three_entries ≡ ok all_work
unfolding build_queue build_from push_ranges push_chunks have Bitmap.new missing_ranges range
all_work-queue = refl

-- The first worker has sent its chunk, the other one is sending the second.
abbrev between : Shared
between = record {
  queue = record { file_index = 2; chunk_index = 0 } ∷ [];
  cursors =
      record { in_flight = []; next_dispatch = 1; released_to = 0 }
      ∷ record { in_flight = 0 ∷ []; next_dispatch = 1; released_to = 0 }
      ∷ record { in_flight = []; next_dispatch = 0; released_to = 0 }
      ∷ [];
  sent = 3;
  progress = (3, 9) ∷ [];
  released = [];
}

abbrev two_workers : List Worker
two_workers =
    record { phase = idle; written = two_frames }
    ∷ record { phase = sending (record { file_index = 1; chunk_index = 0 }); written = [] }
    ∷ []

three_turns :
    dispatch three_files
      (shared_of three_files all_work.queue)
      (replicate 2 fresh)
      ((0, false) ∷ (0, false) ∷ (1, false) ∷ [])
    ≡ (between, two_workers)
unfolding dispatch turn send_item release_item chunk range chunk_frames frames_from begin finish
    to_bytes
three_turns = refl

unasked : (file_id : ℕ) → Answered [] (record { file_id = file_id; layout = source.layout })
unfolding have Bitmap.new
unasked file_id = record {
  geometry = source-IsValid.0;
  bitmap = Bitmap.new 1;
  answers = refl;
  valid = new-IsValid 1;
  counted = refl;
}

three_entries-Answered : All (Answered []) three_entries
three_entries-Answered = (unasked 0, (unasked 1, (unasked 2, tt)))

few_bytes : wanted_bytes (0 ∷ 1 ∷ 2 ∷ []) [] three_entries < 2 ^ 64
unfolding have Bitmap.new get is_true
few_bytes = omega arith

dispatch-Clears_example :
    ((i : ℕ) (item : WorkItem)
      → Sends two_workers i item
      → All (Clears three_files item) between.released)
    × All (λ item. All (Clears three_files item) between.released) between.queue
dispatch-Clears_example =
    dispatch-Clears three_files (0 ∷ 1 ∷ 2 ∷ []) [] three_entries all_work 2
      ((0, false) ∷ (0, false) ∷ (1, false) ∷ []) between two_workers refl three_entries-Answered
      few_bytes all_work-queue three_turns
