-- ===== src/Core/Send/Arrives.antt =====
-- A chunk that is sent arrives: its stream ends well, and the chunk is marked.
use speeed.Base.{
  ℕ, zero, suc, ◌+◌, ◌*◌, ◌^◌, ◌≤◌, ◌<◌, ◌≡◌, refl, sym, ap, ◌∙◌, inl, inr, Bool, true, false, ltb,
  ◌==◌, ==_iff, Bool-cases, if◌then◌else◌, none, some, List, [], ◌∷◌, ◌++◌, append-nil, length,
  length-take, take, get_elem?, arith, ok, >>=-eq-ok, map_err, map_err-eq-ok, le→ltb_false,
}
use speeed.Base.Bytes.{Bytes, bytes_eq_refl}
use speeed.Proto.Errors.{add_u64_fits}
use speeed.Proto.Chunk.Layout.{len_at, offset-lt}
use speeed.Proto.Bitmap
use speeed.Proto.Bitmap.{ChunkBitmap, get}
use speeed.Proto.Bitmap.Invariant.{set-IsValid, get-set}
use speeed.Proto.Frame.{decode, header_len, max_frame_payload}
use speeed.Proto.Frame.Canonical.{decode-long}
use speeed.Core.Errors.{CoreError, wire}
use speeed.Core.Sink.{verify_and_write, write_all_at}
use speeed.Core.Recv.{
  FileState, World, Stream, Session, get_state, put_state, on_progress, on_file_completed,
  checkpoint, checkpoint_if_due, finish_chunk, take_frame, drain, drain_stream, close,
}
use speeed.Core.Recv.Preserved.{IsValid}
use speeed.Core.Recv.Streams.{take_frame-shorter, drain-drain_stream}
use speeed.Core.Send.Queue.{chunk_frames, frames_from}
use speeed.Core.Send.Delivered.{at, Takes, here, next, before, chunk_of, frames_from-Takes}

-- A frame that was taken had a header.
take_frame-long :
    (session : Session) (w : World) (s : Stream) (input : Bytes) {r : World × Stream × Bytes}
    → take_frame session w s input ≡ ok r
    → header_len ≤ length input
unfolding take_frame
take_frame-long session w s input e =
    let (h, e1, _) = >>=-eq-ok (map_err wire (decode (take header_len input))) _ e in
    omega (
      arith,
      decode-long (take header_len input) h
          (map_err-eq-ok wire (decode (take header_len input)) e1),
      length-take header_len input,
    )

drain-frame :
    (n : ℕ) (session : Session) (w w' : World) (s s' : Stream) (input rest : Bytes)
    → take_frame session w s input ≡ ok (w', s', rest)
    → drain (suc n) session w s input ≡ drain n session w' s' rest
unfolding drain
drain-frame n session w w' s s' input rest e =
    rw (le→ltb_false (length input) header_len (take_frame-long session w s input e), e) refl

drain-Takes :
    (session : Session) (n : ℕ) {w w' : World} {s s' : Stream} {input rest : Bytes}
    → Takes session w s input w' s' rest
    → length input < n
    → (m : ℕ) × (0 < m) × (drain n session w s input ≡ drain m session w' s' rest)
drain-Takes session n (here w s input) h = (n, omega arith, refl)
drain-Takes session zero (next e more) h = absurd (omega arith)
drain-Takes session (suc n) (next {w} {w'} {w2} {s} {s'} {s2} {input} {rest} e more) h =
    let long = take_frame-long session w s input e in
    let less = take_frame-shorter session w w' s s' input rest e in
    let (m, some_left, same) = drain-Takes session n more (omega arith) in
    (m, some_left, drain-frame n session w w' s s' input rest e ∙ same)

drain-nothing :
    (m : ℕ) (session : Session) (w : World) → 0 < m → drain m session w (at [] none) [] ≡ (w, ok tt)
unfolding drain close
drain-nothing zero session w h = absurd (omega arith)
drain-nothing (suc m) session w h = refl

get_state-put_state :
    (files : List (ℕ × FileState)) (k : ℕ) (st st' : FileState)
    → get_state files k ≡ some st
    → get_state (put_state files k st') k ≡ some st'
unfolding get_state put_state
get_state-put_state [] k st st' e = cc
get_state-put_state ((j, old) ∷ files) k st st' e = elim (Bool-cases (j == k)) [
  | inl same ↦ rw (same, same) refl
  | inr other ↦ rw (other, other) (get_state-put_state files k st st' (rw other at e))
]

checkpoint-bitmap : (st : FileState) → (checkpoint st).bitmap ≡ st.bitmap
unfolding checkpoint
checkpoint-bitmap st = elim (Bool-cases (st.bitmap.set_count == 0)) [
  | inl none_set ↦ rw none_set refl
  | inr some_set ↦ rw some_set refl
]

checkpoint_if_due-fits :
    (free : Bool) (st : FileState) (added threshold : ℕ)
    → st.since_checkpoint + added < 2 ^ 64
    → (st' : FileState) × (checkpoint_if_due free st added threshold ≡ ok st')
      × (st'.bitmap ≡ st.bitmap)
unfolding checkpoint_if_due
checkpoint_if_due-fits free st added threshold h =
    let total = st.since_checkpoint + added in
    let fits = add_u64_fits {E = CoreError} st.since_checkpoint added h in
    elim (Bool-cases (threshold == 0)) [
      | inl off ↦ (st, rw off refl, refl)
      | inr on ↦ elim (Bool-cases (ltb total threshold)) [
        | inl early ↦ (record st { since_checkpoint = total }, rw (on, fits, early) refl, refl)
        | inr due ↦ elim (Bool-cases free) [
          | inl taken ↦ (
            checkpoint (record st { since_checkpoint = 0 }),
            rw (on, fits, due, taken) refl,
            checkpoint-bitmap (record st { since_checkpoint = 0 }),
          )
          | inr lost ↦ (record st { since_checkpoint = total }, rw (on, fits, due, lost) refl, refl)
        ]
      ]
    ]

module _ (session : Session) (w : World) (st : FileState) (id i : ℕ) (payload : Bytes)
    (v : IsValid session.blake3 st) (inside : i < st.layout.count)
    (long : length payload ≡ len_at st.layout i)
    (right : get_elem? st.chunk_hashes i ≡ some (session.blake3 payload))
    (counts : w.counter + len_at st.layout i < 2 ^ 64)
    (due : st.since_checkpoint + len_at st.layout i < 2 ^ 64) where
  -- The last frame of a chunk whose hash was offered is accepted, and the chunk is marked.
  finish_chunk-marks :
      get_state w.files id ≡ some st
      → (w' : World) × (st' : FileState) × (finish_chunk session w st (chunk_of st id i) payload
          ≡ ok (w', at [] none))
        × (get_state w'.files id ≡ some st')
        × (get st'.bitmap i ≡ ok true)
  unfolding finish_chunk verify_and_write
  finish_chunk-marks found =
      let (b, marked, _, count) = set-IsValid v.bitmap i (omega (arith, v.counted)) in
      let written : FileState = record st {
        content = write_all_at st.content (i * st.layout.chunk_size) payload;
        bitmap = b;
      } in
      let (st', checked, same) =
        checkpoint_if_due-fits (session.free w) written (len_at st.layout i)
          session.checkpoint_bytes due in
      let fits = add_u64_fits {E = CoreError} w.counter (len_at st.layout i) counts in
      let is_set : get b i ≡ ok true =
        get-set v.bitmap i i (omega (arith, v.counted)) marked
        ∙ ap (λ t. if t then ok true else get st.bitmap i) ((==_iff i i).1 refl) in
      let done = w.counter + len_at st.layout i in
      let progressed = w.events ++ on_progress done session.total_bytes ∷ [] in
      (
        record {
          files = put_state w.files id st';
          counter = done;
          events =
              if Bitmap.is_complete b then progressed ++ on_file_completed id ∷ [] else progressed;
        },
        st',
        rw (right, bytes_eq_refl (session.blake3 payload), marked, fits, checked) refl,
        get_state-put_state w.files id st st' found,
        ap (λ t. get t i) same ∙ is_set,
      )

-- What a sender sends of a chunk, a receiver takes. For a valid file state and a chunk of its layout whose
-- bytes have its length and the hash that was offered, the frames that the sender makes of them, at
-- any frame size from one byte to the maximum, are drained without an error, and then the receiver
-- holds the chunk as marked. (The id is a u64, and the counters do not overflow.)
pub drain_stream-chunk_frames :
    (session : Session) (w : World) (st : FileState) (id i frame_size : ℕ) (payload : Bytes)
    → get_state w.files id ≡ some st
    → IsValid session.blake3 st
    → i < st.layout.count
    → length payload ≡ len_at st.layout i
    → get_elem? st.chunk_hashes i ≡ some (session.blake3 payload)
    → 0 < frame_size
    → frame_size ≤ max_frame_payload
    → id < 2 ^ 64
    → w.counter + len_at st.layout i < 2 ^ 64
    → st.since_checkpoint + len_at st.layout i < 2 ^ 64
    → (frames : Bytes) × (w' : World) × (st' : FileState) × (chunk_frames id
          (i * st.layout.chunk_size)
          frame_size
          payload
        ≡ ok frames)
      × (drain_stream session w frames ≡ (w', ok tt))
      × (get_state w'.files id ≡ some st')
      × (get st'.bitmap i ≡ ok true)
unfolding chunk_frames
drain_stream-chunk_frames session w st id i frame_size payload found v inside long right p m small
      counts due =
    let start = i * st.layout.chunk_size in
    let frames = frames_from (length payload) id start frame_size 0 payload in
    let (w', st', fin, found', marked) =
      finish_chunk-marks session w st id i payload v inside long right counts due found in
    let takes : Takes session w (at [] none) (frames ++ []) w' (at [] none) [] =
      frames_from-Takes session w st id i found v.geometry inside small (length payload) frame_size
        0 (at [] none) [] payload [] w' (at [] none) before (omega arith) p m
        (let some_bytes = offset-lt v.geometry i inside in omega (arith, v.geometry.at_least))
        (omega arith) (omega arith) fin in
    let all = append-nil frames in
    let (n, some_left, drained) =
      drain-Takes session (suc (length frames)) takes (omega (arith, ap length all)) in
    let sized : (frame_size == 0) ≡ false = ground arith in
    (
      frames,
      w',
      st',
      rw sized refl,
      sym (drain-drain_stream (suc (length frames)) session w frames (omega arith))
          ∙ ap (drain (suc (length frames)) session w (at [] none)) (sym all)
          ∙ drained
          ∙ drain-nothing n session w' some_left,
      found',
      marked,
    )
