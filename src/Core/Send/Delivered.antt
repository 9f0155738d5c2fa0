-- ===== src/Core/Send/Delivered.antt =====
-- A receiver takes the frames that a sender makes of a chunk.
use native.Mathlib.Nat.{mul-div_cancel}
use speeed.Base.{
  ℕ, zero, suc, ◌+◌, ◌*◌, ◌^◌, ◌≤◌, ◌<◌, ◌≡◌, refl, sym, ap, ◌∙◌, inl, inr, true, false, ltb, leb,
  ◌==◌, ==_iff, Bool-cases, if◌then◌else◌, Option, none, some, [], ◌∷◌, ◌++◌, append_assoc,
  append-nil, length, length-append, length-take, length-drop, take, drop, take-append, drop-append,
  take-append-drop, arith, ok, le→ltb_false,
}
use speeed.Base.Bytes.{Bytes}
use speeed.Proto.Chunk.{index_of}
use speeed.Proto.Chunk.Layout
use speeed.Proto.Chunk.Layout.{len_at, range-len_at, offset-lt}
use speeed.Proto.Frame
use speeed.Proto.Frame.{FrameHeader, file_data, to_bytes, decode, header_len, max_frame_payload}
use speeed.Proto.Frame.RoundTrip.{IsHeader, decode-to_bytes}
use speeed.Core.Recv.{
  FileState, World, Stream, Session, Current, get_state, open_chunk, check_frame, read_payload,
  finish_chunk, on_data, on_frame, take_frame,
}
use speeed.Core.Send.Queue.{frames_from}

abbrev pub at : Bytes → Option Current → Stream
at buf current = record { buf = buf; current = current }

-- The stream takes frames from one input to another.
pub data Takes (session : Session) : World → Stream → Bytes → World → Stream → Bytes → Type 0 where
  here : (w : World) (s : Stream) (input : Bytes) → Takes session w s input w s input
  next :
      {w w' w2 : World} {s s' s2 : Stream} {input rest rest2 : Bytes}
      → take_frame session w s input ≡ ok (w', s', rest)
      → Takes session w' s' rest w2 s2 rest2
      → Takes session w s input w2 s2 rest2

-- The chunk `i` of a file, as a worker keeps it.
abbrev pub chunk_of : FileState → ℕ → ℕ → Current
chunk_of st id i = record {
  file_id = id;
  chunk_index = i;
  start = i * st.layout.chunk_size;
  expected_len = len_at st.layout i;
}

module _ (session : Session) (w : World) (st : FileState) (id i : ℕ)
    (found : get_state w.files id ≡ some st) (v : Layout.IsValid st.layout)
    (inside : i < st.layout.count) (small_id : id < 2 ^ 64) where
  abbrev start : ℕ
  start = i * st.layout.chunk_size

  abbrev current : Current
  current = chunk_of st id i

  -- A stream before the chunk, or in the middle of it.
  pub data Stands : Stream → Bytes → Type 0 where
    before : Stands (at [] none) []
    within : (buf : Bytes) → Stands (at buf (some current)) buf

  index_of-start : index_of st.layout start ≡ ok i
  unfolding index_of
  index_of-start =
      let past : leb st.layout.file_size start ≡ false =
        let lt = offset-lt v i inside in ground (arith, lt) in
      rw past (ap ok (mul-div_cancel i (omega (arith, v.at_least))))

  open_chunk-Stands :
      (s : Stream) (buf : Bytes) (n : ℕ)
      → Stands s buf
      → open_chunk st (Frame.new file_data id (start + length buf) n) s ≡ ok (current, buf)
  unfolding open_chunk
  open_chunk-Stands s buf n before =
      let zero_in : start + 0 ≡ start = omega arith in
      let same : (start == start) ≡ true = (==_iff start start).1 refl in
      rw (zero_in, index_of-start, range-len_at v i inside, same) refl
  open_chunk-Stands s buf n (within b) = refl

  check_frame-passes :
      (buf part : Bytes)
      → length buf + length part ≤ len_at st.layout i
      → check_frame current buf (Frame.new file_data id (start + length buf) (length part)) ≡ ok tt
  unfolding check_frame
  check_frame-passes buf part h =
      rw
        (
          (==_iff id id).1 refl,
          (==_iff (start + length buf) (start + length buf)).1 refl,
          le→ltb_false (len_at st.layout i) (length buf + length part) h,
        )
        refl

  read_payload-part :
      (h : FrameHeader) (part more : Bytes)
      → h.length ≡ length part
      → read_payload h (part ++ more) ≡ ok part
  read_payload-part h part more e =
      rw
        (
          e,
          le→ltb_false (length (part ++ more)) (length part)
              (omega (arith, length-append part more)),
          take-append part more,
        )
        refl

  -- What a frame of this chunk leads to.
  on_data-part :
      (s : Stream) (buf part more : Bytes)
      → Stands s buf
      → length buf + length part ≤ len_at st.layout i
      → on_data session w s
          (Frame.new file_data id (start + length buf) (length part))
          (part ++ more)
        ≡ (if length (buf ++ part) == len_at st.layout i
            then finish_chunk session w st current (buf ++ part)
            else ok (w, at (buf ++ part) (some current)))
  unfolding on_data
  on_data-part s buf part more stands h =
      rw
        (
          found,
          open_chunk-Stands s buf (length part) stands,
          check_frame-passes buf part h,
          read_payload-part (Frame.new file_data id (start + length buf) (length part)) part more
              refl,
        )
        refl

  part_header : Bytes → Bytes → FrameHeader
  part_header buf part = Frame.new file_data id (start + length buf) (length part)

  part_header-IsHeader :
      (buf part : Bytes)
      → length buf + length part ≤ len_at st.layout i
      → length part ≤ max_frame_payload
      → IsHeader (part_header buf part)
  unfolding part_header
  part_header-IsHeader buf part h k = record {
    flags = omega arith;
    file_id = small_id;
    offset = let lt = offset-lt v i inside in omega (arith, v.sized);
    length = k;
    silent = λ e. cc;
  }

  -- A frame and what follows it.
  framed : Bytes → Bytes → Bytes → Bytes
  unfolding part_header
  framed buf part more = to_bytes (part_header buf part) ++ (part ++ more)

  take_frame-part :
      (s : Stream) (buf part more : Bytes) (w' : World) (s' : Stream)
      → Stands s buf
      → length buf + length part ≤ len_at st.layout i
      → length part ≤ max_frame_payload
      → (if length (buf ++ part) == len_at st.layout i
          then finish_chunk session w st current (buf ++ part)
          else ok (w, at (buf ++ part) (some current)))
        ≡ ok (w', s')
      → take_frame session w s (framed buf part more) ≡ ok (w', s', more)
  unfolding take_frame on_frame part_header framed to_bytes
  take_frame-part s buf part more w' s' stands h k e =
      let hd = Frame.new file_data id (start + length buf) (length part) in
      let read : decode (to_bytes hd) ≡ ok hd =
        ap decode (sym (append-nil (to_bytes hd)))
        ∙ decode-to_bytes hd [] (part_header-IsHeader buf part h k) in
      rw (read, on_data-part s buf part more stands h, e, drop-append part more) refl

  frames_shape :
      (rounds frame_size n : ℕ) (buf payload rest : Bytes)
      → n * frame_size ≡ length buf
      → 0 < length payload
      → frames_from (suc rounds) id start frame_size n payload ++ rest
        ≡ framed buf
            (take frame_size payload)
            (frames_from rounds id start frame_size (n + 1) (drop frame_size payload) ++ rest)
  unfolding frames_from framed part_header to_bytes
  frames_shape rounds frame_size n buf payload rest e h =
      let part = take frame_size payload in
      let tail = frames_from rounds id start frame_size (n + 1) (drop frame_size payload) in
      let some_left : (length payload == 0) ≡ false = ground arith in
      rw (some_left, e)
        (append_assoc (to_bytes (Frame.new file_data id (start + length buf) (length part)))
            (part ++ tail) rest
          ∙ ap (λ t. to_bytes (Frame.new file_data id (start + length buf) (length part)) ++ t)
              (append_assoc part tail rest))

  frames_from-nothing : (rounds frame_size n : ℕ) → frames_from rounds id start frame_size n [] ≡ []
  unfolding frames_from
  frames_from-nothing zero frame_size n = refl
  frames_from-nothing (suc rounds) frame_size n = refl

  take_all :
      (n : ℕ) (bytes : Bytes) → length bytes ≤ n → (take n bytes ≡ bytes) × (drop n bytes ≡ [])
  take_all zero [] h = (refl, refl)
  take_all zero (b ∷ bytes) h = absurd (omega arith)
  take_all (suc n) [] h = (refl, refl)
  take_all (suc n) (b ∷ bytes) h =
      let (t, d) = take_all n bytes (omega arith) in (ap (λ x. b ∷ x) t, d)

  pub frames_from-Takes :
      (rounds frame_size n : ℕ) (s : Stream) (buf payload rest : Bytes) (w' : World) (s' : Stream)
      → Stands s buf
      → n * frame_size ≡ length buf
      → 0 < frame_size
      → frame_size ≤ max_frame_payload
      → 0 < length payload
      → length payload ≤ rounds
      → length buf + length payload ≡ len_at st.layout i
      → finish_chunk session w st current (buf ++ payload) ≡ ok (w', s')
      → Takes session w s (frames_from rounds id start frame_size n payload ++ rest) w' s' rest
  frames_from-Takes zero frame_size n s buf payload rest w' s' stands e p m h k whole fin =
      absurd (omega arith)
  frames_from-Takes (suc rounds) frame_size n s buf payload rest w' s' stands e p m h k whole fin =
      let part = take frame_size payload in
      let more = frames_from rounds id start frame_size (n + 1) (drop frame_size payload) ++ rest in
      let part_long = length-take frame_size payload in
      let joined = length-append buf part in
      rw (frames_shape rounds frame_size n buf payload rest e h)
        (elim (Bool-cases (ltb frame_size (length payload))) [
          | inl longer ↦
              let lt : frame_size < length payload = ground arith in
              let partial : (length (buf ++ part) == len_at st.layout i) ≡ false =
                let ne : length (buf ++ part) < len_at st.layout i = omega arith in ground arith in
              let step =
                take_frame-part s buf part more w (at (buf ++ part) (some current)) stands
                  (omega arith) (omega arith) (rw partial refl) in
              let rejoined : (buf ++ part) ++ drop frame_size payload ≡ buf ++ payload =
                append_assoc buf part (drop frame_size payload)
                ∙ ap (λ t. buf ++ t) (take-append-drop frame_size payload) in
              let left = length-drop frame_size payload in
              next step (
                frames_from-Takes rounds frame_size (n + 1) _ (buf ++ part)
                  (drop frame_size payload) rest w' s' (within (buf ++ part)) (grind arith) p m
                  (omega arith) (omega arith) (omega arith) (rw rejoined fin))
          | inr last ↦
              let (all, none_left) = take_all frame_size payload (ground arith) in
              let full : (length (buf ++ part) == len_at st.layout i) ≡ true =
                (==_iff _ _).1 (omega (arith, ap length all)) in
              let step =
                take_frame-part s buf part more w' s' stands (omega arith) (omega arith)
                  (rw (full, all) fin) in
              let ended : more ≡ rest =
                ap (λ t. frames_from rounds id start frame_size (n + 1) t ++ rest) none_left
                ∙ ap (λ t. t ++ rest) (frames_from-nothing rounds frame_size (n + 1)) in
              next step (rw ended (here w' s' rest))
        ])
