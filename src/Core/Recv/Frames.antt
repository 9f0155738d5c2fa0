-- ===== src/Core/Recv/Frames.antt =====
-- Each frame of a data stream, and the whole stream, keep what is marked verified.
use speeed.Base.{
  ok_or-eq-ok, map_err-eq-ok, ℕ, ◌≡◌, refl, sym, ap, ◌∙◌, inl, inr, not, ◌==◌, ==_iff, Bool-cases,
  Option-cases, none, some, List, ◌++◌, length, get_elem?, arith, Result, ok, err, >>=-eq-ok,
  ok_inj, ok_or, or_panic, or_panic-eq-ok, refuse_if, refuse_if-eq-ok, map_err,
}
use speeed.Base.Bytes.{Bytes}
use speeed.Proto.Errors.{add_u64}
use speeed.Proto.Chunk.{range, index_of}
use speeed.Proto.Hashes.{Hash}
use speeed.Proto.Bitmap
use speeed.Proto.Bitmap.{ChunkBitmap}
use speeed.Proto.Frame.{FrameHeader, MsgType, control, file_data, file_end, keepalive}
use speeed.Core.Errors.{
  CoreError, wire, protocol, interleaved_files, not_at_own_offset, unknown_file_id,
  unexpected_message,
}
use speeed.Core.Sink.{verify_and_write}
use speeed.Core.Sink.Content.{verify_and_write-eq-ok}
use speeed.Core.Recv.{
  FileState, World, Stream, Current, Session, get_state, put_state, checkpoint_if_due, open_chunk,
  check_frame, read_payload, finish_chunk, on_data, on_frame,
}
use speeed.Core.Recv.Preserved.{
  IsValid, AllValid, SameLayouts, get_state-IsValid, put_state-AllValid, put_state-SameLayouts,
  stored-IsValid, checkpoint_if_due-IsValid,
}

-- A chunk that a stream has begun has its own place in a file that was offered.
abbrev pub Opens : List (ℕ × FileState) → Stream → Type 0
Opens files s =
    (c : Current)
    → s.current ≡ some c
    → (st : FileState) × (get_state files c.file_id ≡ some st)
      × (range st.layout c.chunk_index ≡ ok (c.start, c.expected_len))

-- Other files, with the same layouts, leave a stream its place.
pub Opens-SameLayouts :
    (files files' : List (ℕ × FileState)) (s : Stream)
    → SameLayouts files files'
    → Opens files s
    → Opens files' s
Opens-SameLayouts files files' s same o c e =
    let (st, at, r) = o c e in
    let (st', at', eq) = same c.file_id st at in (st', at', ap (λ l. range l c.chunk_index) eq ∙ r)

pub SameLayouts-refl : (files : List (ℕ × FileState)) → SameLayouts files files
SameLayouts-refl files k st e = (st, e, refl)

-- What a frame leaves behind: valid states, the layouts as they were, and a stream at its place.
pub record Kept (blake3 : Bytes → Hash) (w w' : World) (s' : Stream) : Type 0 where
  pub valid : AllValid blake3 w'.files
  pub layouts : SameLayouts w.files w'.files
  pub opens : Opens w'.files s'

finish_chunk-Kept :
    (session : Session) (w w' : World) (s' : Stream) (st : FileState) (c : Current)
    (payload : Bytes)
    → AllValid session.blake3 w.files
    → get_state w.files c.file_id ≡ some st
    → range st.layout c.chunk_index ≡ ok (c.start, c.expected_len)
    → length payload ≡ c.expected_len
    → finish_chunk session w st c payload ≡ ok (w', s')
    → Kept session.blake3 w w' s'
unfolding finish_chunk
finish_chunk-Kept session w w' s' st c payload a at r long e =
    let v = get_state-IsValid session.blake3 w.files c.file_id a at in
    let (expected, e1, f1) = >>=-eq-ok (or_panic (get_elem? st.chunk_hashes c.chunk_index)) _ e in
    let (content, e2, f2) =
      >>=-eq-ok (verify_and_write session.blake3 st.content c.start payload expected) _ f1 in
    let (bitmap, e3, f3) = >>=-eq-ok (map_err wire (Bitmap.set st.bitmap c.chunk_index)) _ f2 in
    let (done, _, f4) = >>=-eq-ok (add_u64 w.counter c.expected_len) _ f3 in
    let stored : FileState = record st { content = content; bitmap = bitmap } in
    let (st', e5, f5) =
      >>=-eq-ok (checkpoint_if_due (session.free w) stored c.expected_len session.checkpoint_bytes)
        _ f4 in
    let (right, place) =
      verify_and_write-eq-ok session.blake3 st.content c.start payload expected e2 in
    let hash = or_panic-eq-ok (get_elem? st.chunk_hashes c.chunk_index) e1 ∙ ap some (sym right) in
    let v1 : IsValid session.blake3 stored =
      rw place (stored-IsValid c.chunk_index payload v r long hash (map_err-eq-ok wire _ e3)) in
    let (v2, same) = checkpoint_if_due-IsValid (session.free w) _ _ v1 e5 in
    let out = ok_inj f5 in
    let files : put_state w.files c.file_id st' ≡ w'.files = ap (λ t. t.0.files) out in
    let fresh : s'.current ≡ none = ap (λ t. t.1.current) (sym out) in
    record {
      valid = rw (← files) (put_state-AllValid session.blake3 w.files c.file_id st' a v2);
      layouts = rw (← files) (put_state-SameLayouts w.files c.file_id st' at same);
      opens = λ k begun. cc;
    }

-- The chunk that a frame belongs to has its place, whether it was begun before or is begun now.
pub open_chunk-place :
    (files : List (ℕ × FileState)) (st : FileState) (h : FrameHeader) (s : Stream) (c : Current)
    (buf : Bytes)
    → Opens files s
    → get_state files h.file_id ≡ some st
    → open_chunk st h s ≡ ok (c, buf)
    → h.file_id ≡ c.file_id
    → (get_state files c.file_id ≡ some st)
      × (range st.layout c.chunk_index ≡ ok (c.start, c.expected_len))
unfolding open_chunk
open_chunk-place files st h s c buf o at e own = elim (Option-cases s.current) [
  | inl fresh ↦
      let (i, e1, f1) = >>=-eq-ok (map_err wire (index_of st.layout h.offset)) _ (rw fresh at e) in
      let ((start, len), e2, f2) = >>=-eq-ok (map_err wire (range st.layout i)) _ f1 in
      let (_, _, f3) =
        >>=-eq-ok
          (refuse_if (not (h.offset == start)) (protocol (not_at_own_offset h.offset start))) _
          f2 in
      let same = ok_inj f3 in
      let begun : record { file_id = h.file_id; chunk_index = i; start = start; expected_len = len }
          ≡ c =
        ap (λ t. t.0) same in
      rw (← begun) (at, map_err-eq-ok wire _ e2)
  | inr (d, begun) ↦
      let same : d ≡ c = ap (λ t. t.0) (ok_inj (rw begun at e)) in
      let (st0, at0, r0) = o d begun in
      let found : st0 ≡ st = cc (at0, at, own, ap (λ t. t.file_id) same) in
      rw (← same) (at0 ∙ ap some found, ap (λ t. range t.layout d.chunk_index) (sym found) ∙ r0)
]

pub check_frame-own :
    (c : Current) (buf : Bytes) (h : FrameHeader) {u : Unit {0}}
    → check_frame c buf h ≡ ok u
    → h.file_id ≡ c.file_id
unfolding check_frame
check_frame-own c buf h e =
    let (_, e1, _) =
      >>=-eq-ok (refuse_if (not (h.file_id == c.file_id)) (protocol interleaved_files)) _ e in
    let no = refuse_if-eq-ok (not (h.file_id == c.file_id)) _ e1 in ground (arith, no)

on_data-Kept :
    (session : Session) (w w' : World) (s s' : Stream) (h : FrameHeader) (input : Bytes)
    → AllValid session.blake3 w.files
    → Opens w.files s
    → on_data session w s h input ≡ ok (w', s')
    → Kept session.blake3 w w' s'
unfolding on_data
on_data-Kept session w w' s s' h input a o e =
    let (st, e1, f1) =
      >>=-eq-ok (ok_or (get_state w.files h.file_id) (protocol (unknown_file_id h.file_id))) _ e in
    let at = ok_or-eq-ok (get_state w.files h.file_id) _ e1 in
    let ((c, buf), e2, f2) = >>=-eq-ok (open_chunk st h s) _ f1 in
    let (_, e3, f3) = >>=-eq-ok (check_frame c buf h) _ f2 in
    let (payload, _, f4) = >>=-eq-ok (read_payload h input) _ f3 in
    let (mine, r) = open_chunk-place w.files st h s c buf o at e2 (check_frame-own c buf h e3) in
    elim (Bool-cases (length (buf ++ payload) == c.expected_len)) [
      | inl whole ↦
          finish_chunk-Kept session w w' s' st c (buf ++ payload) a mine r ((==_iff _ _).0 whole)
            (rw whole at f4)
      | inr part ↦
          let out = ok_inj (rw part at f4) in
          let still : w ≡ w' = ap (λ t. t.0) out in
          let begun : s'.current ≡ some c = ap (λ t. t.1.current) (sym out) in
          rw (← still) (record {
            valid = a;
            layouts = SameLayouts-refl w.files;
            opens = λ k is. let same : c ≡ k = cc in rw (← same) (st, mine, r);
          })
    ]

unfoldable pub on_message :
    Session → World → Stream → FrameHeader → Bytes → MsgType → Result CoreError (World × Stream)
on_message session w s h input m = elim m [
  | file_data ↦ on_data session w s h input
  | keepalive ↦ ok (w, s)
  | control ↦ err (protocol unexpected_message)
  | file_end ↦ err (protocol unexpected_message)
]

on_frame_self :
    (session : Session) (w w' : World) (s s' : Stream) (h : FrameHeader) (input : Bytes)
    (m : MsgType)
    → AllValid session.blake3 w.files
    → Opens w.files s
    → on_message session w s h input m ≡ ok (w', s')
    → Kept session.blake3 w w' s'
unfolding on_message
on_frame_self session w w' s s' h input file_data a o e =
    on_data-Kept session w w' s s' h input a o e
on_frame_self session w w' s s' h input keepalive a o e =
    let out = ok_inj e in
    let still : w ≡ w' = ap (λ t. t.0) out in
    let same : s ≡ s' = ap (λ t. t.1) out in
    rw (← still, ← same) (record { valid = a; layouts = SameLayouts-refl w.files; opens = o })
on_frame_self session w w' s s' h input control a o e = cc
on_frame_self session w w' s s' h input file_end a o e = cc

-- When all file states are valid and the open chunk of the stream has its place in an offered file, a
-- frame that is accepted leaves all file states valid, so each marked chunk verified; it keeps the
-- layouts, and this stream and each other stream keep a place for the chunk they have begun.
pub on_frame-Kept :
    (session : Session) (w w' : World) (s s' other : Stream) (h : FrameHeader) (input : Bytes)
    → AllValid session.blake3 w.files
    → Opens w.files s
    → Opens w.files other
    → on_frame session w s h input ≡ ok (w', s')
    → Kept session.blake3 w w' s' × Opens w'.files other
unfolding on_frame on_message
on_frame-Kept session w w' s s' other h input a o p e =
    let k : Kept session.blake3 w w' s' =
      on_frame_self session w w' s s' h input h.msg_type a o e in
    (k, Opens-SameLayouts w.files w'.files other k.layouts p)
