-- ===== src/Core/Recv/Total.antt =====
-- The receiver of a data stream ends with a result and never panics.
use speeed.Base.{
  ok_or-eq-ok, ℕ, zero, suc, ◌+◌, ◌-◌, ◌≤◌, ◌<◌, ◌≡◌, ◌≢◌, inl, inr, not, ltb, ◌==◌, ==_iff,
  Bool-cases, Option-cases, none, some, [], ◌++◌, length, length-append, length-take, length-drop,
  take, drop, arith, ok, panic, ok_or, refuse_if, map_err, Result-cases, Ensures, value, failure,
  Ensures-ne-panic, Ensures-ok, Ensures-map_err, Ensures-bind, Ensures-refuse_if, ok_or-Returns,
  if◌then◌else◌,
}
use speeed.Base.Bytes.{Bytes}
use speeed.Proto.Chunk.{range, index_of}
use speeed.Proto.Chunk.Layout
use speeed.Proto.Chunk.Layout.{range-len_at}
use speeed.Proto.Frame.{
  FrameHeader, MsgType, control, file_data, file_end, keepalive, decode, header_len,
}
use speeed.Core.Errors.{wire, protocol, not_at_own_offset, unknown_file_id}
use speeed.Core.Recv.{
  FileState, World, Stream, Current, Session, get_state, open_chunk, check_frame, read_payload,
  finish_chunk, on_data, on_frame, take_frame, drain, drain_stream,
}
use speeed.Core.Recv.Preserved.{IsValid, AllValid, get_state-IsValid}
use speeed.Core.Recv.Frames.{Opens, open_chunk-place, check_frame-own, on_message}
use speeed.Core.Recv.Streams.{take_frame-Kept, take_frame-shorter}
use speeed.Core.Recv.Room.{
  returns, decode-ne-panic, index_of-ne-panic, range-ne-panic, close-ne-panic, HasRoom, HasRoom-le,
  LeavesRoom, finish_chunk-Ensures,
}

open_chunk-Ensures :
    (st : FileState) (h : FrameHeader) (s : Stream)
    → Layout.IsValid st.layout
    → Ensures (λ t. length t.1 ≤ length s.buf) (open_chunk st h s)
unfolding open_chunk
open_chunk-Ensures st h s v = elim (Option-cases s.current) [
  | inr (c, begun) ↦ rw begun (value (omega arith))
  | inl fresh ↦ rw fresh (
      Ensures-bind (map_err wire (index_of st.layout h.offset)) _
        (Ensures-map_err wire (returns (index_of-ne-panic st.layout h.offset)))
        λ i _ _.
          Ensures-bind (map_err wire (range st.layout i)) _
            (Ensures-map_err wire (returns (range-ne-panic v i)))
            λ r _ _.
              Ensures-bind
                (refuse_if (not (h.offset == r.0)) (protocol (not_at_own_offset h.offset r.0))) _
                (Ensures-refuse_if _ _) λ u _ _. value (omega arith))
]

check_frame-ne-panic : (c : Current) (buf : Bytes) (h : FrameHeader) → check_frame c buf h ≢ panic
unfolding check_frame
check_frame-ne-panic c buf h = ground arith

read_payload-Ensures :
    (h : FrameHeader) (input : Bytes)
    → Ensures (λ p. (length p ≡ h.length) × (h.length ≤ length input)) (read_payload h input)
read_payload-Ensures h input = elim (Bool-cases (ltb (length input) h.length)) [
  | inl short ↦ rw short failure
  | inr enough ↦ rw enough (
      value (
        let le : h.length ≤ length input = ground arith in
        (omega (arith, length-take h.length input), le)))
]

module _ (session : Session) (w : World) (s : Stream) (h : FrameHeader) (input : Bytes) (left : ℕ)
    (a : AllValid session.blake3 w.files) (o : Opens w.files s)
    (room : h.length ≤ length input → HasRoom w (length s.buf + (h.length + left))) where
  on_data-Ensures : Ensures (LeavesRoom left) (on_data session w s h input)
  unfolding on_data
  on_data-Ensures =
      Ensures-bind {Q = λ _. Unit {0}}
        (ok_or (get_state w.files h.file_id) (protocol (unknown_file_id h.file_id))) _
        (ok_or-Returns (get_state w.files h.file_id) _)
        λ st e1 _.
          let at = ok_or-eq-ok (get_state w.files h.file_id) _ e1 in
          let v = get_state-IsValid session.blake3 w.files h.file_id a at in
          Ensures-bind (open_chunk st h s) _ (open_chunk-Ensures st h s v.geometry) λ t e2 less.
            Ensures-bind (check_frame t.0 t.1 h) _ (returns (check_frame-ne-panic t.0 t.1 h))
              λ u e3 _.
                Ensures-bind (read_payload h input) _ (read_payload-Ensures h input)
                  λ payload _ long.
                    taken st t.0 t.1 payload less long.0 (room long.1) v (
                      open_chunk-place w.files st h s t.0 t.1 o at e2
                        (check_frame-own t.0 t.1 h e3))
    where
      taken :
          (st : FileState) (c : Current) (buf payload : Bytes)
          → length buf ≤ length s.buf
          → length payload ≡ h.length
          → HasRoom w (length s.buf + (h.length + left))
          → IsValid session.blake3 st
          → (get_state w.files c.file_id ≡ some st)
            × (range st.layout c.chunk_index ≡ ok (c.start, c.expected_len))
          → Ensures (LeavesRoom left) (
              let whole = finish_chunk session w st c (buf ++ payload) in
              if length (buf ++ payload) == c.expected_len
              then whole
              else ok (w, record { buf = buf ++ payload; current = some c }))
      taken st c buf payload less long there v (mine, r) =
          let sum = length-append buf payload in
          elim (Bool-cases (length (buf ++ payload) == c.expected_len)) [
            | inl whole ↦
                let exact : length (buf ++ payload) ≡ c.expected_len = (==_iff _ _).0 whole in
                rw whole (
                  finish_chunk-Ensures session w st c (buf ++ payload) left v mine r (
                    HasRoom-le w _ (c.expected_len + left) (omega (arith, sum, exact, less, long))
                      there))
            | inr part ↦ rw part (
                value (
                  HasRoom-le w _ (length (buf ++ payload) + left) (omega (arith, sum, less, long))
                    there))
          ]

  on_frame-Ensures :
      HasRoom w (length s.buf + left)
      → (m : MsgType) → Ensures (LeavesRoom left) (on_message session w s h input m)
  unfolding on_message
  on_frame-Ensures room_left file_data = on_data-Ensures
  on_frame-Ensures room_left keepalive = value room_left
  on_frame-Ensures room_left control = failure
  on_frame-Ensures room_left file_end = failure

-- A round of the loop leaves room for the input that is left.
take_frame-Ensures :
    (session : Session) (w : World) (s : Stream) (input : Bytes)
    → AllValid session.blake3 w.files
    → Opens w.files s
    → HasRoom w (length s.buf + length input)
    → Ensures (λ t. HasRoom t.0 (length t.1.buf + length t.2)) (take_frame session w s input)
unfolding take_frame on_frame on_message
take_frame-Ensures session w s input a o room =
    Ensures-bind {Q = λ _. Unit {0}} (map_err wire (decode (take header_len input))) _
      (Ensures-map_err wire (returns (decode-ne-panic (take header_len input))))
      λ h _ _.
        let rest = drop header_len input in
        let cut = length-drop header_len input in
        let left = length (drop h.length rest) in
        let short : left ≡ length rest - h.length = length-drop h.length rest in
        Ensures-bind (on_frame session w s h rest) _
          (on_frame-Ensures session w s h rest left a o
            (λ enough. HasRoom-le w _ _ (omega (arith, cut, short)) room)
            (HasRoom-le w _ _ (omega (arith, cut, short)) room) h.msg_type)
          λ t _ after. value after

drain-ne-panic :
    (n : ℕ) (session : Session) (w : World) (s : Stream) (input : Bytes)
    → length input < n
    → AllValid session.blake3 w.files
    → Opens w.files s
    → HasRoom w (length s.buf + length input)
    → (drain n session w s input).1 ≢ panic
unfolding drain
drain-ne-panic zero session w s input fuel a o room = absurd (omega arith)
drain-ne-panic (suc n) session w s input fuel a o room =
    elim (Bool-cases (ltb (length input) header_len)) [
      | inl over ↦ rw over (close-ne-panic s)
      | inr more ↦
          let e' = take_frame-Ensures session w s input a o room in
          elim (Result-cases (take_frame session w s input)) [
            | inl ((w', s', rest), e) ↦
                let k = take_frame-Kept session w w' s s' input rest a o e in
                let less = take_frame-shorter session w w' s s' input rest e in
                let whole : header_len ≤ length input = ground arith in
                rw (more, e)
                  (drain-ne-panic n session w' s' rest (omega arith) k.valid k.opens
                    (Ensures-ok e' e))
            | inr (inl (x, e)) ↦ rw (more, e) (λ p. cc)
            | inr (inr e) ↦ absurd (Ensures-ne-panic e' e)
          ]
    ]

-- Whatever bytes a peer sends, the receiver of a data stream ends, with success or with an error that
-- it returns: no index is out of bounds, no arithmetic overflows, and the loop does not run out of
-- fuel. The states of the files are valid, and the counters have room for as many bytes as arrive.
pub drain_stream-ne-panic :
    (session : Session) (w : World) (input : Bytes)
    → AllValid session.blake3 w.files
    → HasRoom w (length input)
    → (drain_stream session w input).1 ≢ panic
unfolding drain_stream
drain_stream-ne-panic session w input a room =
    drain-ne-panic (suc (length input)) session w (record { buf = []; current = none }) input
      (omega arith) a (λ c e. cc) (HasRoom-le w (length input) _ (omega arith) room)
