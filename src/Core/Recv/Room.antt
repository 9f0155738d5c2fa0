-- ===== src/Core/Recv/Room.antt =====
-- A frame neither panics nor overflows a counter that has room for its bytes.
use speeed.Base.{
  ℕ, ◌+◌, ◌^◌, ◌≤◌, ◌<◌, ◌≡◌, ◌≢◌, refl, inl, inr, leb, ◌==◌, Bool, true, Bool-cases, some, List,
  [], ◌∷◌, length, get_elem?, get_elem?-eq-get_or, All, arith, Result, ok, panic, or_panic, map_err,
  Ensures, value, Ensures-eq-ok, Ensures-of_ne, Ensures-map_err, Ensures-bind,
}
use speeed.Base.Bytes.{Bytes}
use speeed.Proto.Errors.{add_u64, add_u64_fits}
use speeed.Proto.Chunk.{ChunkLayout, range, index_of}
use speeed.Proto.Chunk.Layout
use speeed.Proto.Chunk.Layout.{range-len_at}
use speeed.Proto.Hashes.{Hash}
use speeed.Proto.Bitmap
use speeed.Proto.Bitmap.{ChunkBitmap}
use speeed.Proto.Bitmap.Invariant.{set-IsValid}
use speeed.Proto.Frame.{decode, from_u8, check_fields}
use speeed.Core.Errors.{CoreError, wire}
use speeed.Core.Sink.{verify_and_write}
use speeed.Core.Recv.{
  FileState, World, Stream, Current, Session, get_state, put_state, checkpoint, checkpoint_if_due,
  finish_chunk, close,
}
use speeed.Core.Recv.Verified.{range-InFile}
use speeed.Core.Recv.Preserved.{IsValid}

-- Nothing is asked of the value.
abbrev pub Returns : {E A : Type 0} → Result E A → Type 0
Returns m = Ensures (λ _. Unit {0}) m

pub decode-ne-panic : (buf : Bytes) → decode buf ≢ panic
unfolding decode from_u8 check_fields
decode-ne-panic buf = ground arith

pub index_of-ne-panic : (l : ChunkLayout) (offset : ℕ) → index_of l offset ≢ panic
unfolding index_of
index_of-ne-panic l offset = ground arith

range_past : (l : ChunkLayout) (i : ℕ) → leb l.count i ≡ true → range l i ≢ panic
unfolding range
range_past l i past = ground arith

pub range-ne-panic : {l : ChunkLayout} → Layout.IsValid l → (i : ℕ) → range l i ≢ panic
range-ne-panic {l} v i = elim (Bool-cases (leb l.count i)) [
  | inl past ↦ range_past l i past
  | inr inside ↦ λ e. cc (e, range-len_at v i (let h : i < l.count = ground arith in h))
]

pub close-ne-panic : (s : Stream) → close s ≢ panic
unfolding close
close-ne-panic s = ground arith

get_elem?-Returns :
    (hs : List Hash) (i : ℕ) → i < length hs → Returns {E = CoreError} (or_panic (get_elem? hs i))
get_elem?-Returns hs i h = rw (get_elem?-eq-get_or hs i [] h) (value tt)

verify_and_write-ne-panic :
    (blake3 : Bytes → Hash) (content : Bytes) (start : ℕ) (payload : Bytes) (expected : Hash)
    → verify_and_write blake3 content start payload expected ≢ panic
unfolding verify_and_write
verify_and_write-ne-panic blake3 content start payload expected = ground arith

pub returns : {E A : Type 0} {m : Result E A} → m ≢ panic → Returns m
returns {m} h = Ensures-of_ne m h (λ a e. tt)

-- A checkpoint adds to the counter of a file no more than was written.
checkpoint_if_due-Ensures :
    (free : Bool) (st : FileState) (added threshold : ℕ)
    → st.since_checkpoint + added < 2 ^ 64
    → Ensures
        (λ st'. st'.since_checkpoint ≤ st.since_checkpoint + added)
        (checkpoint_if_due free st added threshold)
unfolding checkpoint_if_due checkpoint
checkpoint_if_due-Ensures free st added threshold h =
    Ensures-of_ne (checkpoint_if_due free st added threshold) (ground arith) (λ st' e. ground arith)

-- Room for `n` more bytes in the counters of a session.
abbrev pub HasRoom : World → ℕ → Type 0
HasRoom w n =
    (w.counter + n < 2 ^ 64)
    × All (λ (f : ℕ × FileState). f.1.since_checkpoint + n < 2 ^ 64) w.files

fewer :
    (files : List (ℕ × FileState)) (n m : ℕ)
    → m ≤ n
    → All (λ (f : ℕ × FileState). f.1.since_checkpoint + n < 2 ^ 64) files
    → All (λ (f : ℕ × FileState). f.1.since_checkpoint + m < 2 ^ 64) files
fewer [] n m h a = tt
fewer (f ∷ files) n m h a = (omega (arith, a.0), fewer files n m h a.1)

pub HasRoom-le : (w : World) (n m : ℕ) → m ≤ n → HasRoom w n → HasRoom w m
HasRoom-le w n m h r = (omega (arith, r.0), fewer w.files n m h r.1)

pub room_of :
    (files : List (ℕ × FileState)) (k n : ℕ) {st : FileState}
    → All (λ (f : ℕ × FileState). f.1.since_checkpoint + n < 2 ^ 64) files
    → get_state files k ≡ some st
    → st.since_checkpoint + n < 2 ^ 64
unfolding get_state
room_of [] k n a e = cc
room_of ((j, own) ∷ files) k n {st} a e = elim (Bool-cases (j == k)) [
  | inl here ↦ let mine : own ≡ st = cc (rw here at e) in rw (← mine) a.0
  | inr there ↦ room_of files k n a.1 (rw there at e)
]

put_room :
    (files : List (ℕ × FileState)) (k n : ℕ) (st : FileState)
    → All (λ (f : ℕ × FileState). f.1.since_checkpoint + n < 2 ^ 64) files
    → st.since_checkpoint + n < 2 ^ 64
    → All (λ (f : ℕ × FileState). f.1.since_checkpoint + n < 2 ^ 64) (put_state files k st)
unfolding put_state
put_room [] k n st a h = tt
put_room ((j, own) ∷ files) k n st a h = elim (Bool-cases (j == k)) [
  | inl here ↦ rw here (h, a.1)
  | inr there ↦ rw there (a.0, put_room files k n st a.1 h)
]

abbrev pub LeavesRoom : ℕ → World × Stream → Type 0
LeavesRoom left t = HasRoom t.0 (length t.1.buf + left)

-- A whole chunk, with room for its bytes and those that are left.
pub finish_chunk-Ensures :
    (session : Session) (w : World) (st : FileState) (c : Current) (payload : Bytes) (left : ℕ)
    → IsValid session.blake3 st
    → get_state w.files c.file_id ≡ some st
    → range st.layout c.chunk_index ≡ ok (c.start, c.expected_len)
    → HasRoom w (c.expected_len + left)
    → Ensures (LeavesRoom left) (finish_chunk session w st c payload)
unfolding finish_chunk
finish_chunk-Ensures session w st c payload left v at r room =
    let f = range-InFile v.geometry r in
    let below : c.chunk_index < length st.chunk_hashes = omega (arith, f.below, v.hashed) in
    let mine = room_of w.files c.file_id (c.expected_len + left) room.1 at in
    Ensures-bind (or_panic (get_elem? st.chunk_hashes c.chunk_index)) _
      (get_elem?-Returns st.chunk_hashes c.chunk_index below)
      λ expected _ _.
        Ensures-bind (verify_and_write session.blake3 st.content c.start payload expected) _
          (returns (verify_and_write-ne-panic session.blake3 st.content c.start payload expected))
          λ content _ _.
            let (b, marked, _, _) =
              set-IsValid v.bitmap c.chunk_index (omega (arith, f.below, v.counted)) in
            Ensures-bind (map_err wire (Bitmap.set st.bitmap c.chunk_index)) _
              (Ensures-map_err wire (Ensures-eq-ok {P = λ _. Unit {0}} _ marked tt))
              λ bitmap _ _.
                Ensures-bind (add_u64 w.counter c.expected_len) _
                  (Ensures-eq-ok {P = λ d. d ≡ w.counter + c.expected_len} _
                    (add_u64_fits w.counter c.expected_len (omega (arith, room.0))) refl)
                  λ done _ done_is.
                    Ensures-bind
                      (checkpoint_if_due (session.free w)
                        (record st { content = content; bitmap = bitmap }) c.expected_len
                        session.checkpoint_bytes)
                      _
                      (checkpoint_if_due-Ensures (session.free w)
                        (record st { content = content; bitmap = bitmap }) c.expected_len
                        session.checkpoint_bytes (omega (arith, mine)))
                      λ st' _ since. value (
                        omega (arith, room.0, done_is),
                        put_room w.files c.file_id (0 + left) st'
                            (fewer w.files (c.expected_len + left) (0 + left) (omega arith) room.1)
                            (omega (arith, mine, since)),
                      )
