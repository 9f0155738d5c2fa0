-- ===== src/Core/Recv/Streams.antt =====
-- The whole of a data stream, whatever the peer sends on it.
use speeed.Base.{
  ℕ, zero, suc, ◌-◌, ◌≤◌, ◌<◌, ◌≡◌, refl, ap, inl, inr, ltb, Bool-cases, none, [], length,
  length-drop, take, drop, arith, ok, >>=-eq-ok, Result-cases, ok_inj, map_err,
}
use speeed.Base.Bytes.{Bytes}
use speeed.Proto.Frame.{decode, header_len}
use speeed.Core.Errors.{wire}
use speeed.Core.Recv.{World, Stream, Session, on_frame, take_frame, drain, drain_stream}
use speeed.Core.Recv.Preserved.{AllValid}
use speeed.Core.Recv.Frames.{Opens, Kept, on_frame-Kept}

-- A frame that was taken keeps everything, and its header is no longer in the input.
pub take_frame-Kept :
    (session : Session) (w w' : World) (s s' : Stream) (input rest : Bytes)
    → AllValid session.blake3 w.files
    → Opens w.files s
    → take_frame session w s input ≡ ok (w', s', rest)
    → Kept session.blake3 w w' s'
unfolding take_frame
take_frame-Kept session w w' s s' input rest a o e =
    let (h, _, f1) = >>=-eq-ok (map_err wire (decode (take header_len input))) _ e in
    let ((w1, s1), e2, f2) = >>=-eq-ok (on_frame session w s h (drop header_len input)) _ f1 in
    let out = ok_inj f2 in
    let world : w1 ≡ w' = ap (λ t. t.0) out in
    let stream : s1 ≡ s' = ap (λ t. t.1) out in
    rw (← world, ← stream) (on_frame-Kept session w w1 s s1 s h (drop header_len input) a o o e2).0

pub take_frame-shorter :
    (session : Session) (w w' : World) (s s' : Stream) (input rest : Bytes)
    → take_frame session w s input ≡ ok (w', s', rest)
    → length rest ≤ length input - header_len
unfolding take_frame
take_frame-shorter session w w' s s' input rest e =
    let (h, _, f1) = >>=-eq-ok (map_err wire (decode (take header_len input))) _ e in
    let ((w1, s1), e2, f2) = >>=-eq-ok (on_frame session w s h (drop header_len input)) _ f1 in
    let left : drop h.length (drop header_len input) ≡ rest = ap (λ t. t.2) (ok_inj f2) in
    omega (
      arith,
      ap length left,
      length-drop h.length (drop header_len input),
      length-drop header_len input,
    )

drain-AllValid :
    (n : ℕ) (session : Session) (w : World) (s : Stream) (input : Bytes)
    → AllValid session.blake3 w.files
    → Opens w.files s
    → AllValid session.blake3 (drain n session w s input).0.files
unfolding drain
drain-AllValid zero session w s input a o = a
drain-AllValid (suc n) session w s input a o = elim (Bool-cases (ltb (length input) header_len)) [
  | inl over ↦ rw over a
  | inr more ↦ elim (Result-cases (take_frame session w s input)) [
    | inl ((w', s', rest), e) ↦
        let k = take_frame-Kept session w w' s s' input rest a o e in
        rw (more, e) (drain-AllValid n session w' s' rest k.valid k.opens)
    | inr (inl (x, e)) ↦ rw (more, e) a
    | inr (inr e) ↦ rw (more, e) a
  ]
]

-- More fuel than the input is long makes no difference.
drain_fuel :
    (n m : ℕ) (session : Session) (w : World) (s : Stream) (input : Bytes)
    → length input < n
    → length input < m
    → drain n session w s input ≡ drain m session w s input
unfolding drain
drain_fuel zero m session w s input h k = absurd (omega arith)
drain_fuel (suc n) zero session w s input h k = absurd (omega arith)
drain_fuel (suc n) (suc m) session w s input h k =
    elim (Bool-cases (ltb (length input) header_len)) [
      | inl over ↦ rw over refl
      | inr more ↦ elim (Result-cases (take_frame session w s input)) [
        | inl ((w', s', rest), e) ↦
            let less = take_frame-shorter session w w' s s' input rest e in
            let whole : header_len ≤ length input = ground arith in
            rw (more, e) (drain_fuel n m session w' s' rest (omega arith) (omega arith))
        | inr (inl (x, e)) ↦ rw (more, e) refl
        | inr (inr e) ↦ rw (more, e) refl
      ]
    ]

-- Nor has `drain_stream` less than it needs.
pub drain-drain_stream :
    (n : ℕ) (session : Session) (w : World) (input : Bytes)
    → length input < n
    → drain n session w (record { buf = []; current = none }) input ≡ drain_stream session w input
unfolding drain_stream
drain-drain_stream n session w input h =
    drain_fuel n (suc (length input)) session w _ input h (omega arith)

-- When all file states are valid, they are all valid after `drain_stream`, whatever bytes the peer sends
-- and whether the stream ends with success or with an error: a chunk is marked only if the bytes of
-- the file at its place have the hash that was offered for it, and the same holds of the record on
-- disk and the content that was synced before it. More fuel than `drain_stream` has changes nothing.
pub drain_stream-AllValid :
    (session : Session) (w : World) (input : Bytes) (n : ℕ)
    → AllValid session.blake3 w.files
    → length input < n
    → AllValid session.blake3 (drain_stream session w input).0.files
      × (drain n session w (record { buf = []; current = none }) input
          ≡ drain_stream session w input)
unfolding drain_stream
drain_stream-AllValid session w input n a h = (
  drain-AllValid (suc (length input)) session w _ input a (λ c e. cc),
  drain-drain_stream n session w input h,
)
