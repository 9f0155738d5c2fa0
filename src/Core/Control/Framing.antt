-- ===== src/Core/Control/Framing.antt =====
-- A message is read back from the bytes that were written, whatever follows; and what a peer sends
-- is read within bounds.
use speeed.Base.{
  ℕ, ◌≤◌, ◌≡◌, refl, sym, ap, ◌∙◌, inl, inr, not, ltb, Bool-cases, some, [], ◌++◌, append_assoc,
  append-nil, length, length-append, length-take, take, drop, take-append, drop-append,
  take-append-drop, arith, ok, >>=-eq-ok, ok_inj, ok_or, ok_or-eq-ok, map_err-eq-ok, ◌>>=◌, map_err,
  refuse_if, le→ltb_false,
}
use speeed.Base.Bytes.{Bytes}
use speeed.Proto.Frame
use speeed.Proto.Frame.{
  FrameHeader, MsgType, control, header_len, max_frame_payload, to_bytes, decode,
}
use speeed.Proto.Frame.RoundTrip.{IsHeader, decode-to_bytes}
use speeed.Proto.Frame.Canonical.{decode-le}
use speeed.Core.Errors.{wire, protocol, undecodable}
use speeed.Core.Control.{
  Body, ControlMessage, Prost, new, into_body, is_control, write_control, read_exact, read_control,
}

read_exact-append : (xs ys : Bytes) → read_exact (length xs) (xs ++ ys) ≡ ok (xs, ys)
read_exact-append xs ys =
    rw
      (
        le→ltb_false (length (xs ++ ys)) (length xs) (omega (arith, length-append xs ys)),
        take-append xs ys,
        drop-append xs ys,
      )
      refl

length-to_bytes : (h : FrameHeader) → length (to_bytes h) ≡ header_len
unfolding to_bytes
length-to_bytes h = refl

-- The header of a message that fits is one that a peer may send.
fits-IsHeader : (n : ℕ) → n ≤ max_frame_payload → IsHeader (Frame.new control 0 0 n)
fits-IsHeader n h = record {
  flags = omega arith;
  file_id = omega arith;
  offset = omega arith;
  length = h;
  silent = λ e. cc;
}

-- A message that prost gives back from its encoding, and whose encoding fits in a frame, is written;
-- reading gives its body and the bytes that follow it, or the complaint that it has no body.
pub read_control-write_control :
    (prost : Prost) (msg : ControlMessage) (rest : Bytes)
    → prost.decode (prost.encode_to_vec msg) ≡ some msg
    → length (prost.encode_to_vec msg) ≤ max_frame_payload
    → (bytes : Bytes) × (write_control prost msg ≡ ok bytes)
      × (read_control prost (bytes ++ rest) ≡ (into_body msg >>= λ body. ok (body, rest)))
unfolding read_control write_control
read_control-write_control prost msg rest back fits =
    let payload = prost.encode_to_vec msg in
    let h = Frame.new control 0 0 (length payload) in
    let header : read_exact header_len ((to_bytes h ++ payload) ++ rest)
        ≡ ok (to_bytes h, payload ++ rest) =
      ap (λ n. read_exact n ((to_bytes h ++ payload) ++ rest)) (sym (length-to_bytes h))
      ∙ ap (λ t. read_exact (length (to_bytes h)) t) (append_assoc (to_bytes h) payload rest)
      ∙ read_exact-append (to_bytes h) (payload ++ rest) in
    let decoded : decode (to_bytes h) ≡ ok h =
      ap decode (sym (append-nil (to_bytes h)))
      ∙ decode-to_bytes h [] (fits-IsHeader (length payload) fits) in
    (
      to_bytes h ++ payload,
      rw (le→ltb_false max_frame_payload (length payload) fits) refl,
      rw (header, decoded, read_exact-append payload rest, back) refl,
    )

-- What was read, and the bytes behind it, are the input.
read_exact-splits :
    (n : ℕ) (input : Bytes) {taken rest : Bytes}
    → read_exact n input ≡ ok (taken, rest)
    → (length taken ≡ n) × (input ≡ taken ++ rest)
read_exact-splits n input {taken} {rest} e = elim (Bool-cases (ltb (length input) n)) [
  | inl short ↦ cc (rw short at e)
  | inr whole ↦
      let out = ok_inj (rw whole at e) in
      let first : take n input ≡ taken = ap (λ t. t.0) out in
      let second : drop n input ≡ rest = ap (λ t. t.1) out in
      let enough : n ≤ length input = ground arith in
      rw (← first, ← second) (omega (arith, length-take n input), sym (take-append-drop n input))
]

-- Whatever a peer sends: when a body is read, the input was a header of its length, a payload of at
-- most the maximum of a frame, which prost decodes to a message with that body, and the bytes that
-- are left.
pub read_control-within :
    (prost : Prost) (input : Bytes) {body : Body} {rest : Bytes}
    → read_control prost input ≡ ok (body, rest)
    → (header : Bytes) × (payload : Bytes) × (input ≡ header ++ (payload ++ rest))
      × (length header ≡ header_len)
      × (length payload ≤ max_frame_payload)
      × (prost.decode payload ≡ some (new body))
unfolding read_control
read_control-within prost input {body} {rest} e =
    let ((header, behind), e1, f1) = >>=-eq-ok (read_exact header_len input) _ e in
    let (h, e2, f2) = >>=-eq-ok (map_err wire (decode header)) _ f1 in
    let (_, _, f3) = >>=-eq-ok (refuse_if (not (is_control h.msg_type)) _) _ f2 in
    let ((payload, left), e4, f4) = >>=-eq-ok (read_exact h.length behind) _ f3 in
    let (msg, e5, f5) = >>=-eq-ok (ok_or (prost.decode payload) (protocol undecodable)) _ f4 in
    let (found, e6, f6) = >>=-eq-ok (into_body msg) _ f5 in
    let out = ok_inj f6 in
    let (long, whole) = read_exact-splits header_len input e1 in
    let (exact, parts) = read_exact-splits h.length behind e4 in
    let left_is : left ≡ rest = ap (λ t. t.1) out in
    let body_is : found ≡ body = ap (λ t. t.0) out in
    (
      header,
      payload,
      whole ∙ ap (λ t. header ++ t) (parts ∙ ap (λ t. payload ++ t) left_is),
      long,
      omega (arith, exact, decode-le header h (map_err-eq-ok wire (decode header) e2)),
      ok_or-eq-ok (prost.decode payload) _ e5
          ∙ ap (λ b. some (record { body = b })) (ok_or-eq-ok msg.body _ e6 ∙ ap some body_is),
    )
