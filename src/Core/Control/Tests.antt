-- ===== src/Core/Control/Tests.antt =====
-- core/crates/aetherlink-core/src/control.rs: the theorems at concrete inputs.
use speeed.Base.{
  ◌+◌, ◌≤◌, ◌≡◌, refl, ap, ◌∙◌, ok_inj, if◌then◌else◌, ◌==◌, Option, none, some, [], ◌∷◌, ◌++◌,
  length, arith, ok, ◌>>=◌,
}
use speeed.Base.Bytes.{Bytes}
use speeed.Proto.Frame
use speeed.Proto.Frame.{control, max_frame_payload, to_bytes, header_len}
use speeed.Core.Control.{
  Body, ControlMessage, Prost, new, hello, offer, accept, complete, abort, into_body, write_control,
  read_control,
}
use speeed.Core.Control.Framing.{read_control-write_control, read_control-within}

-- Two of the messages, as prost encodes them when their numbers are below 128.
abbrev encode_body : Option Body → Bytes
encode_body none = []
encode_body (some (hello h)) = 10 ∷ []
encode_body (some (offer o)) = 18 ∷ []
encode_body (some (accept a)) = 26 ∷ []
encode_body (some (complete c)) = 34 ∷ 2 ∷ 8 ∷ c.bytes_written ∷ []
encode_body (some (abort a)) = 42 ∷ (length a.reason + 2) ∷ 10 ∷ length a.reason ∷ a.reason

abbrev decode_body : Bytes → Option ControlMessage
decode_body [] = some (record { body = none })
decode_body (tag ∷ _ ∷ _ ∷ n ∷ reason) =
    if tag == 34
    then some (new (complete (record { bytes_written = n })))
    else if tag == 42
    then some (new (abort (record { reason = reason })))
    else none
decode_body _ = none

abbrev prost : Prost
prost = record { encode_to_vec = λ msg. encode_body msg.body; decode = decode_body }

abbrev done : ControlMessage
done = new (complete (record { bytes_written = 99 }))

read_control-write_control_example :
    (bytes : Bytes) × (write_control prost done ≡ ok bytes)
    × (read_control prost (bytes ++ 7 ∷ 8 ∷ [])
        ≡ (into_body done >>= λ body. ok (body, 7 ∷ 8 ∷ [])))
read_control-write_control_example =
    read_control-write_control prost done (7 ∷ 8 ∷ []) refl (omega arith)

abbrev wire_bytes : Bytes
wire_bytes = (to_bytes (Frame.new control 0 0 4) ++ 34 ∷ 2 ∷ 8 ∷ 99 ∷ []) ++ 7 ∷ []

read_it : read_control prost wire_bytes ≡ ok (complete (record { bytes_written = 99 }), 7 ∷ [])
unfolding write_control
read_it =
    let (bytes, written, read) =
      read_control-write_control prost done (7 ∷ []) refl (omega arith) in
    ap (λ t. read_control prost (t ++ 7 ∷ [])) (ok_inj written) ∙ read

read_control-within_example :
    (header : Bytes) × (payload : Bytes) × (wire_bytes ≡ header ++ (payload ++ 7 ∷ []))
    × (length header ≡ header_len)
    × (length payload ≤ max_frame_payload)
    × (prost.decode payload ≡ some done)
read_control-within_example = read_control-within prost wire_bytes read_it
