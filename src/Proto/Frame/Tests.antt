-- ===== src/Proto/Frame/Tests.antt =====
-- core/crates/aetherlink-proto/src/frame.rs: the theorems at concrete inputs.
use speeed.Base.{◌≡◌, refl, ◌∷◌, take, replicate, All, arith, ok}
use speeed.Base.Bits.{IsByte}
use speeed.Base.Bytes.{Bytes}
use speeed.Proto.Frame.{
  from_u8, check_fields, FrameHeader, file_data, control, no_flags, end_of_file, to_bytes, decode,
  header_len,
}
use speeed.Proto.Frame.RoundTrip.{IsHeader}
use speeed.Proto.Frame.Canonical.{to_bytes-decode}

abbrev last_frame : FrameHeader
last_frame = record {
  msg_type = file_data;
  flags = end_of_file;
  file_id = 7;
  offset = 131072;
  length = 18928;
}

last_frame-IsHeader : IsHeader last_frame
last_frame-IsHeader = record {
  flags = omega arith;
  file_id = omega arith;
  offset = omega arith;
  length = omega arith;
  silent = λ e. cc;
}

abbrev wire : Bytes
wire = 16 ∷ 174 ∷ 1 ∷ 0 ∷ replicate 28 0

abbrev empty_control : FrameHeader
empty_control = record { msg_type = control; flags = no_flags; file_id = 0; offset = 0; length = 0 }

wire_read : decode wire ≡ ok empty_control
unfolding decode from_u8 check_fields
wire_read = refl

wire_bytes : All IsByte wire
wire_bytes = ground arith

to_bytes-decode_example : (to_bytes empty_control ≡ take header_len wire) × IsHeader empty_control
to_bytes-decode_example = to_bytes-decode wire empty_control wire_bytes wire_read
