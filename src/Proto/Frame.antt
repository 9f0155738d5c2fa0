-- ===== src/Proto/Frame.antt =====
-- core/crates/aetherlink-proto/src/frame.rs: the header of a frame, 32 bytes on the wire.
pub mod RoundTrip
pub mod Canonical
mod Tests
use Prim.Native.Nat.{bit_and, bit_or}
use speeed.Base.{
  ℕ, ◌+◌, ◌-◌, ◌*◌, ◌^◌, Bool, true, false, not, ◌&&◌, ◌||◌, ltb, leb, ◌==◌, if◌then◌else◌, Option,
  none, some, [], ◌∷◌, ◌++◌, length, get_or, Result, ok, err, ◌>>=◌, ◌>>◌, refuse_if,
}
use speeed.Base.Bytes.{Bytes, to_le_bytes, from_le_bytes, slice}
use speeed.Proto.Errors.{
  Error, short_header, bad_magic, unsupported_version, unknown_message_type, unknown_flags,
  reserved_not_zero, frame_too_large, keepalive_with_payload,
}

abbrev pub magic : ℕ
magic = 0xae10

abbrev pub protocol_version : ℕ
protocol_version = 1

abbrev pub header_len : ℕ
header_len = 32

abbrev pub default_frame_payload : ℕ
default_frame_payload = 256 * 1024

abbrev pub max_frame_payload : ℕ
max_frame_payload = 8 * 1024 * 1024

pub data MsgType : Type 0 where
  control file_data file_end keepalive : MsgType

-- `msg_type as u8`
abbrev pub to_u8 : MsgType → ℕ
to_u8 control = 0
to_u8 file_data = 1
to_u8 file_end = 2
to_u8 keepalive = 3

unfoldable pub from_u8 : ℕ → Result Error MsgType
from_u8 v =
    if v == 0
    then ok control
    else if v == 1
    then ok file_data
    else if v == 2
    then ok file_end
    else if v == 3
    then ok keepalive
    else err (unknown_message_type v)

abbrev pub is_keepalive : MsgType → Bool
is_keepalive keepalive = true
is_keepalive _ = false

pub record Flags : Type 0 where
  pub bits : ℕ

abbrev pub no_flags : Flags
no_flags = record { bits = 0 }

abbrev pub end_of_file : Flags
end_of_file = record { bits = 1 }

abbrev pub known : ℕ
known = 1

unfoldable pub contains : Flags → Flags → Bool
contains self other = bit_and self.bits other.bits == other.bits

unfoldable pub union : Flags → Flags → Flags
union self other = record { bits = bit_or self.bits other.bits }

pub record FrameHeader : Type 0 where
  pub msg_type : MsgType
  pub flags : Flags
  pub file_id : ℕ
  pub offset : ℕ
  pub length : ℕ

abbrev pub new : MsgType → ℕ → ℕ → ℕ → FrameHeader
new msg_type file_id offset length = record {
  msg_type = msg_type;
  flags = no_flags;
  file_id = file_id;
  offset = offset;
  length = length;
}

abbrev pub with_flags : FrameHeader → Flags → FrameHeader
with_flags h flags = record h { flags = flags }

-- The writes of `encode` fill the buffer from its start to its end.
unfoldable pub to_bytes : FrameHeader → Bytes
to_bytes h =
    to_le_bytes 2 magic
    ++ (protocol_version ∷ [])
    ++ (to_u8 h.msg_type ∷ [])
    ++ to_le_bytes 2 h.flags.bits
    ++ to_le_bytes 2 0
    ++ to_le_bytes 8 h.file_id
    ++ to_le_bytes 8 h.offset
    ++ to_le_bytes 4 h.length
    ++ to_le_bytes 4 0

-- The integer at `buf[a .. b]`.
abbrev pub word_at : Bytes → ℕ → ℕ → ℕ
word_at buf a b = from_le_bytes (slice buf a b)

-- The tests on the flags, the two reserved fields and the length, in their order.
unfoldable pub check_fields : ℕ → ℕ → ℕ → ℕ → MsgType → Result Error (Unit {0})
check_fields raw_flags low high length msg_type = do
  refuse_if (not (bit_and raw_flags (2 ^ 16 - 1 - known) == 0)) (unknown_flags raw_flags)
  refuse_if (not (low == 0) || not (high == 0)) reserved_not_zero
  refuse_if (ltb max_frame_payload length) (frame_too_large length)
  refuse_if (is_keepalive msg_type && not (length == 0)) (keepalive_with_payload length)

-- Behind the first test every index is inside the buffer.
unfoldable pub decode : Bytes → Result Error FrameHeader
decode buf = do
  refuse_if (ltb (length buf) header_len) (short_header (length buf))
  refuse_if (not (word_at buf 0 2 == magic)) (bad_magic (word_at buf 0 2))
  refuse_if (not (get_or buf 2 0 == protocol_version)) (unsupported_version (get_or buf 2 0))
  msg_type ← from_u8 (get_or buf 3 0)
  check_fields (word_at buf 4 6) (word_at buf 6 8) (word_at buf 28 32) (word_at buf 24 28) msg_type
  ok (record {
    msg_type = msg_type;
    flags = record { bits = word_at buf 4 6 };
    file_id = word_at buf 8 16;
    offset = word_at buf 16 24;
    length = word_at buf 24 28;
  })

-- `checked_add`
unfoldable pub end_offset : FrameHeader → Option ℕ
end_offset h = if ltb (h.offset + h.length) (2 ^ 64) then some (h.offset + h.length) else none
