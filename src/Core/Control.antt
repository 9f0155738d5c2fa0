-- ===== src/Core/Control.antt =====
-- core/crates/aetherlink-core/src/control.rs: the messages of the control stream, and their frames.
-- How a message is encoded is prost's affair: its two functions are the parameter `Prost`.
pub mod Framing
mod Tests
use speeed.Base.{
  ℕ, Bool, true, false, not, ltb, if◌then◌else◌, Option, none, some, List, ◌++◌, length, take, drop,
  Result, ok, err, ◌>>=◌, ◌>>◌, ok_or, map_err, refuse_if,
}
use speeed.Base.Bytes.{Bytes}
use speeed.Proto.Frame
use speeed.Proto.Frame.{
  FrameHeader, MsgType, control, file_data, file_end, keepalive, header_len, max_frame_payload,
  to_bytes, decode,
}
use speeed.Core.Errors.{
  CoreError, io, wire, protocol, oversized_control, not_a_control_frame, undecodable, no_body,
}

pub record FileEntry : Type 0 where
  pub file_id : ℕ
  pub relative_path : Bytes
  pub size_bytes : ℕ
  pub mime_type : Bytes
  pub root_hash : Bytes
  pub chunk_hashes : Bytes
  pub modified_unix_ms : ℕ
  pub created_unix_ms : ℕ

pub record Hello : Type 0 where
  pub protocol_version : ℕ
  pub session_id : Bytes
  pub stream_count : ℕ

pub record ManifestOffer : Type 0 where
  pub chunk_size : ℕ
  pub files : List FileEntry

pub record FileProgress : Type 0 where
  pub file_id : ℕ
  pub have_bitmap : Bytes

pub record ManifestAccept : Type 0 where
  pub accepted_file_ids : List ℕ
  pub progress : List FileProgress

pub record TransferComplete : Type 0 where
  pub bytes_written : ℕ

pub record Abort : Type 0 where
  pub reason : Bytes

pub data Body : Type 0 where
  hello : Hello → Body
  offer : ManifestOffer → Body
  accept : ManifestAccept → Body
  complete : TransferComplete → Body
  abort : Abort → Body

pub record ControlMessage : Type 0 where
  pub body : Option Body

abbrev pub new : Body → ControlMessage
new body = record { body = some body }

abbrev pub into_body : ControlMessage → Result CoreError Body
into_body msg = ok_or msg.body (protocol no_body)

pub record Prost : Type 0 where
  pub encode_to_vec : ControlMessage → Bytes
  pub decode : Bytes → Option ControlMessage

abbrev is_control : MsgType → Bool
is_control control = true
is_control file_data = false
is_control file_end = false
is_control keepalive = false

-- The bytes that are written.
unfoldable pub write_control : Prost → ControlMessage → Result CoreError Bytes
write_control prost msg = do
  let payload = prost.encode_to_vec msg
  refuse_if (ltb max_frame_payload (length payload)) (protocol (oversized_control (length payload)))
  ok (to_bytes (Frame.new control 0 0 (length payload)) ++ payload)

-- `read_exact`: the bytes that are read, and those behind them.
abbrev pub read_exact : ℕ → Bytes → Result CoreError (Bytes × Bytes)
read_exact n input = if ltb (length input) n then err io else ok (take n input, drop n input)

-- The message, and the bytes behind it.
unfoldable pub read_control : Prost → Bytes → Result CoreError (Body × Bytes)
read_control prost input = do
  (header_buf, rest) ← read_exact header_len input
  header ← map_err wire (decode header_buf)
  refuse_if (not (is_control header.msg_type)) (protocol not_a_control_frame)
  (payload, rest') ← read_exact header.length rest
  msg ← ok_or (prost.decode payload) (protocol undecodable)
  body ← into_body msg
  ok (body, rest')
