-- ===== src/Proto/Frame/RoundTrip.antt =====
-- `to_bytes` and `decode` are inverse to one another.
use Prim.Native.Nat.{bit_and}
use speeed.Base.{
  ℕ, ◌^◌, ◌≤◌, ◌<◌, ◌≡◌, refl, ◌++◌, length, get_or, zero, suc, le→ltb_false, arith, ok,
}
use speeed.Base.Bytes.{Bytes, from_le_bytes-to_le_bytes}
use speeed.Proto.Frame.{
  FrameHeader, MsgType, control, keepalive, max_frame_payload, to_bytes, decode, check_fields,
  from_u8, to_u8, word_at, header_len, magic, protocol_version,
}

-- What a peer of this version may send.
pub record IsHeader (h : FrameHeader) : Type 0 where
  pub flags : h.flags.bits ≤ 1
  pub file_id : h.file_id < 2 ^ 64
  pub offset : h.offset < 2 ^ 64
  pub length : h.length ≤ max_frame_payload
  pub silent : h.msg_type ≡ keepalive → h.length ≡ 0

-- The fields of the header as the bytes of the buffer give them, and zeros in the reserved ones.
pub record Reads (buf : Bytes) (h : FrameHeader) : Type 0 where
  pub flags : word_at buf 4 6 ≡ h.flags.bits
  pub reserved : word_at buf 6 8 ≡ 0
  pub file_id : word_at buf 8 16 ≡ h.file_id
  pub offset : word_at buf 16 24 ≡ h.offset
  pub length : word_at buf 24 28 ≡ h.length
  pub trailer : word_at buf 28 32 ≡ 0

known_mask : (bits : ℕ) → bits ≤ 1 → bit_and bits 65534 ≡ 0
known_mask zero h = refl
known_mask (suc zero) h = refl
known_mask (suc (suc bits)) h = absurd (omega arith)

passes : (h : FrameHeader) → IsHeader h → check_fields h.flags.bits 0 0 h.length h.msg_type ≡ ok tt
unfolding check_fields
passes h v = ground (arith, known_mask h.flags.bits v.flags, v.silent)

to_bytes-Reads : (h : FrameHeader) (rest : Bytes) → IsHeader h → Reads (to_bytes h ++ rest) h
unfolding to_bytes
to_bytes-Reads h rest v = record {
  flags = from_le_bytes-to_le_bytes 2 h.flags.bits (omega arith);
  reserved = refl;
  file_id = from_le_bytes-to_le_bytes 8 h.file_id (omega arith);
  offset = from_le_bytes-to_le_bytes 8 h.offset (omega arith);
  length = from_le_bytes-to_le_bytes 4 h.length (omega arith);
  trailer = refl;
}

from_u8-to_u8 : (m : MsgType) → from_u8 (to_u8 m) ≡ ok m
unfolding from_u8
from_u8-to_u8 control = refl
from_u8-to_u8 _ = refl

decode-Reads :
    (buf : Bytes) (h : FrameHeader)
    → IsHeader h
    → Reads buf h
    → header_len ≤ length buf
    → word_at buf 0 2 ≡ magic
    → get_or buf 2 0 ≡ protocol_version
    → from_u8 (get_or buf 3 0) ≡ ok h.msg_type
    → decode buf ≡ ok h
unfolding decode
decode-Reads buf h v r long word version kind =
    rw (le→ltb_false (length buf) header_len long, word, version, kind)
      (rw (r.flags, r.reserved, r.file_id, r.offset, r.length, r.trailer) (rw (passes h v) refl))

-- Every header that a peer may send is read back from its bytes, whatever follows them.
pub decode-to_bytes :
    (h : FrameHeader) (rest : Bytes) → IsHeader h → decode (to_bytes h ++ rest) ≡ ok h
unfolding to_bytes
decode-to_bytes h rest v =
    decode-Reads (to_bytes h ++ rest) h v (to_bytes-Reads h rest v) (omega arith) refl refl
      (from_u8-to_u8 h.msg_type)
