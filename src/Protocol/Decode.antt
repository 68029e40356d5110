-- ===== src/Protocol/Decode.antt =====
-- `encodeFrameHeader` and `decodeFrame` of protocol.go.
use signalg.Base.{
  ℕ, ◌+◌, ◌*◌, ◌/◌, ◌%◌, ◌^◌, ◌||◌, not, ◌&&◌, ◌==◌, ltb, if◌then◌else◌, length, take, drop, get_or,
  Bytes, bit_and, bit_or, Option, none, some, [], ◌∷◌, ◌++◌,
}
use signalg.Base.Int.{ℤ, pos, lt_int}
use signalg.Errors.{
  Result, ok, err, ◌>>◌, Checked, invalid_frame, invalid_method_name, invalid_invocation_id,
  unsupported_codec, unexpected_codec, payload_too_large,
}
use signalg.Text.{utf8_valid}
use signalg.Protocol.Types.{
  header_size, protocol_magic, protocol_version, FrameHeader, Message, BodyCodec, ProtocolConfig,
  frame_kind_message, frame_kind_invoke, is_control_frame_kind, normalize_max_payload_size,
}
use signalg.Protocol.Codec.{serialization}
use signalg.Protocol.Validate.{reject, validate_frame_kind}

-- `binary.BigEndian.PutUint32`.
put_uint32 : ℕ → Bytes
put_uint32 v = v / 2 ^ 24 % 256 ∷ v / 2 ^ 16 % 256 ∷ v / 2 ^ 8 % 256 ∷ v % 256 ∷ []

-- The eight bytes of a header. A shift of a byte keeps eight bits.
unfoldable pub header_bytes : FrameHeader → Bytes
unfolding put_uint32
header_bytes h =
    bit_or (protocol_magic * 16 % 256) (bit_and protocol_version 0x0f)
    ∷ bit_or (h.codec * 16 % 256) (bit_and h.kind 0x0f)
    ∷ h.method_len
    ∷ h.invocation_id_len
    ∷ put_uint32 h.body_len

-- The caller passes `frame[:HeaderSize]`, so the header overwrites the front of the frame in place.
unfoldable pub encode_frame_header : Bytes → FrameHeader → Bytes
unfolding header_bytes
encode_frame_header frame h = header_bytes h ++ drop header_size frame

-- `frame[i]`, for an `i` that the length check has put in range.
abbrev pub byte_at : Bytes → ℕ → ℕ
byte_at frame i = get_or frame i 0

-- `binary.BigEndian.Uint32(frame[4:8])`.
abbrev pub uint32_at_4 : Bytes → ℕ
uint32_at_4 frame =
    byte_at frame 4 * 2 ^ 24 + byte_at frame 5 * 2 ^ 16 + byte_at frame 6 * 2 ^ 8 + byte_at frame 7

unfoldable pub decode_header : Bytes → FrameHeader
decode_header frame = record {
  magic = byte_at frame 0 / 16;
  version = bit_and (byte_at frame 0) 0x0f;
  codec = byte_at frame 1 / 16;
  kind = bit_and (byte_at frame 1) 0x0f;
  method_len = byte_at frame 2;
  invocation_id_len = byte_at frame 3;
  body_len = uint32_at_4 frame;
}

check_control_lengths : FrameHeader → Checked
check_control_lengths h = do
  reject (not (h.method_len == 0)) invalid_method_name
  reject (not (h.invocation_id_len == 0)) invalid_invocation_id
  reject (not (h.body_len == 0)) invalid_frame

check_method_len : FrameHeader → Checked
check_method_len h =
    reject
      (((h.kind == frame_kind_message) || (h.kind == frame_kind_invoke)) && (h.method_len == 0))
      invalid_method_name

check_invocation_id_len : FrameHeader → Checked
check_invocation_id_len h =
    reject
      (not (is_control_frame_kind h.kind)
        && not (h.kind == frame_kind_message)
        && (h.invocation_id_len == 0))
      invalid_invocation_id

-- The checks of `decodeFrame` on the lengths that a kind of frame may have.
unfoldable pub check_lengths : FrameHeader → Checked
unfolding check_control_lengths check_method_len check_invocation_id_len
check_lengths h =
    (if is_control_frame_kind h.kind then check_control_lengths h else check_method_len h)
    >> check_invocation_id_len h

-- The end of `decodeFrame`: the parts behind the header, and their text checked.
unfoldable pub decode_parts : Bytes → FrameHeader → BodyCodec → Result Message
decode_parts frame h codec = do
  let method = take h.method_len (drop header_size frame)
  reject (not (utf8_valid method)) invalid_method_name
  let invocation_id = take h.invocation_id_len (drop (header_size + h.method_len) frame)
  reject (not (utf8_valid invocation_id)) invalid_invocation_id
  let payload = drop (header_size + h.method_len + h.invocation_id_len) frame
  ok (record {
    header = h;
    kind = h.kind;
    method = method;
    invocation_id = invocation_id;
    payload = payload;
    codec = some codec;
  })

-- `decodeFrame` from the codec check on.
unfoldable pub decode_checked : Bytes → BodyCodec → ℤ → Result Message
decode_checked frame codec max_payload_size = do
  let h = decode_header frame
  reject (not (h.codec == serialization codec)) unexpected_codec
  validate_frame_kind h.kind
  check_lengths h
  reject (lt_int max_payload_size (pos h.body_len)) payload_too_large
  reject (not (length frame == header_size + h.method_len + h.invocation_id_len + h.body_len))
      invalid_frame
  decode_parts frame h codec

unfoldable pub decode_frame : Bytes → Option BodyCodec → ℤ → Result Message
decode_frame frame codec max_payload_size = do
  reject (ltb (length frame) header_size) invalid_frame
  reject (not (byte_at frame 0 / 16 == protocol_magic)) invalid_frame
  reject (not (bit_and (byte_at frame 0) 0x0f == protocol_version)) invalid_frame
  elim codec [
    | none ↦ err unsupported_codec
    | some c ↦ decode_checked frame c (normalize_max_payload_size max_payload_size)
  ]

-- `(*protocolConfig).decodeFrame`, on a nil receiver too.
unfoldable pub config_decode_frame : Option ProtocolConfig → Bytes → Result Message
config_decode_frame none frame = err unsupported_codec
config_decode_frame (some p) frame = decode_frame frame p.codec p.max_payload_size
