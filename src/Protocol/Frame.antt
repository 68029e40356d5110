-- ===== src/Protocol/Frame.antt =====
-- The part of connection.go that lays a frame out: the bytes that a send puts into the queue.
use signalg.Base.{ℕ, ◌+◌, ◌-◌, ◌%◌, ◌^◌, ltb, length, Bytes, Option, none, some, [], ◌∷◌, ◌++◌}
use signalg.Base.Int.{pos}
use signalg.Errors.{Result, ok, err, ◌>>=◌, ◌>>◌, Checked, unsupported_codec, invalid_frame}
use signalg.Protocol.Types.{header_size, protocol_version, FrameHeader, ProtocolConfig}
use signalg.Protocol.Codec.{Encoders, config_serialization, ensure_payload_size, marshal_append}
use signalg.Protocol.Validate.{reject, validate_protocol_frame}
use signalg.Protocol.Decode.{encode_frame_header}

abbrev pub empty_frame_header : Bytes
empty_frame_header = 0 ∷ 0 ∷ 0 ∷ 0 ∷ 0 ∷ 0 ∷ 0 ∷ 0 ∷ []

-- `(*protocolConfig).ensurePayloadSize`, on a nil receiver too.
unfoldable pub config_ensure_payload_size : Option ProtocolConfig → ℕ → Checked
unfolding ensure_payload_size
config_ensure_payload_size none n = err unsupported_codec
config_ensure_payload_size (some p) n = ensure_payload_size (pos n) p.max_payload_size

-- The header that `enqueuePreparedProtocolFrame` writes; its `Magic` field is left 0.
abbrev pub frame_header : Option ProtocolConfig → ℕ → Bytes → Bytes → ℕ → FrameHeader
frame_header protocol kind method invocation_id body_len = record {
  magic = 0;
  version = protocol_version;
  codec = config_serialization protocol;
  kind = kind;
  method_len = length method % 2 ^ 8;
  invocation_id_len = length invocation_id % 2 ^ 8;
  body_len = body_len % 2 ^ 32;
}

-- `enqueuePreparedProtocolFrame` up to the call of `enqueueFrame`.
unfoldable pub prepare_protocol_frame :
    Option ProtocolConfig → ℕ → Bytes → Bytes → Bytes → Result Bytes
unfolding config_ensure_payload_size
prepare_protocol_frame protocol kind method invocation_id frame = do
  let prefix_len = header_size + length method + length invocation_id
  reject (ltb (length frame) prefix_len) invalid_frame
  let body_len = length frame - prefix_len
  config_ensure_payload_size protocol body_len
  ok (encode_frame_header frame (frame_header protocol kind method invocation_id body_len))

-- The bytes in front of a body: an empty header, the method and the invocation id.
abbrev pub frame_prefix : Bytes → Bytes → Bytes
frame_prefix method invocation_id = empty_frame_header ++ (method ++ invocation_id)

-- `writeRawProtocolFrame` up to the call of `enqueueFrame`.
unfoldable pub raw_protocol_frame : Option ProtocolConfig → ℕ → Bytes → Bytes → Bytes → Result Bytes
raw_protocol_frame protocol kind method invocation_id payload = do
  validate_protocol_frame kind method invocation_id
  config_ensure_payload_size protocol (length payload)
  prepare_protocol_frame protocol kind method invocation_id
      (frame_prefix method invocation_id ++ payload)

module _ (lib : Encoders) where
  -- `writeEncodedProtocolFrame` up to the call of `enqueueFrame`: the length of the body, which is
  -- observed, and the frame. Buffers of the pool are values here.
  unfoldable pub encoded_protocol_frame :
      Option ProtocolConfig → ℕ → Bytes → Bytes → Option lib.Value → Result (ℕ × Result Bytes)
  encoded_protocol_frame protocol kind method invocation_id body = do
    validate_protocol_frame kind method invocation_id
    let prefix_len = header_size + length method + length invocation_id
    frame ← marshal_append lib protocol (frame_prefix method invocation_id) body
    let body_len = length frame - prefix_len
    config_ensure_payload_size protocol body_len
    ok (body_len, prepare_protocol_frame protocol kind method invocation_id frame)
