-- ===== src/Protocol/Layout.antt =====
-- The bytes of a frame that the senders of connection.go lay out.
use mathlib.Core.List.{append_assoc}
use signalg.Base.{
  ℕ, ◌+◌, ◌-◌, ◌^◌, ◌<◌, ◌≡◌, false, length, ltb, Bytes, ◌++◌, arith, length-append, some, sym, ◌∙◌,
}
use signalg.Base.Int.{ℤ, pos}
use signalg.Errors.{ok, nil_error, >>-eq-ok, ok-injective}
use signalg.Protocol.Types.{
  header_size, protocol_magic, protocol_version, FrameHeader, BodyCodec, Message,
}
use signalg.Protocol.Codec.{serialization, ensure_payload_size, config_serialization}
use signalg.Protocol.Validate.{validate_protocol_frame}
use signalg.Protocol.Decode.{header_bytes, encode_frame_header}
use signalg.Protocol.Frame.{
  frame_header, frame_prefix, prepare_protocol_frame, config_ensure_payload_size,
  raw_protocol_frame,
}
use signalg.Protocol.Accepted.{IsNamed, validate-IsNamed}

-- A frame laid out in full: the header of its lengths, and its three parts.
abbrev pub layout_header : BodyCodec → ℕ → Bytes → Bytes → ℕ → FrameHeader
layout_header c = frame_header (some (record { codec = some c; max_payload_size = pos 0 }))

abbrev pub layout : BodyCodec → ℕ → Bytes → Bytes → Bytes → Bytes
layout c kind method invocation_id payload =
    header_bytes (layout_header c kind method invocation_id (length payload))
    ++ (method ++ (invocation_id ++ payload))

-- The message that a peer is meant to read.
abbrev pub message_of : BodyCodec → ℕ → Bytes → Bytes → Bytes → Message
message_of c kind method invocation_id payload = record {
  header = record {
    magic = protocol_magic;
    version = protocol_version;
    codec = serialization c;
    kind = kind;
    method_len = length method;
    invocation_id_len = length invocation_id;
    body_len = length payload;
  };
  kind = kind;
  method = method;
  invocation_id = invocation_id;
  payload = payload;
  codec = some c;
}

pub length-prefix :
    (method invocation_id payload : Bytes)
    → length (frame_prefix method invocation_id ++ payload)
      ≡ header_size + length method + length invocation_id + length payload
length-prefix method invocation_id payload =
    omega
      (arith, length-append (method ++ invocation_id) payload, length-append method invocation_id)

pub ensure-IsSmall : (n : ℕ) (max : ℤ) → ensure_payload_size (pos n) max ≡ nil_error → n < 2 ^ 32
unfolding ensure_payload_size
ensure-IsSmall n max h = ground arith

pub prepare-layout :
    (c : BodyCodec) (max : ℤ) (kind : ℕ) (method invocation_id payload : Bytes)
    → ensure_payload_size (pos (length payload)) max ≡ nil_error
    → prepare_protocol_frame
        (some (record { codec = some c; max_payload_size = max }))
        kind
        method
        invocation_id
        (frame_prefix method invocation_id ++ payload)
      ≡ ok (layout c kind method invocation_id payload)
unfolding prepare_protocol_frame encode_frame_header config_serialization
prepare-layout c max kind method invocation_id payload h =
    let n = length (frame_prefix method invocation_id ++ payload) in
    let e = length-prefix method invocation_id payload in
    let f : n - (header_size + length method + length invocation_id) ≡ length payload =
      omega arith in
    let g : ltb n (header_size + length method + length invocation_id) ≡ false = ground arith in
    rw (g, f, h, append_assoc method invocation_id payload)

-- A raw send that is not refused lays its frame out in full.
pub raw_protocol_frame-layout :
    (c : BodyCodec) (max : ℤ) (kind : ℕ) (method invocation_id payload frame : Bytes)
    → raw_protocol_frame
        (some (record { codec = some c; max_payload_size = max }))
        kind
        method
        invocation_id
        payload
      ≡ ok frame
    → IsNamed kind method invocation_id
      × (ensure_payload_size (pos (length payload)) max ≡ nil_error)
      × (frame ≡ layout c kind method invocation_id payload)
unfolding raw_protocol_frame config_ensure_payload_size
raw_protocol_frame-layout c max kind method invocation_id payload frame h =
    let (named, h') = >>-eq-ok (validate_protocol_frame kind method invocation_id) _ h in
    let (fits, h'') = >>-eq-ok (ensure_payload_size (pos (length payload)) max) _ h' in
    (
      validate-IsNamed kind method invocation_id named,
      fits,
      ok-injective (sym h'' ∙ prepare-layout c max kind method invocation_id payload fits),
    )
