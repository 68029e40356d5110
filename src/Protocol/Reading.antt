-- ===== src/Protocol/Reading.antt =====
-- What the decoder reads off a layout.
use signalg.Base.{
  ℕ, ◌+◌, ◌^◌, ◌≤◌, ◌<◌, ◌≡◌, refl, false, length, take, drop, Bytes, ◌++◌, arith, length-append,
  drop-append, take-append, some, drop-append_add, sym, ◌∙◌,
}
use signalg.Base.Int.{ℤ, pos, negsuc, lt_int}
use signalg.Errors.{ok, nil_error}
use signalg.Protocol.Types.{
  header_size, protocol_magic, protocol_version, FrameHeader, BodyCodec, is_control_frame_kind,
  normalize_max_payload_size,
}
use signalg.Protocol.Codec.{serialization, ensure_payload_size, config_serialization}
use signalg.Protocol.Validate.{validate_frame_kind}
use signalg.Protocol.Decode.{header_bytes, decode_header, check_lengths, decode_parts}
use signalg.Protocol.Frame.{config_ensure_payload_size, raw_protocol_frame}
use signalg.Protocol.Accepted.{
  IsNamed, IsNamed-validate, serialization-lt, decode_header-header_bytes,
}
use signalg.Protocol.Layout.{layout, message_of, prepare-layout}

-- The header of a frame, as the decoder reads it.
abbrev pub read_header : BodyCodec → ℕ → ℕ → ℕ → ℕ → FrameHeader
read_header c kind method_len invocation_id_len body_len = record {
  magic = protocol_magic;
  version = protocol_version;
  codec = serialization c;
  kind = kind;
  method_len = method_len;
  invocation_id_len = invocation_id_len;
  body_len = body_len;
}

pub validate_frame_kind-lt : (kind : ℕ) → kind < 6 → validate_frame_kind kind ≡ nil_error
unfolding validate_frame_kind
validate_frame_kind-lt kind h = ground arith

pub check_lengths-IsNamed :
    (c : BodyCodec) (kind : ℕ) (method invocation_id payload : Bytes)
    → IsNamed kind method invocation_id
    → (4 ≤ kind → length payload ≡ 0)
    → check_lengths (read_header c kind (length method) (length invocation_id) (length payload))
      ≡ nil_error
unfolding check_lengths is_control_frame_kind
check_lengths-IsNamed c kind method invocation_id payload v h = ground arith

pub normalize-fits :
    (n : ℕ) (max : ℤ)
    → ensure_payload_size (pos n) max ≡ nil_error
    → lt_int (normalize_max_payload_size max) (pos n) ≡ false
unfolding normalize_max_payload_size ensure_payload_size
normalize-fits n (pos m) h = ground arith
normalize-fits n (negsuc m) h = ground arith

pub decode_header-layout :
    (c : BodyCodec) (kind : ℕ) (method invocation_id payload : Bytes)
    → IsNamed kind method invocation_id
    → length payload < 2 ^ 32
    → decode_header (layout c kind method invocation_id payload)
      ≡ read_header c kind (length method) (length invocation_id) (length payload)
unfolding config_serialization
decode_header-layout c kind method invocation_id payload v small =
    decode_header-header_bytes _ (method ++ (invocation_id ++ payload))
      (omega (arith, serialization-lt c)) (omega arith) (omega arith)
    ∙ ground arith

-- A frame of an eight-byte header and three parts is cut where the parts meet.
module _ (head method invocation_id payload : Bytes) (eight : length head ≡ header_size) where
  cut_method :
      take (length method) (drop header_size (head ++ (method ++ (invocation_id ++ payload))))
      ≡ method
  cut_method =
      rw (drop-append head (method ++ (invocation_id ++ payload)) header_size (sym eight))
        (take-append method (invocation_id ++ payload) (length method) refl)

  cut_after_method :
      drop (header_size + length method) (head ++ (method ++ (invocation_id ++ payload)))
      ≡ invocation_id ++ payload
  cut_after_method =
      drop-append_add head _ (header_size + length method) (length method) (omega arith)
      ∙ drop-append method _ (length method) refl

  cut_payload :
      drop
        (header_size + length method + length invocation_id)
        (head ++ (method ++ (invocation_id ++ payload)))
      ≡ payload
  cut_payload =
      drop-append_add head _ (header_size + length method + length invocation_id)
        (length method + length invocation_id) (omega arith)
      ∙ drop-append_add method _ (length method + length invocation_id) (length invocation_id) refl
      ∙ drop-append invocation_id payload (length invocation_id) refl

pub length-header_bytes : (h : FrameHeader) → length (header_bytes h) ≡ header_size
unfolding header_bytes
length-header_bytes h = refl

decode_parts-cut :
    (c : BodyCodec) (kind : ℕ) (method invocation_id payload frame : Bytes)
    → IsNamed kind method invocation_id
    → take (length method) (drop header_size frame) ≡ method
    → take (length invocation_id) (drop (header_size + length method) frame) ≡ invocation_id
    → drop (header_size + length method + length invocation_id) frame ≡ payload
    → decode_parts frame
        (read_header c kind (length method) (length invocation_id) (length payload))
        c
      ≡ ok (message_of c kind method invocation_id payload)
unfolding decode_parts
decode_parts-cut c kind method invocation_id payload frame v p q r =
    rw (p, v.method_text, q, v.id_text, r)

pub decode_parts-layout :
    (c : BodyCodec) (kind : ℕ) (method invocation_id payload : Bytes)
    → IsNamed kind method invocation_id
    → decode_parts
        (layout c kind method invocation_id payload)
        (read_header c kind (length method) (length invocation_id) (length payload))
        c
      ≡ ok (message_of c kind method invocation_id payload)
decode_parts-layout c kind method invocation_id payload v =
    let eight = length-header_bytes _ in
    decode_parts-cut c kind method invocation_id payload _ v
      (cut_method _ method invocation_id payload eight)
      (rw (cut_after_method _ method invocation_id payload eight)
        (take-append invocation_id payload (length invocation_id) refl))
      (cut_payload _ method invocation_id payload eight)

pub length-layout :
    (c : BodyCodec) (kind : ℕ) (method invocation_id payload : Bytes)
    → length (layout c kind method invocation_id payload)
      ≡ header_size + length method + length invocation_id + length payload
length-layout c kind method invocation_id payload = omega (
  arith,
  length-append (header_bytes _) (method ++ (invocation_id ++ payload)),
  length-header_bytes _,
  length-append method (invocation_id ++ payload),
  length-append invocation_id payload,
)

-- A raw send of a named frame whose payload fits is not refused.
pub layout-raw_protocol_frame :
    (c : BodyCodec) (max : ℤ) (kind : ℕ) (method invocation_id payload : Bytes)
    → IsNamed kind method invocation_id
    → ensure_payload_size (pos (length payload)) max ≡ nil_error
    → raw_protocol_frame
        (some (record { codec = some c; max_payload_size = max }))
        kind
        method
        invocation_id
        payload
      ≡ ok (layout c kind method invocation_id payload)
unfolding raw_protocol_frame config_ensure_payload_size
layout-raw_protocol_frame c max kind method invocation_id payload v fits =
    rw (IsNamed-validate kind method invocation_id v, fits)
      (prepare-layout c max kind method invocation_id payload fits)
