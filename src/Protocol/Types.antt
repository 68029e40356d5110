-- ===== src/Protocol/Types.antt =====
-- The constants and types of protocol.go. `Serialization` and `FrameKind` are uint8 in the source,
-- since the decoder makes them from any four bits: here they are numbers with named constants.
use signalg.Base.{ℕ, ◌^◌, Bool, ◌||◌, ◌==◌, if◌then◌else◌, Bytes, Option}
use signalg.Base.Int.{ℤ, pos, lt_int}

abbrev pub header_size : ℕ
header_size = 8

abbrev pub max_method_name_len : ℕ
max_method_name_len = 255

abbrev pub max_invocation_id_len : ℕ
max_invocation_id_len = 255

abbrev pub default_max_payload_size : ℤ
default_max_payload_size = pos (2 ^ 20)

abbrev pub protocol_magic : ℕ
protocol_magic = 5

abbrev pub protocol_version : ℕ
protocol_version = 1

abbrev pub serialization_message_pack : ℕ
serialization_message_pack = 0

abbrev pub serialization_protobuf : ℕ
serialization_protobuf = 1

abbrev pub serialization_json : ℕ
serialization_json = 2

abbrev pub frame_kind_message : ℕ
frame_kind_message = 0

abbrev pub frame_kind_invoke : ℕ
frame_kind_invoke = 1

abbrev pub frame_kind_completion : ℕ
frame_kind_completion = 2

abbrev pub frame_kind_error : ℕ
frame_kind_error = 3

abbrev pub frame_kind_ping : ℕ
frame_kind_ping = 4

abbrev pub frame_kind_pong : ℕ
frame_kind_pong = 5

pub record FrameHeader : Type 0 where
  pub magic : ℕ  -- byte
  pub version : ℕ  -- uint8
  pub codec : ℕ  -- Serialization
  pub kind : ℕ  -- FrameKind
  pub method_len : ℕ  -- uint8
  pub invocation_id_len : ℕ  -- uint8
  pub body_len : ℕ  -- uint32

-- The three codec types of the package.
pub data BodyCodec : Type 0 where
  message_pack_codec protobuf_codec json_codec : BodyCodec

pub record Message : Type 0 where
  pub header : FrameHeader
  pub kind : ℕ
  pub method : Bytes
  pub invocation_id : Bytes
  pub payload : Bytes
  pub codec : Option BodyCodec

-- The `codec` field is nil in a zero `protocolConfig`.
pub record ProtocolConfig : Type 0 where
  pub codec : Option BodyCodec
  pub max_payload_size : ℤ

unfoldable pub is_control_frame_kind : ℕ → Bool
is_control_frame_kind kind = (kind == frame_kind_ping) || (kind == frame_kind_pong)

unfoldable pub normalize_max_payload_size : ℤ → ℤ
normalize_max_payload_size n = if lt_int (pos 0) n then n else default_max_payload_size
