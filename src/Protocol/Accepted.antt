-- ===== src/Protocol/Accepted.antt =====
-- What the checks of the frame code mean, as plain facts on kinds and lengths.
use signalg.Base.{
  ℕ, ◌+◌, ◌*◌, ◌/◌, ◌%◌, ◌^◌, ◌≤◌, ◌<◌, ◌≡◌, refl, true, length, Bytes, [], ◌∷◌, ◌++◌, arith,
  bit_and, bit_or,
}
use signalg.Base.Bits.{low_half, pack_halves}
use signalg.Errors.{nil_error}
use signalg.Text.{utf8_valid}
use signalg.Protocol.Types.{
  protocol_magic, protocol_version, FrameHeader, BodyCodec, message_pack_codec, protobuf_codec,
  json_codec, is_control_frame_kind,
}
use signalg.Protocol.Codec.{serialization}
use signalg.Protocol.Validate.{
  validate_frame_kind, validate_method_name, validate_invocation_id, validate_protocol_frame,
}
use signalg.Protocol.Decode.{header_bytes, decode_header}

-- The facts on the names of a frame that a validated send and a decoded frame share.
pub record IsNamed (kind : ℕ) (method invocation_id : Bytes) : Type 0 where
  pub kind_known : kind < 6
  pub method_short : length method < 256
  pub method_text : utf8_valid method ≡ true
  pub id_short : length invocation_id < 256
  pub id_text : utf8_valid invocation_id ≡ true
  pub control_method : 4 ≤ kind → length method ≡ 0
  pub control_id : 4 ≤ kind → length invocation_id ≡ 0
  pub call_method : kind < 2 → 0 < length method
  pub reply_id : 0 < kind → kind < 4 → 0 < length invocation_id

pub utf8_valid-nil : utf8_valid [] ≡ true
unfolding utf8_valid
utf8_valid-nil = refl

pub validate-IsNamed :
    (kind : ℕ) (method invocation_id : Bytes)
    → validate_protocol_frame kind method invocation_id ≡ nil_error
    → IsNamed kind method invocation_id
unfolding validate_protocol_frame validate_frame_kind validate_method_name validate_invocation_id
    is_control_frame_kind
validate-IsNamed kind [] [] h = ground (arith, utf8_valid-nil)
validate-IsNamed kind (m ∷ ms) [] h = ground (arith, utf8_valid-nil)
validate-IsNamed kind [] (i ∷ is) h = ground (arith, utf8_valid-nil)
validate-IsNamed kind (m ∷ ms) (i ∷ is) h = ground arith

pub IsNamed-validate :
    (kind : ℕ) (method invocation_id : Bytes)
    → IsNamed kind method invocation_id
    → validate_protocol_frame kind method invocation_id ≡ nil_error
unfolding validate_protocol_frame validate_frame_kind validate_method_name validate_invocation_id
    is_control_frame_kind
IsNamed-validate kind [] [] h = ground arith
IsNamed-validate kind (m ∷ ms) [] h = ground arith
IsNamed-validate kind [] (i ∷ is) h = ground arith
IsNamed-validate kind (m ∷ ms) (i ∷ is) h = ground arith

pub serialization-lt : (c : BodyCodec) → serialization c < 3
unfolding serialization
serialization-lt message_pack_codec = omega arith
serialization-lt protobuf_codec = omega arith
serialization-lt json_codec = omega arith

pub kind_byte :
    (c k : ℕ)
    → c < 16
    → k < 16
    → let b = bit_or (c * 16 % 256) (bit_and k 0x0f) in (b / 16 ≡ c) × (bit_and b 0x0f ≡ k)
kind_byte c k hc hk =
    rw (pack_halves c k hc hk, low_half (c * 16 + k) (omega arith)) (omega arith, omega arith)

-- A header whose fields are in range is read back, with the magic and the version of the protocol.
pub decode_header-header_bytes :
    (h : FrameHeader) (rest : Bytes)
    → h.codec < 16
    → h.kind < 16
    → h.body_len < 2 ^ 32
    → decode_header (header_bytes h ++ rest)
      ≡ record h { magic = protocol_magic; version = protocol_version }
unfolding decode_header header_bytes
decode_header-header_bytes h rest hc hk hb = ground (arith, kind_byte h.codec h.kind)
