-- ===== src/Protocol/Codec.antt =====
-- The body codecs of protocol.go over the encoders of other packages, which are a parameter.
use signalg.Base.{
  ℕ, ◌-◌, ◌^◌, ◌≡◌, Bool, ◌||◌, ◌==◌, if◌then◌else◌, is_empty, Bytes, Option, none, some, [], ◌++◌,
}
use signalg.Base.Int.{ℤ, pos, lt_int}
use signalg.Errors.{
  Result, ok, err, ◌>>=◌, Checked, nil_error, unsupported_codec, unsupported_body_value,
  payload_too_large,
}
use signalg.Protocol.Types.{
  BodyCodec, message_pack_codec, protobuf_codec, json_codec, Message, ProtocolConfig,
  serialization_message_pack, serialization_protobuf, serialization_json,
  normalize_max_payload_size,
}

-- The packages msgpack, encoding/json and proto. `Value` is a Go value that is not nil; a decoder
-- is given what its target holds, and returns what the target then holds.
pub record Encoders : Type 1 where
  pub Value : Type 0
  pub msgpack_marshal : Value → Result Bytes
  pub msgpack_unmarshal : Bytes → Value → Result Value
  pub json_marshal : Value → Result Bytes
  pub json_unmarshal : Bytes → Value → Result Value
  pub is_proto_message : Value → Bool
  pub proto_marshal_append : Bytes → Value → Result Bytes
  pub proto_unmarshal : Bytes → Value → Result Value

-- `append(dst, body...)` of a body that was encoded.
abbrev pub append_body : Bytes → Bytes → Result Bytes
append_body dst body = ok (dst ++ body)

-- The documented behaviour of `MarshalOptions.MarshalAppend`: it appends the encoding to its buffer.
abbrev pub AppendsProto : Encoders → Type 0
AppendsProto lib =
    (dst : Bytes) (v : lib.Value)
    → lib.proto_marshal_append dst v ≡ (lib.proto_marshal_append [] v >>= append_body dst)

unfoldable pub serialization : BodyCodec → ℕ
serialization message_pack_codec = serialization_message_pack
serialization protobuf_codec = serialization_protobuf
serialization json_codec = serialization_json

unfoldable pub new_body_codec : ℕ → Result BodyCodec
new_body_codec s =
    if s == serialization_message_pack
    then ok message_pack_codec
    else if s == serialization_protobuf
    then ok protobuf_codec
    else if s == serialization_json
    then ok json_codec
    else err unsupported_codec

unfoldable pub new_protocol_config : ℕ → ℤ → Result ProtocolConfig
unfolding new_body_codec normalize_max_payload_size
new_protocol_config s max_payload_size = do
  codec ← new_body_codec s
  ok (record { codec = some codec; max_payload_size = normalize_max_payload_size max_payload_size })

unfoldable pub config_serialization : Option ProtocolConfig → ℕ
unfolding serialization
config_serialization none = serialization_message_pack
config_serialization (some p) = elim p.codec [
  | none ↦ serialization_message_pack
  | some codec ↦ serialization codec
]

-- `int64(n) > maxPayloadSize` and the rest; a Go `len` is never negative, other callers' `n` may be.
unfoldable pub ensure_payload_size : ℤ → ℤ → Checked
ensure_payload_size n max_payload_size =
    if lt_int n (pos 0) || lt_int max_payload_size n || lt_int (pos (2 ^ 32 - 1)) n
    then err payload_too_large
    else nil_error

module _ (lib : Encoders) where
  open lib use {
    Value, msgpack_marshal, msgpack_unmarshal, json_marshal, json_unmarshal, is_proto_message,
    proto_marshal_append, proto_unmarshal,
  }

  -- `MarshalAppend` of the three codecs; `none` is a nil body.
  unfoldable pub codec_marshal_append : BodyCodec → Bytes → Option Value → Result Bytes
  codec_marshal_append codec dst none = ok dst
  codec_marshal_append message_pack_codec dst (some v) = msgpack_marshal v >>= append_body dst
  codec_marshal_append protobuf_codec dst (some v) =
      if is_proto_message v then proto_marshal_append dst v else err unsupported_body_value
  codec_marshal_append json_codec dst (some v) = json_marshal v >>= append_body dst

  -- `Unmarshal` of the three codecs. Only the protobuf codec looks at the target of an empty body.
  unfoldable pub codec_unmarshal : BodyCodec → Bytes → Value → Result Value
  codec_unmarshal message_pack_codec payload target =
      if is_empty payload then ok target else msgpack_unmarshal payload target
  codec_unmarshal protobuf_codec payload target =
      if is_proto_message target
      then (if is_empty payload then ok target else proto_unmarshal payload target)
      else err unsupported_body_value
  codec_unmarshal json_codec payload target =
      if is_empty payload then ok target else json_unmarshal payload target

  unfoldable pub message_decode : Message → Value → Result Value
  unfolding codec_unmarshal
  message_decode m target = elim m.codec [
    | none ↦ err unsupported_codec
    | some codec ↦ codec_unmarshal codec m.payload target
  ]

  unfoldable pub marshal_append : Option ProtocolConfig → Bytes → Option Value → Result Bytes
  unfolding codec_marshal_append
  marshal_append none dst v = err unsupported_codec
  marshal_append (some p) dst v = elim p.codec [
    | none ↦ err unsupported_codec
    | some codec ↦ codec_marshal_append codec dst v
  ]
