-- ===== src/Examples/ProtocolRuns.antt =====
-- Frames with concrete names and bodies.
use signalg.Base.{
  ℕ, ◌≡◌, refl, false, not, ◌&&◌, is_empty, All, IsByte, [], ◌∷◌, Bytes, some, arith,
}
use signalg.Base.Int.{pos}
use signalg.Errors.{ok, err, ◌>>◌, invalid_frame}
use signalg.Protocol.Types.{
  ProtocolConfig, json_codec, is_control_frame_kind, normalize_max_payload_size,
}
use signalg.Protocol.Codec.{
  marshal_append, config_serialization, serialization, codec_marshal_append,
}
use signalg.Text.{utf8_valid}
use signalg.Protocol.Validate.{validate_protocol_frame, validate_frame_kind, validate_method_name}
use signalg.Protocol.Decode.{
  decode_frame, encode_frame_header, decode_checked, decode_header, check_lengths, decode_parts,
}
use signalg.Protocol.Frame.{
  raw_protocol_frame, encoded_protocol_frame, config_ensure_payload_size, prepare_protocol_frame,
}
use signalg.Protocol.Layout.{message_of}
use signalg.Protocol.RoundTrip.{decode_frame-raw_protocol_frame}
use signalg.Protocol.Canonical.{raw_protocol_frame-decode_frame}
use signalg.Protocol.Encoded.{encoded_protocol_frame-raw}
use signalg.Examples.Instances.{plain_encoders, plain_encoders-AppendsProto}

abbrev config : ProtocolConfig
config = record { codec = some json_codec; max_payload_size = pos 100 }

-- A message for the method "ab" with the payload 1 2 3.
abbrev hello : Bytes
hello = 0x51 ∷ 0x20 ∷ 2 ∷ 0 ∷ 0 ∷ 0 ∷ 0 ∷ 3 ∷ b'a' ∷ b'b' ∷ 1 ∷ 2 ∷ 3 ∷ []

hello_laid_out :
    raw_protocol_frame (some config) 0 (b'a' ∷ b'b' ∷ []) [] (1 ∷ 2 ∷ 3 ∷ []) ≡ ok hello
unfolding raw_protocol_frame validate_protocol_frame validate_frame_kind is_control_frame_kind
    validate_method_name utf8_valid config_ensure_payload_size prepare_protocol_frame
    encode_frame_header config_serialization
hello_laid_out = refl

hello_decoded :
    decode_frame hello (some json_codec) (pos 100)
    ≡ ok (message_of json_codec 0 (b'a' ∷ b'b' ∷ []) [] (1 ∷ 2 ∷ 3 ∷ []))
unfolding decode_frame decode_checked decode_header serialization validate_frame_kind check_lengths
    is_control_frame_kind normalize_max_payload_size decode_parts utf8_valid
hello_decoded = refl

short_refused : decode_frame (0x51 ∷ 0x20 ∷ []) (some json_codec) (pos 100) ≡ err invalid_frame
unfolding decode_frame
short_refused = refl

hello_bytes : All IsByte hello
hello_bytes = ground arith

decode_frame-raw_protocol_frame_example :
    decode_frame hello (some json_codec) (pos 100)
    ≡ ok (message_of json_codec 0 (b'a' ∷ b'b' ∷ []) [] (1 ∷ 2 ∷ 3 ∷ []))
decode_frame-raw_protocol_frame_example =
    decode_frame-raw_protocol_frame json_codec (pos 100) 0 (b'a' ∷ b'b' ∷ []) [] (1 ∷ 2 ∷ 3 ∷ [])
      hello (λ h. absurd (omega arith)) hello_laid_out

raw_protocol_frame-decode_frame_example :
    (raw_protocol_frame
        (some (record {
          codec = some json_codec;
          max_payload_size = normalize_max_payload_size (pos 100);
        }))
        0
        (b'a' ∷ b'b' ∷ [])
        []
        (1 ∷ 2 ∷ 3 ∷ [])
      ≡ ok hello)
    × (message_of json_codec 0 (b'a' ∷ b'b' ∷ []) [] (1 ∷ 2 ∷ 3 ∷ [])
        ≡ message_of json_codec 0 (b'a' ∷ b'b' ∷ []) [] (1 ∷ 2 ∷ 3 ∷ []))
    × ((is_control_frame_kind 0 && not (is_empty {A = ℕ} (1 ∷ 2 ∷ 3 ∷ []))) ≡ false)
raw_protocol_frame-decode_frame_example =
    raw_protocol_frame-decode_frame hello json_codec (pos 100)
      (message_of json_codec 0 (b'a' ∷ b'b' ∷ []) [] (1 ∷ 2 ∷ 3 ∷ [])) hello_bytes hello_decoded

marshalled : marshal_append plain_encoders (some config) [] (some (1 ∷ 2 ∷ [])) ≡ ok (1 ∷ 2 ∷ [])
unfolding marshal_append codec_marshal_append
marshalled = refl

encoded_protocol_frame-raw_example :
    encoded_protocol_frame plain_encoders (some config) 2 [] (b'7' ∷ []) (some (1 ∷ 2 ∷ [])) ≡ (
      validate_protocol_frame 2 [] (b'7' ∷ [])
      >> (config_ensure_payload_size (some config) 2
          >> ok (2, raw_protocol_frame (some config) 2 [] (b'7' ∷ []) (1 ∷ 2 ∷ []))))
encoded_protocol_frame-raw_example =
    encoded_protocol_frame-raw plain_encoders plain_encoders-AppendsProto config 2 [] (b'7' ∷ [])
      (1 ∷ 2 ∷ []) (some (1 ∷ 2 ∷ [])) marshalled
