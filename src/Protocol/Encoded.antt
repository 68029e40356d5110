-- ===== src/Protocol/Encoded.antt =====
-- A send that encodes its body with the codec, against a send of the bytes that the codec gives.
use mathlib.Core.List.{append-nil}
use signalg.Base.{
  ℕ, ◌+◌, ◌-◌, ◌≡◌, sym, ap, inl, inr, length, Bytes, [], ◌++◌, Option, none, some, arith,
}
use signalg.Errors.{ok, err, ◌>>◌, ok-injective, Checked-cases, unsupported_codec}
use signalg.Protocol.Types.{
  header_size, BodyCodec, message_pack_codec, protobuf_codec, json_codec, ProtocolConfig,
}
use signalg.Protocol.Codec.{Encoders, AppendsProto, codec_marshal_append, marshal_append}
use signalg.Protocol.Validate.{validate_protocol_frame}
use signalg.Protocol.Frame.{
  frame_prefix, config_ensure_payload_size, raw_protocol_frame, encoded_protocol_frame,
}
use signalg.Protocol.Layout.{length-prefix}

module _ (lib : Encoders) (appends : AppendsProto lib) where
  codec_marshal_append-append :
      (c : BodyCodec) (dst payload : Bytes) (body : Option lib.Value)
      → codec_marshal_append lib c [] body ≡ ok payload
      → codec_marshal_append lib c dst body ≡ ok (dst ++ payload)
  unfolding codec_marshal_append
  codec_marshal_append-append c dst payload none h =
      let e : [] ≡ payload = ok-injective h in rw (← e) (ap ok (sym (append-nil dst)))
  codec_marshal_append-append message_pack_codec dst payload (some v) h = ground arith
  codec_marshal_append-append protobuf_codec dst payload (some v) h = ground (arith, appends dst v)
  codec_marshal_append-append json_codec dst payload (some v) h = ground arith

  marshal_append-append :
      (p : ProtocolConfig) (dst payload : Bytes) (body : Option lib.Value)
      → marshal_append lib (some p) [] body ≡ ok payload
      → marshal_append lib (some p) dst body ≡ ok (dst ++ payload)
  unfolding marshal_append
  marshal_append-append p dst payload body = by_codec p.codec
    where
      by_codec :
          (c : Option BodyCodec)
          → (elim c [ none ↦ err unsupported_codec | some d ↦ codec_marshal_append lib d [] body ])
            ≡ ok payload
          → (elim c [ none ↦ err unsupported_codec | some d ↦ codec_marshal_append lib d dst body ])
            ≡ ok (dst ++ payload)
      by_codec none h = cc
      by_codec (some c) h = codec_marshal_append-append c dst payload body h

  -- Where the codec makes a payload of the body, and the protobuf encoder appends to its buffer, a
  -- send that encodes the body does what a raw send of the payload does: the same checks in the
  -- same order, with the same error or the same frame; and it reports the payload's length.
  pub encoded_protocol_frame-raw :
      (p : ProtocolConfig) (kind : ℕ) (method invocation_id payload : Bytes)
      (body : Option lib.Value)
      → marshal_append lib (some p) [] body ≡ ok payload
      → encoded_protocol_frame lib (some p) kind method invocation_id body ≡ (
          validate_protocol_frame kind method invocation_id
          >> (config_ensure_payload_size (some p) (length payload)
              >> ok
                  (length payload, raw_protocol_frame (some p) kind method invocation_id payload)))
  unfolding encoded_protocol_frame raw_protocol_frame
  encoded_protocol_frame-raw p kind method invocation_id payload body h =
      let n = length (frame_prefix method invocation_id ++ payload) in
      let e = length-prefix method invocation_id payload in
      let f : n - (header_size + length method + length invocation_id) ≡ length payload =
        omega arith in
      elim (Checked-cases (validate_protocol_frame kind method invocation_id)) [
        | inr (x, v) ↦ rw v
        | inl v ↦
            rw (v, marshal_append-append p (frame_prefix method invocation_id) payload body h, f)
              (elim (Checked-cases (config_ensure_payload_size (some p) (length payload))) [
                | inr (x, w) ↦ rw w
                | inl w ↦ rw w
              ])
      ]
