-- ===== src/Protocol/RoundTrip.antt =====
-- The decoder on the frames that the senders lay out.
use signalg.Base.{
  ℕ, ◌+◌, ◌≤◌, ◌≡◌, ltb, false, ◌++◌, length-append, length, Bytes, arith, some, ==_self,
}
use signalg.Base.Int.{ℤ, pos}
use signalg.Errors.{ok, nil_error}
use signalg.Protocol.Types.{header_size, FrameHeader, BodyCodec, normalize_max_payload_size}
use signalg.Protocol.Codec.{serialization, ensure_payload_size}
use signalg.Protocol.Decode.{header_bytes, decode_checked, decode_frame}
use signalg.Protocol.Frame.{raw_protocol_frame}
use signalg.Protocol.Accepted.{IsNamed}
use signalg.Protocol.Layout.{
  layout, layout_header, message_of, raw_protocol_frame-layout, ensure-IsSmall,
}
use signalg.Protocol.Reading.{
  decode_header-layout, decode_parts-layout, length-layout, length-header_bytes,
  check_lengths-IsNamed, validate_frame_kind-lt, normalize-fits,
}

ltb-length-header :
    (h : FrameHeader) (rest : Bytes) → ltb (length (header_bytes h ++ rest)) header_size ≡ false
ltb-length-header h rest =
    let e = length-append (header_bytes h) rest in let f = length-header_bytes h in ground arith

module _ (c : BodyCodec) (max : ℤ) (kind : ℕ) (method invocation_id payload : Bytes) where
  decode_checked-layout :
      IsNamed kind method invocation_id
      → (4 ≤ kind → length payload ≡ 0)
      → ensure_payload_size (pos (length payload)) max ≡ nil_error
      → decode_checked
          (layout c kind method invocation_id payload)
          c
          (normalize_max_payload_size max)
        ≡ ok (message_of c kind method invocation_id payload)
  unfolding decode_checked
  decode_checked-layout v control fits =
      rw
        (
          decode_header-layout c kind method invocation_id payload v (ensure-IsSmall _ max fits),
          ==_self (serialization c),
          validate_frame_kind-lt kind v.kind_known,
          check_lengths-IsNamed c kind method invocation_id payload v control,
          normalize-fits (length payload) max fits,
          length-layout c kind method invocation_id payload,
          ==_self (header_size + length method + length invocation_id + length payload),
        )
        (decode_parts-layout c kind method invocation_id payload v)

  pub decode_frame-layout :
      IsNamed kind method invocation_id
      → (4 ≤ kind → length payload ≡ 0)
      → ensure_payload_size (pos (length payload)) max ≡ nil_error
      → decode_frame (layout c kind method invocation_id payload) (some c) max
        ≡ ok (message_of c kind method invocation_id payload)
  unfolding decode_frame header_bytes
  decode_frame-layout v control fits =
      let long =
        ltb-length-header (layout_header c kind method invocation_id (length payload))
          (method ++ (invocation_id ++ payload)) in
      rw long (decode_checked-layout v control fits)

-- A peer with the same codec and size limit reads back every frame that a raw send lays out, with
-- the kind, the names and the payload that were sent, where a ping or a pong has no payload.
pub decode_frame-raw_protocol_frame :
    (c : BodyCodec) (max : ℤ) (kind : ℕ) (method invocation_id payload frame : Bytes)
    → (4 ≤ kind → length payload ≡ 0)
    → raw_protocol_frame
        (some (record { codec = some c; max_payload_size = max }))
        kind
        method
        invocation_id
        payload
      ≡ ok frame
    → decode_frame frame (some c) max ≡ ok (message_of c kind method invocation_id payload)
decode_frame-raw_protocol_frame c max kind method invocation_id payload frame control h =
    let (v, fits, e) = raw_protocol_frame-layout c max kind method invocation_id payload frame h in
    rw e (decode_frame-layout c max kind method invocation_id payload v control fits)
