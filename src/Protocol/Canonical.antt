-- ===== src/Protocol/Canonical.antt =====
-- `decodeFrame` of protocol.go, against the frames that a sender lays out.
use signalg.Base.{
  ℕ, ◌+◌, ◌^◌, ◌≤◌, ◌<◌, ◌≡◌, false, ◌++◌, refl, length, Bytes, ◌∷◌, arith, some, ◌∙◌, sym, subst,
  ap, IsByte, All, drop, take-append-drop, drop_add, length-take, length-drop, ◌&&◌, not, is_empty,
  [],
}
use signalg.Base.Int.{ℤ}
use signalg.Errors.{ok}
use signalg.Protocol.Types.{
  header_size, protocol_magic, protocol_version, FrameHeader, Message, BodyCodec,
  normalize_max_payload_size, is_control_frame_kind,
}
use signalg.Protocol.Decode.{header_bytes, decode_header, decode_frame}
use signalg.Protocol.Accepted.{IsNamed}
use signalg.Protocol.Accepts.{IsAccepted, decode_frame-IsAccepted}
use signalg.Protocol.Frame.{raw_protocol_frame}
use signalg.Protocol.Layout.{layout, message_of}
use signalg.Protocol.Reading.{layout-raw_protocol_frame}
use signalg.Protocol.Pieces.{
  header_bytes-decode_header, decode_header_ranges, method_of, invocation_id_of, payload_of,
  parts_read, named, ensure-normalize, header_bytes-layout,
}

module _ (frame : Bytes) (c : BodyCodec) (max : ℤ) (m : Message) (bytes : All IsByte frame)
    (accepted : IsAccepted frame c max m) where
  open accepted use {long, front, codec_read, kind_read, lengths, fits, whole, parts}

  abbrev the_header : FrameHeader
  the_header = decode_header frame

  front_read : (the_header.magic ≡ protocol_magic) × (the_header.version ≡ protocol_version)
  unfolding decode_header
  front_read = front

  ranges :
      (the_header.method_len < 256)
      × (the_header.invocation_id_len < 256)
      × (the_header.body_len < 2 ^ 32)
  ranges = decode_header_ranges frame bytes long

  length_method : length (method_of frame the_header) ≡ the_header.method_len
  length_method =
      length-take the_header.method_len (drop header_size frame)
        (omega (arith, length-drop header_size frame))

  length_invocation_id : length (invocation_id_of frame the_header) ≡ the_header.invocation_id_len
  length_invocation_id =
      length-take the_header.invocation_id_len (drop (header_size + the_header.method_len) frame)
        (omega (arith, length-drop (header_size + the_header.method_len) frame))

  length_payload : length (payload_of frame the_header) ≡ the_header.body_len
  length_payload = omega (
    arith,
    length-drop (header_size + the_header.method_len + the_header.invocation_id_len) frame,
  )

  -- The three parts stand one behind the other, and nothing is left over.
  three_parts :
      drop header_size frame
      ≡ method_of frame the_header
        ++ (invocation_id_of frame the_header ++ payload_of frame the_header)
  three_parts =
      let rest = drop header_size frame in
      let tail = drop (header_size + the_header.method_len) frame in
      sym (take-append-drop the_header.method_len rest)
      ∙ ap (◌++◌ (method_of frame the_header)) (
          sym (drop_add header_size the_header.method_len _ frame refl)
          ∙ sym (take-append-drop the_header.invocation_id_len tail)
          ∙ ap (◌++◌ (invocation_id_of frame the_header)) (
              sym (
                drop_add (header_size + the_header.method_len) the_header.invocation_id_len _ frame
                  refl)))

  frame-layout :
      frame
      ≡ layout c the_header.kind
          (method_of frame the_header)
          (invocation_id_of frame the_header)
          (payload_of frame the_header)
  frame-layout =
      sym (take-append-drop header_size frame)
      ∙ ap (λ (t : Bytes). t ++ drop header_size frame)
          (sym (header_bytes-decode_header frame bytes long front)
            ∙ sym (
                header_bytes-layout the_header c _ _ _ codec_read length_method length_invocation_id
                  length_payload ranges))
      ∙ ap (◌++◌ (header_bytes _)) three_parts

  is_named :
      IsNamed the_header.kind (method_of frame the_header) (invocation_id_of frame the_header)
      × (4 ≤ the_header.kind → length (payload_of frame the_header) ≡ 0)
  is_named =
      let (p, q, _) = parts_read frame the_header c m parts in
      named the_header _ _ (payload_of frame the_header) kind_read lengths ranges.0 ranges.1
        length_method length_invocation_id length_payload p q

  message-message_of :
      m
      ≡ message_of c the_header.kind
          (method_of frame the_header)
          (invocation_id_of frame the_header)
          (payload_of frame the_header)
  message-message_of = ground (
    arith,
    parts_read frame the_header c m parts,
    length_method,
    length_invocation_id,
    length_payload,
    front_read,
  )

  -- What is canonical of a message is so of the one that the frame holds.
  pub canonical :
      (raw_protocol_frame
          (some (record { codec = some c; max_payload_size = normalize_max_payload_size max }))
          m.kind
          m.method
          m.invocation_id
          m.payload
        ≡ ok frame)
      × (m ≡ message_of c m.kind m.method m.invocation_id m.payload)
      × (4 ≤ m.kind → length m.payload ≡ 0)
  canonical =
      let (v, control) = is_named in
      let small =
        ensure-normalize (length (payload_of frame the_header)) (normalize_max_payload_size max)
          (rw length_payload fits) (omega (arith, length_payload, ranges.2)) in
      subst
        (λ (n : Message).
          (raw_protocol_frame
              (some (record { codec = some c; max_payload_size = normalize_max_payload_size max }))
              n.kind n.method n.invocation_id n.payload
            ≡ ok frame)
          × (n ≡ message_of c n.kind n.method n.invocation_id n.payload)
          × (4 ≤ n.kind → length n.payload ≡ 0))
        (sym message-message_of)
        (
          layout-raw_protocol_frame c (normalize_max_payload_size max) the_header.kind _ _ _ v small
              ∙ ap ok (sym frame-layout),
          refl,
          control,
        )

no_control_payload :
    (kind : ℕ) (payload : Bytes)
    → (4 ≤ kind → length payload ≡ 0)
    → (is_control_frame_kind kind && not (is_empty payload)) ≡ false
unfolding is_control_frame_kind
no_control_payload kind [] h = ground arith
no_control_payload kind (b ∷ bs) h = ground arith

-- Whatever frame of bytes the decoder accepts is the frame that a raw send of its message lays out
-- under the same codec and the normalised limit; the header of the message says the lengths of its
-- parts; and a ping or a pong has an empty payload.
pub raw_protocol_frame-decode_frame :
    (frame : Bytes) (c : BodyCodec) (max : ℤ) (m : Message)
    → All IsByte frame
    → decode_frame frame (some c) max ≡ ok m
    → (raw_protocol_frame
          (some (record { codec = some c; max_payload_size = normalize_max_payload_size max }))
          m.kind
          m.method
          m.invocation_id
          m.payload
        ≡ ok frame)
      × (m ≡ message_of c m.kind m.method m.invocation_id m.payload)
      × ((is_control_frame_kind m.kind && not (is_empty m.payload)) ≡ false)
raw_protocol_frame-decode_frame frame c max m bytes h =
    let (d, e, accepted) = decode_frame-IsAccepted frame (some c) max m h in
    let same : d ≡ c = cc in
    let (sent, parts, control) =
      canonical frame c max m bytes (subst (λ x. IsAccepted frame x max m) same accepted) in
    (sent, parts, no_control_payload m.kind m.payload control)
