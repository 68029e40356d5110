-- ===== src/Protocol/Accepts.antt =====
-- What the decoder has found out of a frame when it succeeds.
use signalg.Base.{
  ℕ, ◌+◌, ◌/◌, ◌≤◌, ◌≡◌, ◌==◌, Bool, ltb, true, false, refl, length, Bytes, arith, some, none,
  Option, bit_and, not,
}
use signalg.Base.Int.{ℤ, pos, lt_int}
use signalg.Errors.{
  ok, err, nil_error, >>-eq-ok, Error, invalid_frame, unexpected_codec, payload_too_large,
  unsupported_codec,
}
use signalg.Protocol.Types.{
  header_size, protocol_magic, protocol_version, Message, BodyCodec, normalize_max_payload_size,
}
use signalg.Protocol.Codec.{serialization}
use signalg.Protocol.Validate.{reject, validate_frame_kind}
use signalg.Protocol.Decode.{
  decode_header, decode_parts, check_lengths, decode_checked, decode_frame, byte_at,
}

reject-eq-ok : (b : Bool) (e : Error) → reject b e ≡ nil_error → b ≡ false
reject-eq-ok true e h = cc
reject-eq-ok false e h = refl

eq_of_reject : (a b : ℕ) (e : Error) → reject (not (a == b)) e ≡ nil_error → a ≡ b
eq_of_reject a b e h = ground arith

le_of_reject : (a b : ℕ) (e : Error) → reject (ltb a b) e ≡ nil_error → b ≤ a
le_of_reject a b e h = ground arith

-- What `decodeFrame` has found out of a frame when it succeeds.
pub record IsAccepted (frame : Bytes) (c : BodyCodec) (max : ℤ) (m : Message) : Type 0 where
  pub long : header_size ≤ length frame
  pub front :
      (byte_at frame 0 / 16 ≡ protocol_magic) × (bit_and (byte_at frame 0) 15 ≡ protocol_version)
  pub codec_read : (decode_header frame).codec ≡ serialization c
  pub kind_read : validate_frame_kind (decode_header frame).kind ≡ nil_error
  pub lengths : check_lengths (decode_header frame) ≡ nil_error
  pub fits : lt_int (normalize_max_payload_size max) (pos (decode_header frame).body_len) ≡ false
  pub whole :
      length frame
      ≡ header_size
        + (decode_header frame).method_len
        + (decode_header frame).invocation_id_len
        + (decode_header frame).body_len
  pub parts : decode_parts frame (decode_header frame) c ≡ ok m

decode_checked-IsAccepted :
    (frame : Bytes) (c : BodyCodec) (max : ℤ) (m : Message)
    → header_size ≤ length frame
    → (byte_at frame 0 / 16 ≡ protocol_magic) × (bit_and (byte_at frame 0) 15 ≡ protocol_version)
    → decode_checked frame c (normalize_max_payload_size max) ≡ ok m
    → IsAccepted frame c max m
unfolding decode_checked
decode_checked-IsAccepted frame c max m long front e₀ =
    let h = decode_header frame in
    let (a, e₁) = >>-eq-ok (reject (not (h.codec == serialization c)) unexpected_codec) _ e₀ in
    let (b, e₂) = >>-eq-ok (validate_frame_kind h.kind) _ e₁ in
    let (l, e₃) = >>-eq-ok (check_lengths h) _ e₂ in
    let (f, e₄) =
      >>-eq-ok (reject (lt_int (normalize_max_payload_size max) (pos h.body_len)) payload_too_large)
        _ e₃ in
    let (w, e₅) =
      >>-eq-ok
        (reject
          (not (length frame == header_size + h.method_len + h.invocation_id_len + h.body_len))
          invalid_frame)
        _ e₄ in
    record {
      long = long;
      front = front;
      codec_read = eq_of_reject _ _ unexpected_codec a;
      kind_read = b;
      lengths = l;
      fits = reject-eq-ok _ payload_too_large f;
      whole = eq_of_reject _ _ invalid_frame w;
      parts = e₅;
    }

by_codec :
    (frame : Bytes) (c : Option BodyCodec) (max : ℤ) (m : Message)
    → header_size ≤ length frame
    → (byte_at frame 0 / 16 ≡ protocol_magic) × (bit_and (byte_at frame 0) 15 ≡ protocol_version)
    → elim c [
      | none ↦ err unsupported_codec
      | some d ↦ decode_checked frame d (normalize_max_payload_size max)
    ]
      ≡ ok m
    → (d : BodyCodec) × (c ≡ some d) × IsAccepted frame d max m
by_codec frame none max m long front e = cc
by_codec frame (some d) max m long front e =
    (d, refl, decode_checked-IsAccepted frame d max m long front e)

pub decode_frame-IsAccepted :
    (frame : Bytes) (c : Option BodyCodec) (max : ℤ) (m : Message)
    → decode_frame frame c max ≡ ok m
    → (d : BodyCodec) × (c ≡ some d) × IsAccepted frame d max m
unfolding decode_frame
decode_frame-IsAccepted frame c max m e₀ =
    let (a, e₁) = >>-eq-ok (reject (ltb (length frame) header_size) invalid_frame) _ e₀ in
    let (b, e₂) =
      >>-eq-ok (reject (not (byte_at frame 0 / 16 == protocol_magic)) invalid_frame) _ e₁ in
    let (l, e₃) =
      >>-eq-ok (reject (not (bit_and (byte_at frame 0) 0x0f == protocol_version)) invalid_frame) _
        e₂ in
    by_codec frame c max m (le_of_reject _ _ invalid_frame a)
      (eq_of_reject _ _ invalid_frame b, eq_of_reject _ _ invalid_frame l) e₃
