-- ===== src/Protocol/Pieces.antt =====
-- The header and the parts of an accepted frame, one by one.
use signalg.Base.{
  ℕ, ◌+◌, ◌*◌, ◌/◌, ◌%◌, ◌^◌, ◌≤◌, ◌<◌, ◌≡◌, true, false, length, Bytes, ◌∷◌, arith, some, IsByte,
  All, take, drop, bit_and, bit_or,
}
use signalg.Base.Bits.{low_half, join_halves}
use signalg.Base.Int.{ℤ, pos, negsuc, lt_int}
use signalg.Errors.{ok, nil_error}
use signalg.Text.{utf8_valid}
use signalg.Protocol.Types.{
  header_size, protocol_magic, protocol_version, FrameHeader, Message, BodyCodec,
  is_control_frame_kind,
}
use signalg.Protocol.Codec.{serialization, config_serialization, ensure_payload_size}
use signalg.Protocol.Validate.{validate_frame_kind}
use signalg.Protocol.Decode.{header_bytes, decode_header, decode_parts, check_lengths, byte_at}
use signalg.Protocol.Accepted.{IsNamed}
use signalg.Protocol.Layout.{layout_header}

byte_of_halves : (b : ℕ) → IsByte b → bit_or (b / 16 * 16 % 256) (bit_and (bit_and b 15) 15) ≡ b
byte_of_halves b h = rw (low_half b h) (join_halves b h)

first_byte : (b : ℕ) → IsByte b → b / 16 ≡ 5 → bit_and b 15 ≡ 1 → b ≡ 81
first_byte b h p q = omega (arith, low_half b h)

-- The header that is read off a frame is the one that its first eight bytes hold.
pub header_bytes-decode_header :
    (frame : Bytes)
    → All IsByte frame
    → header_size ≤ length frame
    → (byte_at frame 0 / 16 ≡ protocol_magic) × (bit_and (byte_at frame 0) 15 ≡ protocol_version)
    → header_bytes (decode_header frame) ≡ take header_size frame
unfolding header_bytes decode_header
header_bytes-decode_header (a ∷ b ∷ c ∷ d ∷ e ∷ f ∷ g ∷ h ∷ rest) bytes long front =
    ground (arith, byte_of_halves b, first_byte a)
header_bytes-decode_header _ bytes long front = absurd (omega arith)

pub decode_header_ranges :
    (frame : Bytes)
    → All IsByte frame
    → header_size ≤ length frame
    → let h = decode_header frame in
      (h.method_len < 256) × (h.invocation_id_len < 256) × (h.body_len < 2 ^ 32)
unfolding decode_header
decode_header_ranges (a ∷ b ∷ c ∷ d ∷ e ∷ f ∷ g ∷ h ∷ rest) bytes long = omega arith
decode_header_ranges _ bytes long = absurd (omega arith)

abbrev pub method_of : Bytes → FrameHeader → Bytes
method_of frame h = take h.method_len (drop header_size frame)

abbrev pub invocation_id_of : Bytes → FrameHeader → Bytes
invocation_id_of frame h = take h.invocation_id_len (drop (header_size + h.method_len) frame)

abbrev pub payload_of : Bytes → FrameHeader → Bytes
payload_of frame h = drop (header_size + h.method_len + h.invocation_id_len) frame

pub parts_read :
    (frame : Bytes) (h : FrameHeader) (c : BodyCodec) (m : Message)
    → decode_parts frame h c ≡ ok m
    → (utf8_valid (method_of frame h) ≡ true)
      × (utf8_valid (invocation_id_of frame h) ≡ true)
      × (m ≡ record {
        header = h;
        kind = h.kind;
        method = method_of frame h;
        invocation_id = invocation_id_of frame h;
        payload = payload_of frame h;
        codec = some c;
      })
unfolding decode_parts
parts_read frame h c m e = ground arith

pub named :
    (h : FrameHeader) (method invocation_id payload : Bytes)
    → validate_frame_kind h.kind ≡ nil_error
    → check_lengths h ≡ nil_error
    → h.method_len < 256
    → h.invocation_id_len < 256
    → length method ≡ h.method_len
    → length invocation_id ≡ h.invocation_id_len
    → length payload ≡ h.body_len
    → utf8_valid method ≡ true
    → utf8_valid invocation_id ≡ true
    → IsNamed h.kind method invocation_id × (4 ≤ h.kind → length payload ≡ 0)
unfolding validate_frame_kind check_lengths is_control_frame_kind
named h method invocation_id payload = ground arith

pub ensure-normalize :
    (n : ℕ) (max : ℤ)
    → lt_int max (pos n) ≡ false
    → n < 2 ^ 32
    → ensure_payload_size (pos n) max ≡ nil_error
unfolding ensure_payload_size
ensure-normalize n (pos k) h small = ground arith
ensure-normalize n (negsuc k) h small = ground arith

pub header_bytes-layout :
    (h : FrameHeader) (c : BodyCodec) (method invocation_id : Bytes) (n : ℕ)
    → h.codec ≡ serialization c
    → length method ≡ h.method_len
    → length invocation_id ≡ h.invocation_id_len
    → n ≡ h.body_len
    → (h.method_len < 256) × (h.invocation_id_len < 256) × (h.body_len < 2 ^ 32)
    → header_bytes (layout_header c h.kind method invocation_id n) ≡ header_bytes h
unfolding header_bytes config_serialization
header_bytes-layout h c method invocation_id n = ground arith
