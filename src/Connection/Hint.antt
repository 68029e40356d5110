-- ===== src/Connection/Hint.antt =====
-- The size hint for frame buffers: `encodedFrameBufferSize` and `observeEncodedPayloadSize`.
use signalg.Base.{ℕ, ◌+◌, ◌-◌, ◌/◌, ltb, ◌&&◌, if◌then◌else◌, Option, none, some}
use signalg.Base.Int.{ℤ, pos, negsuc, lt_int}
use signalg.Protocol.Types.{ProtocolConfig}
use signalg.Connection.State.{Connection}

abbrev pub default_encoded_payload_size_hint : ℕ
default_encoded_payload_size_hint = 128

abbrev pub encoded_payload_headroom_divisor : ℕ
encoded_payload_headroom_divisor = 8

abbrev pub encoded_payload_decay_divisor : ℕ
encoded_payload_decay_divisor = 8

abbrev to_ℕ : ℤ → ℕ
to_ℕ (pos n) = n
to_ℕ (negsuc n) = 0

-- `maxPayloadSize > 0 && bodyHint > maxPayloadSize` of the connection's protocol.
capped_hint : Option ProtocolConfig → ℕ → ℕ
capped_hint none hint = hint
capped_hint (some p) hint =
    if lt_int (pos 0) p.max_payload_size && lt_int p.max_payload_size (pos hint)
    then to_ℕ p.max_payload_size
    else hint

unfoldable pub encoded_frame_buffer_size : Connection → ℕ → ℕ
unfolding capped_hint
encoded_frame_buffer_size c prefix_len =
    let start =
      if ltb 0 c.encoded_payload_hint
      then c.encoded_payload_hint
      else default_encoded_payload_size_hint in
    let hint = start + start / encoded_payload_headroom_divisor in
    prefix_len + capped_hint c.protocol hint

-- The value that the compare-and-swap stores over `current`.
unfoldable pub next_hint : ℕ → ℕ → ℕ
next_hint current sample =
    if ltb 0 current && ltb sample current
    then current - (current - sample) / encoded_payload_decay_divisor
    else sample

unfoldable pub observe_encoded_payload_size : Connection → ℕ → Connection
unfolding next_hint
observe_encoded_payload_size c size =
    let sample =
      if ltb size default_encoded_payload_size_hint
      then default_encoded_payload_size_hint
      else size in
    record c { encoded_payload_hint = next_hint c.encoded_payload_hint sample }
