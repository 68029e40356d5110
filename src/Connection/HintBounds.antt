-- ===== src/Connection/HintBounds.antt =====
-- Bounds on the size hint, `encodedPayloadHint` of connection.go.
use signalg.Base.{ℕ, ◌+◌, ◌/◌, ◌≤◌, ◌<◌, ◌≡◌, ◌⊎◌, some, arith}
use signalg.Base.Int.{pos}
use signalg.Protocol.Types.{ProtocolConfig}
use signalg.Connection.State.{Connection}
use signalg.Connection.Hint.{
  encoded_frame_buffer_size, observe_encoded_payload_size, default_encoded_payload_size_hint,
}

-- After a body has been observed, the hint holds that body and the least hint; it grows to the body
-- at once, and where it falls, it loses an eighth of its value at most.
pub observe-hint_bounds :
    (c : Connection) (size : ℕ)
    → let h = (observe_encoded_payload_size c size).encoded_payload_hint in
      (size ≤ h)
      × (default_encoded_payload_size_hint ≤ h)
      × (c.encoded_payload_hint ≤ h + c.encoded_payload_hint / 8)
      × ((h ≤ c.encoded_payload_hint) ⊎ (h ≡ size) ⊎ (h ≡ default_encoded_payload_size_hint))
unfolding observe_encoded_payload_size
observe-hint_bounds c size = ground arith

-- Under a positive payload limit, a buffer never asks for more than the prefix and the limit.
pub encoded_frame_buffer_size-le :
    (c : Connection) (prefix_len limit : ℕ) (p : ProtocolConfig)
    → c.protocol ≡ some p
    → p.max_payload_size ≡ pos limit
    → 0 < limit
    → (prefix_len ≤ encoded_frame_buffer_size c prefix_len)
      × (encoded_frame_buffer_size c prefix_len ≤ prefix_len + limit)
unfolding encoded_frame_buffer_size
encoded_frame_buffer_size-le c prefix_len limit p e f h = ground arith
