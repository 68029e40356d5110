-- ===== src/Connected.antt =====
-- connected.go: the message that a connection gets first.
use signalg.Base.{ℕ, ◌+◌, ◌-◌, ◌*◌, ◌/◌, ◌^◌, ◌==◌, ◌≡◌, ◌≤◌, ◌<◌, if◌then◌else◌, Bytes, arith}
use signalg.Base.Int.{ℤ, pos, negsuc, lt_int}
use signalg.Protocol.Types.{serialization_protobuf}

pub record ConnectedConfig : Type 0 where
  pub ping_interval_milliseconds : ℤ

pub record ConnectedPayload : Type 0 where
  pub connection_id : Bytes
  pub user_id : Bytes
  pub remote_addr : Bytes
  pub config : ConnectedConfig

-- `Milliseconds` of a duration in nanoseconds: the quotient, cut towards 0.
abbrev milliseconds : ℤ → ℤ
milliseconds (pos n) = pos (n / 10 ^ 6)
milliseconds (negsuc n) = let q = (n + 1) / 10 ^ 6 in if q == 0 then pos 0 else negsuc (q - 1)

-- The arguments are the fields that it reads of the connection, and the ping interval.
unfoldable pub new_connected_payload : Bytes → Bytes → Bytes → ℤ → ConnectedPayload
new_connected_payload id user_id remote_addr ping_interval =
    let interval = if lt_int ping_interval (pos 0) then pos 0 else ping_interval in
    record {
      connection_id = id;
      user_id = user_id;
      remote_addr = remote_addr;
      config = record { ping_interval_milliseconds = milliseconds interval };
    }

-- The body is the payload itself, or the protobuf message with the same fields.
pub data ConnectedBody : Type 0 where
  plain : ConnectedPayload → ConnectedBody
  protobuf : (connection_id user_id remote_addr : Bytes) (ping_interval_ms : ℤ) → ConnectedBody

-- It never returns an error.
unfoldable pub connected_body : ConnectedPayload → ℕ → ConnectedBody
connected_body payload serialization =
    if serialization == serialization_protobuf
    then protobuf payload.connection_id payload.user_id payload.remote_addr
        payload.config.ping_interval_milliseconds
    else plain payload

-- The interval in a body, in milliseconds.
abbrev pub interval_in : ConnectedBody → ℤ
interval_in (plain p) = p.config.ping_interval_milliseconds
interval_in (protobuf id user_id remote_addr ms) = ms

-- A duration in nanoseconds, or 0 if it is negative.
abbrev pub nanoseconds : ℤ → ℕ
nanoseconds (pos n) = n
nanoseconds (negsuc n) = 0

-- In whatever serialization, the connected message tells the client an interval that is not
-- negative and is the configured one cut to whole milliseconds: less than a millisecond is lost,
-- and of a negative interval 0 is left.
pub connected_body-bounds :
    (id user_id remote_addr : Bytes) (ping_interval : ℤ) (serialization : ℕ)
    → (ms : ℕ) × (interval_in (
          connected_body (new_connected_payload id user_id remote_addr ping_interval) serialization)
        ≡ pos ms)
      × (ms * 10 ^ 6 ≤ nanoseconds ping_interval)
      × (nanoseconds ping_interval < ms * 10 ^ 6 + 10 ^ 6)
unfolding new_connected_payload connected_body
connected_body-bounds id user_id remote_addr (pos n) serialization =
    (n / 10 ^ 6, ground arith, omega arith, omega arith)
connected_body-bounds id user_id remote_addr (negsuc n) serialization =
    (0, ground arith, omega arith, omega arith)
