-- ===== src/Handler/Config.antt =====
-- The numbers of a configuration that `NewHandler` of server.go puts in order.
use signalg.Base.{
  ℕ, zero, suc, ◌+◌, ◌-◌, ◌*◌, ◌%◌, ◌^◌, ◌≡◌, ltb, ◌&&◌, if◌then◌else◌, Bool, true, false, arith,
}
use signalg.Base.Int.{ℤ, pos, negsuc, lt_int}
use signalg.Protocol.Types.{
  header_size, max_method_name_len, max_invocation_id_len, normalize_max_payload_size,
}

-- The sum or product of an int64 that is not negative, wrapped around.
abbrev pub wrap_int64 : ℕ → ℤ
wrap_int64 n = let m = n % 2 ^ 64 in if ltb m (2 ^ 63) then pos m else negsuc (2 ^ 64 - 1 - m)

abbrev to_ℕ : ℤ → ℕ
to_ℕ (pos n) = n
to_ℕ (negsuc n) = 0

-- Durations are in nanoseconds.
abbrev pub default_ping_interval : ℤ
default_ping_interval = pos (15 * 10 ^ 9)

abbrev pub default_write_timeout : ℤ
default_write_timeout = pos (5 * 10 ^ 9)

abbrev pub default_send_queue_size : ℤ
default_send_queue_size = pos 256

unfoldable pub normalize_ping_interval : ℤ → ℤ
normalize_ping_interval d = if lt_int d (pos 0) then default_ping_interval else d

unfoldable pub normalize_ping_timeout : ℤ → ℤ → ℤ
normalize_ping_timeout timeout interval =
    if lt_int (pos 0) interval
    then (if lt_int (pos 0) timeout then timeout else wrap_int64 (5 * to_ℕ interval))
    else pos 0

unfoldable pub normalize_send_queue_size : ℤ → ℤ
normalize_send_queue_size n = if lt_int (pos 0) n then n else default_send_queue_size

unfoldable pub normalize_write_timeout : ℤ → ℤ
normalize_write_timeout d = if lt_int (pos 0) d then d else default_write_timeout

-- A read limit of 0 is replaced by the length of the longest frame.
normalize_read_limit : ℤ → ℤ → ℤ
normalize_read_limit (pos zero) max_payload_size =
    wrap_int64 (header_size + max_method_name_len + max_invocation_id_len + to_ℕ max_payload_size)
normalize_read_limit (pos (suc n)) max_payload_size = pos (suc n)
normalize_read_limit (negsuc n) max_payload_size = negsuc n

-- The numbers of `Config` that are normalised, and the payload limit.
pub record Config : Type 0 where
  pub max_payload_size : ℤ
  pub read_limit : ℤ
  pub ping_interval : ℤ
  pub ping_timeout : ℤ
  pub send_queue_size : ℤ
  pub write_timeout : ℤ

-- The assignments of `NewHandler` to its configuration; the protocol has the normalised limit.
unfoldable pub normalize_config : Config → Config
unfolding normalize_ping_interval normalize_ping_timeout normalize_send_queue_size
    normalize_write_timeout normalize_read_limit
normalize_config cfg =
    let interval = normalize_ping_interval cfg.ping_interval in
    record cfg {
      read_limit =
          normalize_read_limit cfg.read_limit (normalize_max_payload_size cfg.max_payload_size);
      ping_interval = interval;
      ping_timeout = normalize_ping_timeout cfg.ping_timeout interval;
      send_queue_size = normalize_send_queue_size cfg.send_queue_size;
      write_timeout = normalize_write_timeout cfg.write_timeout;
    }

-- `heartbeatEnabled` of a handler that is not nil.
unfoldable pub heartbeat_enabled : Config → Bool
heartbeat_enabled cfg = lt_int (pos 0) cfg.ping_interval && lt_int (pos 0) cfg.ping_timeout

-- A configuration that a handler can run with.
pub record IsReady (cfg : Config) : Type 0 where
  pub queue : lt_int (pos 0) cfg.send_queue_size ≡ true
  pub write : lt_int (pos 0) cfg.write_timeout ≡ true
  pub interval : lt_int cfg.ping_interval (pos 0) ≡ false
  pub heartbeat : heartbeat_enabled cfg ≡ lt_int (pos 0) cfg.ping_interval

-- Whatever the configuration, if its ping interval is less than 2^60 nanoseconds: `NewHandler`
-- makes a send queue with room and a positive write timeout of it, its ping interval is not
-- negative, and the heartbeat runs exactly if the interval is positive.
pub normalize_config-IsReady :
    (cfg : Config) → lt_int cfg.ping_interval (pos (2 ^ 60)) ≡ true → IsReady (normalize_config cfg)
unfolding normalize_config normalize_ping_interval normalize_ping_timeout normalize_send_queue_size
    normalize_write_timeout heartbeat_enabled
normalize_config-IsReady cfg h = ground arith
