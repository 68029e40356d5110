-- ===== src/Connection/State.antt =====
-- The state of one connection.
use signalg.Base.{ℕ, ◌==◌, Bool, true, false, if◌then◌else◌, List, [], Bytes, Option, none, some}
use signalg.Errors.{Error, canceled}
use signalg.Protocol.Types.{ProtocolConfig}

pub data SlowConsumerPolicy : Type 0 where
  disconnect : SlowConsumerPolicy
  -- any other uint8
  other_policy : ℕ → SlowConsumerPolicy

-- A `*Connection` that is not nil. The channels that `opsDone` has held are numbered in the order
-- in which they were made; `chan_closed` says which of them are closed.
pub record Connection : Type 0 where
  pub id : Bytes
  pub user_id : Bytes
  pub has_ws : Bool  -- `ws != nil`
  pub protocol : Option ProtocolConfig
  pub cancelled : Bool  -- `ctx.Done()` is closed
  pub ws_closed : Bool  -- `ws.CloseNow()` was called
  pub send_queue : List Bytes
  pub queue_size : ℕ  -- `cap(sendQueue)`
  pub send_closed : Bool
  pub slow_consumer_policy : SlowConsumerPolicy
  pub encoded_payload_hint : ℕ  -- int64, of lengths only
  pub active_ops : ℕ
  pub active_handlers : ℕ
  pub draining : Bool
  pub ops_done : ℕ
  pub chan_count : ℕ
  pub chan_closed : ℕ → Bool
  pub panicked : Bool  -- `close` of a closed channel

abbrev pub update : (ℕ → Bool) → ℕ → Bool → ℕ → Bool
update f k v i = if i == k then v else f i

-- `close(ch)`.
unfoldable pub close_channel : ℕ → Connection → Connection
close_channel ch c =
    if c.chan_closed ch
    then record c { panicked = true }
    else record c { chan_closed = update c.chan_closed ch true }

-- `newConnection`: one channel is made for `opsDone`, and closed.
unfoldable pub new_connection :
    Bytes → Bytes → Bool → Option ProtocolConfig → ℕ → SlowConsumerPolicy → Connection
new_connection id user_id has_ws protocol send_queue_size policy = record {
  id = id;
  user_id = user_id;
  has_ws = has_ws;
  protocol = protocol;
  cancelled = false;
  ws_closed = false;
  send_queue = [];
  queue_size = send_queue_size;
  send_closed = false;
  slow_consumer_policy = policy;
  encoded_payload_hint = 0;
  active_ops = 0;
  active_handlers = 0;
  draining = false;
  ops_done = 0;
  chan_count = 1;
  chan_closed = λ i. i == 0;
  panicked = false;
}

-- `closeContext`: the cancel function runs once; another call would change nothing.
unfoldable pub close_context : Connection → Connection
close_context c = record c { cancelled = true }

-- `closeNow`. What `ws.CloseNow()` returns is not looked at by its callers here.
unfoldable pub close_now : Connection → Connection
close_now c = if c.has_ws then record c { ws_closed = true } else c

-- `c.ctx.Err()`.
abbrev pub ctx_err : Connection → Option Error
ctx_err c = if c.cancelled then some canceled else none
