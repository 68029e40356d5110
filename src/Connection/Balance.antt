-- ===== src/Connection/Balance.antt =====
-- The books of a connection (connection.go, `activeOps` and `opsDone`): what they are at each step.
use signalg.Base.{
  ℕ, ◌+◌, ◌-◌, ◌≤◌, ◌<◌, ◌≡◌, Bool, true, false, List, [], ◌∷◌, length, length-append, Bytes,
  Option, arith,
}
use signalg.Protocol.Types.{ProtocolConfig}
use signalg.Connection.State.{
  Connection, SlowConsumerPolicy, new_connection, close_context, close_now,
}
use signalg.Connection.Operations.{
  begin_handler_operation, end_handler_operation, begin_send_operation, end_operation, begin_drain,
  end_operation_locked, begin_operation_locked,
}
use signalg.Connection.Queue.{
  enqueue_locked, discard_queued_frames, take_frame, write_queued_frame, end_each,
}
use signalg.Connection.Hint.{observe_encoded_payload_size}
use signalg.Connection.Writer.{
  WriterState, looping, writing, discarding, stopped, System, Step, handler_begins, handler_ends,
  send_begins, send_fails, body_is_observed, frame_is_queued, frame_is_refused, drain_begins,
  is_cancelled, is_closed, writer_takes, writer_writes, writer_fails, writer_sees_cancel,
  writer_discards, Reach, here, next, start,
}

-- `opsDone` is closed when nothing is in flight and open otherwise, every channel before it is
-- closed, and no `close` has met a closed channel.
pub record IsOpen (c : Connection) : Type 0 where
  pub quiet : c.panicked ≡ false
  pub newest : c.ops_done + 1 ≡ c.chan_count
  pub idle_closed : c.active_ops ≡ 0 → c.chan_closed c.ops_done ≡ true
  pub busy_open : 0 < c.active_ops → c.chan_closed c.ops_done ≡ false

begin_operation_locked-IsOpen : (c : Connection) → IsOpen c → IsOpen (begin_operation_locked c)
unfolding begin_operation_locked
begin_operation_locked-IsOpen c v = ground arith

end_operation_locked-IsOpen : (c : Connection) → IsOpen c → IsOpen (end_operation_locked c)
unfolding end_operation_locked
end_operation_locked-IsOpen c v = ground arith

abbrev pub in_flight : WriterState → ℕ
in_flight looping = 0
in_flight (writing frame) = 1
in_flight discarding = 0
in_flight stopped = 0

-- Each operation in flight belongs to a handler, a sender, a queued frame or the frame being written.
pub record IsBalanced (s : System) : Type 0 where
  pub channel : IsOpen s.conn
  pub counted :
      s.conn.active_ops
      ≡ s.conn.active_handlers + s.pending + length s.conn.send_queue + in_flight s.writer
  pub bounded : length s.conn.send_queue ≤ s.conn.queue_size
  pub closed_empty : s.conn.send_closed ≡ true → length s.conn.send_queue ≡ 0
  pub stopped_closed : s.writer ≡ stopped → s.conn.send_closed ≡ true

-- Ending an operation for each frame takes the count down by their number, and nothing else.
end_each-IsOpen : (fs : List Bytes) (c : Connection) → IsOpen c → IsOpen (end_each fs c)
unfolding end_each end_operation
end_each-IsOpen [] c v = v
end_each-IsOpen (f ∷ fs) c v = end_each-IsOpen fs _ (end_operation_locked-IsOpen c v)

abbrev SameBut : Connection → Connection → Type 0
SameBut c d =
    (d.active_handlers ≡ c.active_handlers)
    × (d.send_queue ≡ c.send_queue)
    × (d.queue_size ≡ c.queue_size)
    × (d.send_closed ≡ c.send_closed)

end_operation_count :
    (c : Connection)
    → ((end_operation_locked c).active_ops ≡ c.active_ops - 1) × SameBut c (end_operation_locked c)
unfolding end_operation_locked
end_operation_count c = ground arith

end_each_count :
    (fs : List Bytes) (c : Connection)
    → ((end_each fs c).active_ops ≡ c.active_ops - length fs) × SameBut c (end_each fs c)
unfolding end_each end_operation
end_each_count [] c = ground arith
end_each_count (f ∷ fs) c =
    ground (arith, end_each_count fs (end_operation_locked c), end_operation_count c)

begin_operation_count :
    (c : Connection)
    → ((begin_operation_locked c).active_ops ≡ c.active_ops + 1)
      × SameBut c (begin_operation_locked c)
unfolding begin_operation_locked
begin_operation_count c = ground arith

discard-IsBalanced :
    (s : System)
    → s.writer ≡ discarding
    → IsBalanced s
    → IsBalanced (record s { conn = discard_queued_frames s.conn; writer = stopped })
unfolding discard_queued_frames
discard-IsBalanced s w v =
    let emptied = record s.conn { send_closed = true; send_queue = [] } in
    let still : IsOpen emptied = record {
      quiet = v.channel.quiet;
      newest = v.channel.newest;
      idle_closed = v.channel.idle_closed;
      busy_open = v.channel.busy_open;
    } in
    ground (
      arith,
      end_each-IsOpen s.conn.send_queue emptied still,
      end_each_count s.conn.send_queue emptied,
    )

pub discard_count : (c : Connection) → (discard_queued_frames c).active_ops ≤ c.active_ops
unfolding discard_queued_frames
discard_count c =
    ground (arith, end_each_count c.send_queue (record c { send_closed = true; send_queue = [] }))

pub discard_handlers :
    (c : Connection) → (discard_queued_frames c).active_handlers ≡ c.active_handlers
unfolding discard_queued_frames
discard_handlers c =
    ground (arith, end_each_count c.send_queue (record c { send_closed = true; send_queue = [] }))

-- Every step of a connection and its goroutines keeps the books: the operations in flight are those
-- of the handlers, the senders, the queued frames and the frame being written; `opsDone` is closed
-- exactly when there are none, and never closed twice; the queue stays within its size; and it is
-- empty while the send side is closed, as it is once the writer has stopped.
pub Step-IsBalanced : {s t : System} → Step s t → IsBalanced s → IsBalanced t
unfolding begin_handler_operation end_handler_operation begin_send_operation end_operation
    begin_drain close_context close_now enqueue_locked take_frame write_queued_frame
    observe_encoded_payload_size
Step-IsBalanced {s} (handler_begins d e) v = ground arith
Step-IsBalanced {s} (handler_ends h) v = ground arith
Step-IsBalanced {s} (send_begins d e) v = ground arith
Step-IsBalanced {s} (send_fails h) v = ground arith
Step-IsBalanced {s} (body_is_observed size) v = ground arith
Step-IsBalanced {s} (frame_is_queued pick frame d h e) v =
    ground (arith, length-append s.conn.send_queue (frame ∷ []))
Step-IsBalanced {s} (frame_is_refused pick frame d x h e) v = ground arith
Step-IsBalanced {s} drain_begins v = ground arith
Step-IsBalanced {s} is_cancelled v = ground arith
Step-IsBalanced {s} is_closed v = ground arith
Step-IsBalanced {s} (writer_takes frame d w e) v = ground arith
Step-IsBalanced {s} (writer_writes frame w) v = ground arith
Step-IsBalanced {s} (writer_fails frame w) v = ground arith
Step-IsBalanced {s} (writer_sees_cancel w h) v = ground arith
Step-IsBalanced {s} (writer_discards w) v = discard-IsBalanced s w v

pub Reach-IsBalanced : {s t : System} → Reach s t → IsBalanced s → IsBalanced t
Reach-IsBalanced here v = v
Reach-IsBalanced (next r st) v = Step-IsBalanced st (Reach-IsBalanced r v)

-- A new connection is balanced.
pub start-IsBalanced :
    (id user_id : Bytes) (has_ws : Bool) (p : Option ProtocolConfig) (size : ℕ)
    (policy : SlowConsumerPolicy)
    → IsBalanced (start (new_connection id user_id has_ws p size policy))
unfolding new_connection
start-IsBalanced id user_id has_ws p size policy = ground arith
