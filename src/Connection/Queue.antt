-- ===== src/Connection/Queue.antt =====
-- The send queue: `enqueueFrame` on one side, the writer goroutine on the other.
use signalg.Base.{
  ltb, Bool, true, false, ◌&&◌, ◌||◌, if◌then◌else◌, List, [], ◌∷◌, ◌++◌, length, Bytes, Option,
  none, some,
}
use signalg.Errors.{Error, Checked, err, nil_error, canceled, handler_shutting_down, slow_consumer}
use signalg.Connection.State.{
  Connection, SlowConsumerPolicy, disconnect, other_policy, close_context, close_now, ctx_err,
}
use signalg.Connection.Operations.{end_operation}

unfoldable pub closed_send_queue_error : Connection → Error
closed_send_queue_error c = elim (ctx_err c) [ some e ↦ e | none ↦ handler_shutting_down ]

close_by_policy : SlowConsumerPolicy → Connection → Connection
unfolding close_context close_now
close_by_policy disconnect c = close_now (close_context c)
close_by_policy (other_policy p) c = close_now (close_context c)

unfoldable pub disconnect_slow_consumer : Connection → Connection
unfolding close_by_policy
disconnect_slow_consumer c = close_by_policy c.slow_consumer_policy c

-- The first `select` of `enqueueFrame`. Go chooses among the cases that are ready: `pick` says
-- whether it takes the caller's context where both are done.
unfoldable pub enqueue_check : Bool → Option Error → Connection → Option Error
enqueue_check pick none c = ctx_err c
enqueue_check pick (some e) c =
    if c.cancelled then (if pick then some e else some canceled) else some e

-- The rest, under `sendMu`. `pick` says whether Go takes the send where the context is done as well.
unfoldable pub enqueue_locked : Bool → Connection → Bytes → Connection × Checked
unfolding closed_send_queue_error disconnect_slow_consumer
enqueue_locked pick c frame =
    if c.send_closed
    then (c, err (closed_send_queue_error c))
    else if ltb (length c.send_queue) c.queue_size && (pick || not_cancelled)
    then (record c { send_queue = c.send_queue ++ (frame ∷ []) }, nil_error)
    else if c.cancelled
    then (c, err canceled)
    else (disconnect_slow_consumer c, err slow_consumer)
  where
    not_cancelled : Bool
    not_cancelled = if c.cancelled then false else true

-- `enqueueFrame`; a nil context is `none`, like one that is not done.
unfoldable pub enqueue_frame : Bool → Option Error → Connection → Bytes → Connection × Checked
unfolding enqueue_check enqueue_locked
enqueue_frame pick ctx c frame = elim (enqueue_check pick ctx c) [
  | some e ↦ (c, err e)
  | none ↦ enqueue_locked pick c frame
]

-- `endOperation` for each frame of a queue that is thrown away.
unfoldable pub end_each : List Bytes → Connection → Connection
unfolding end_operation
end_each [] c = c
end_each (frame ∷ rest) c = end_each rest (end_operation c)

unfoldable pub discard_queued_frames : Connection → Connection
discard_queued_frames c =
    if c.send_closed
    then c
    else end_each c.send_queue (record c { send_closed = true; send_queue = [] })

take_from : List Bytes → Connection → Option (Bytes × Connection)
take_from [] c = none
take_from (frame ∷ rest) c = some (frame, record c { send_queue = rest })

-- `frame := <-c.sendQueue` of `writeLoop`.
unfoldable pub take_frame : Connection → Option (Bytes × Connection)
unfolding take_from
take_frame c = take_from c.send_queue c

-- `writeQueuedFrame` behind the write: `written` says whether `ws.Write` returned nil.
unfoldable pub write_queued_frame : Bool → Connection → Connection × Bool
unfolding close_context close_now end_operation
write_queued_frame written c =
    if written
    then (end_operation c, true)
    else (end_operation (close_now (close_context c)), false)
