-- ===== src/Connection/Operations.antt =====
-- The operations in flight of a connection, and its drain. Each function is one critical section
-- of `opsMu`.
use signalg.Base.{ℕ, ◌+◌, ◌-◌, ◌==◌, ltb, Bool, true, false, ◌&&◌, if◌then◌else◌}
use signalg.Connection.State.{Connection, close_channel, update}

-- `c.opsDone = make(chan struct{})`.
make_ops_done : Connection → Connection
make_ops_done c = record c {
  ops_done = c.chan_count;
  chan_count = c.chan_count + 1;
  chan_closed = update c.chan_closed c.chan_count false;
}

unfoldable pub begin_operation_locked : Connection → Connection
unfolding make_ops_done
begin_operation_locked c =
    let d = if c.active_ops == 0 then make_ops_done c else c in
    record d { active_ops = d.active_ops + 1 }

unfoldable pub end_operation_locked : Connection → Connection
unfolding close_channel
end_operation_locked c =
    if c.active_ops == 0
    then c
    else let d = record c { active_ops = c.active_ops - 1 } in
      if d.active_ops == 0 then close_channel d.ops_done d else d

unfoldable pub begin_handler_operation : Connection → Connection × Bool
unfolding begin_operation_locked
begin_handler_operation c =
    if c.draining
    then (c, false)
    else let d = begin_operation_locked c in
      (record d { active_handlers = d.active_handlers + 1 }, true)

unfoldable pub end_handler_operation : Connection → Connection
unfolding end_operation_locked
end_handler_operation c =
    end_operation_locked
      (if ltb 0 c.active_handlers then record c { active_handlers = c.active_handlers - 1 } else c)

unfoldable pub begin_send_operation : Connection → Connection × Bool
unfolding begin_operation_locked
begin_send_operation c =
    if c.draining && (c.active_handlers == 0) then (c, false) else (begin_operation_locked c, true)

unfoldable pub end_operation : Connection → Connection
unfolding end_operation_locked
end_operation c = end_operation_locked c

-- The channel that the caller waits for.
unfoldable pub begin_drain : Connection → Connection × ℕ
begin_drain c = (record c { draining = true }, c.ops_done)
