-- ===== src/Examples/ConnectionRuns.antt =====
-- A connection whose queue has room for two frames: a sender begins, the drain begins, the sender
-- queues its frame, and the writer writes it.
use signalg.Base.{◌≡◌, ◌↔◌, refl, true, false, length, [], ◌∷◌, Bytes, some, arith}
use signalg.Base.Int.{pos}
use signalg.Protocol.Types.{ProtocolConfig, json_codec}
use signalg.Connection.State.{Connection, new_connection, disconnect, close_context}
use signalg.Connection.Operations.{begin_send_operation, begin_handler_operation, begin_drain}
use signalg.Connection.Queue.{enqueue_locked, take_frame, write_queued_frame}
use signalg.Connection.Writer.{
  looping, writing, System, Reach, here, next, start, send_begins, frame_is_queued, drain_begins,
  writer_takes, writer_writes, is_cancelled,
}
use signalg.Connection.Balance.{IsBalanced, Step-IsBalanced, Reach-IsBalanced, start-IsBalanced}
use signalg.Connection.Drain.{IsDrained, begin_drain-closed_iff, IsDrained-forever}
use signalg.Connection.Idle.{can_become_idle}
use signalg.Connection.Order.{InOrder, Reach-InOrder}

abbrev pub json_config : ProtocolConfig
json_config = record { codec = some json_codec; max_payload_size = pos 100 }

abbrev pub new_conn : Connection
new_conn = new_connection (b'c' ∷ []) (b'u' ∷ []) true (some json_config) 2 disconnect

abbrev frame : Bytes
frame = 1 ∷ 2 ∷ []

abbrev begun : System
begun = record (start new_conn) { conn = (begin_send_operation new_conn).0; pending = 1 }

abbrev draining : System
draining = record begun { conn = (begin_drain begun.conn).0 }

abbrev queued : System
queued = record draining {
  conn = (enqueue_locked true draining.conn frame).0;
  pending = 0;
  accepted = frame ∷ [];
}

abbrev taken : System
taken = record queued { conn = record queued.conn { send_queue = [] }; writer = writing frame }

abbrev written : System
written = record taken {
  conn = (write_queued_frame true taken.conn).0;
  writer = looping;
  written = frame ∷ [];
}

begins : Reach (start new_conn) begun
unfolding new_connection begin_send_operation
begins = next here (send_begins _ refl)

drains : Reach draining written
unfolding new_connection begin_send_operation begin_drain enqueue_locked take_frame
drains =
    next
      (next (next here (frame_is_queued true frame _ (omega arith) refl))
        (writer_takes frame _ refl refl))
      (writer_writes frame refl)

begun-IsBalanced : IsBalanced begun
begun-IsBalanced =
    Reach-IsBalanced begins
      (start-IsBalanced (b'c' ∷ []) (b'u' ∷ []) true (some json_config) 2 disconnect)

draining-IsBalanced : IsBalanced draining
draining-IsBalanced = Step-IsBalanced drain_begins begun-IsBalanced

Step-IsBalanced_example : IsBalanced queued
unfolding new_connection begin_send_operation begin_drain enqueue_locked
Step-IsBalanced_example =
    Step-IsBalanced {s = draining} {t = queued} (frame_is_queued true frame _ (omega arith) refl)
      draining-IsBalanced

draining-InOrder : InOrder draining
unfolding new_connection begin_send_operation begin_drain
draining-InOrder = refl

Reach-InOrder_example : InOrder written
Reach-InOrder_example = Reach-InOrder {s = draining} {t = written} drains draining-InOrder

begin_drain-closed_iff_example :
    (written.conn.chan_closed (begin_drain begun.conn).1 ≡ true) ↔ (written.conn.active_ops ≡ 0)
begin_drain-closed_iff_example =
    begin_drain-closed_iff {s = begun} {t = written} begun-IsBalanced drains

written-IsDrained : IsDrained written
unfolding new_connection begin_send_operation begin_drain enqueue_locked write_queued_frame
written-IsDrained = record { draining = refl; idle = refl }

IsDrained-forever_example :
    IsDrained (record written { conn = close_context written.conn })
    × (length (close_context written.conn).send_queue ≡ 0)
    × (begin_send_operation (close_context written.conn) ≡ (close_context written.conn, false))
    × (begin_handler_operation (close_context written.conn) ≡ (close_context written.conn, false))
IsDrained-forever_example =
    IsDrained-forever {s = written} (Reach-IsBalanced drains draining-IsBalanced) written-IsDrained
      (next here is_cancelled)

can_become_idle_example : (t : System) × Reach queued t × (t.conn.active_ops ≡ 0)
can_become_idle_example = can_become_idle queued Step-IsBalanced_example
