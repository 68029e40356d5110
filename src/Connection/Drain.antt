-- ===== src/Connection/Drain.antt =====
-- `beginDrain` of connection.go: the channel that it returns, and a drained connection.
use signalg.Base.{ℕ, ◌≡◌, ◌↔◌, refl, true, false, List, [], ◌∷◌, length, Bytes, arith}
use signalg.Connection.State.{Connection, close_context, close_now}
use signalg.Connection.Operations.{
  begin_handler_operation, end_handler_operation, begin_send_operation, end_operation, begin_drain,
}
use signalg.Connection.Queue.{
  enqueue_locked, discard_queued_frames, take_frame, write_queued_frame, end_each,
}
use signalg.Connection.Hint.{observe_encoded_payload_size}
use signalg.Connection.Writer.{
  System, Step, handler_begins, handler_ends, send_begins, send_fails, body_is_observed,
  frame_is_queued, frame_is_refused, drain_begins, is_cancelled, is_closed, writer_takes,
  writer_writes, writer_fails, writer_sees_cancel, writer_discards, Reach, here, next,
}
use signalg.Connection.Balance.{IsBalanced, Step-IsBalanced, Reach-IsBalanced, discard_count}

-- The connection drains, and `ch` is the channel that its operations will close.
pub record IsDraining (ch : ℕ) (s : System) : Type 0 where
  pub draining : s.conn.draining ≡ true
  pub waits_for : s.conn.ops_done ≡ ch

end_each_keeps :
    (fs : List Bytes) (c : Connection)
    → ((end_each fs c).draining ≡ c.draining) × ((end_each fs c).ops_done ≡ c.ops_done)
unfolding end_each end_operation
end_each_keeps [] c = ground arith
end_each_keeps (f ∷ fs) c = ground (arith, end_each_keeps fs (end_operation c))

discard_keeps :
    (c : Connection)
    → ((discard_queued_frames c).draining ≡ c.draining)
      × ((discard_queued_frames c).ops_done ≡ c.ops_done)
unfolding discard_queued_frames
discard_keeps c =
    ground (arith, end_each_keeps c.send_queue (record c { send_closed = true; send_queue = [] }))

Step-IsDraining :
    {s t : System} (ch : ℕ) → Step s t → IsBalanced s → IsDraining ch s → IsDraining ch t
unfolding begin_handler_operation end_handler_operation begin_send_operation end_operation
    begin_drain close_context close_now enqueue_locked take_frame write_queued_frame
    observe_encoded_payload_size
Step-IsDraining {s} ch (handler_begins d e) v w = ground arith
Step-IsDraining {s} ch (handler_ends h) v w = ground arith
Step-IsDraining {s} ch (send_begins d e) v w = ground arith
Step-IsDraining {s} ch (send_fails h) v w = ground arith
Step-IsDraining {s} ch (body_is_observed size) v w = ground arith
Step-IsDraining {s} ch (frame_is_queued pick frame d h e) v w = ground arith
Step-IsDraining {s} ch (frame_is_refused pick frame d x h e) v w = ground arith
Step-IsDraining {s} ch drain_begins v w = ground arith
Step-IsDraining {s} ch is_cancelled v w = ground arith
Step-IsDraining {s} ch is_closed v w = ground arith
Step-IsDraining {s} ch (writer_takes frame d x e) v w = ground arith
Step-IsDraining {s} ch (writer_writes frame x) v w = ground arith
Step-IsDraining {s} ch (writer_fails frame x) v w = ground arith
Step-IsDraining {s} ch (writer_sees_cancel x h) v w = ground arith
Step-IsDraining {s} ch (writer_discards x) v w = ground (arith, discard_keeps s.conn)

Reach-IsDraining :
    {s t : System} (ch : ℕ) → Reach s t → IsBalanced s → IsDraining ch s → IsDraining ch t
Reach-IsDraining ch here v w = w
Reach-IsDraining ch (next r st) v w =
    Step-IsDraining ch st (Reach-IsBalanced r v) (Reach-IsDraining ch r v w)

-- Whatever happens after `beginDrain`, of a connection whose books are kept, the channel that it
-- returned is closed exactly when no operation of the connection is in flight.
pub begin_drain-closed_iff :
    {s t : System}
    → IsBalanced s
    → Reach (record s { conn = (begin_drain s.conn).0 }) t
    → (t.conn.chan_closed (begin_drain s.conn).1 ≡ true) ↔ (t.conn.active_ops ≡ 0)
unfolding begin_drain
begin_drain-closed_iff {s} {t} v r =
    let w =
      Reach-IsDraining s.conn.ops_done r (Step-IsBalanced drain_begins v)
        (record { draining = refl; waits_for = refl }) in
    let b = Reach-IsBalanced r (Step-IsBalanced drain_begins v) in ground arith

-- Nothing is in flight, and nothing can begin.
pub record IsDrained (s : System) : Type 0 where
  pub draining : s.conn.draining ≡ true
  pub idle : s.conn.active_ops ≡ 0

Step-IsDrained : {s t : System} → Step s t → IsBalanced s → IsDrained s → IsDrained t
unfolding begin_handler_operation end_handler_operation begin_send_operation end_operation
    begin_drain close_context close_now enqueue_locked take_frame write_queued_frame
    observe_encoded_payload_size
Step-IsDrained {s} (handler_begins d e) v w = ground arith
Step-IsDrained {s} (handler_ends h) v w = ground arith
Step-IsDrained {s} (send_begins d e) v w = ground arith
Step-IsDrained {s} (send_fails h) v w = ground arith
Step-IsDrained {s} (body_is_observed size) v w = ground arith
Step-IsDrained {s} (frame_is_queued pick frame d h e) v w = ground arith
Step-IsDrained {s} (frame_is_refused pick frame d x h e) v w = ground arith
Step-IsDrained {s} drain_begins v w = ground arith
Step-IsDrained {s} is_cancelled v w = ground arith
Step-IsDrained {s} is_closed v w = ground arith
Step-IsDrained {s} (writer_takes frame d x e) v w = ground arith
Step-IsDrained {s} (writer_writes frame x) v w = ground arith
Step-IsDrained {s} (writer_fails frame x) v w = ground arith
Step-IsDrained {s} (writer_sees_cancel x h) v w = ground arith
Step-IsDrained {s} (writer_discards x) v w =
    ground (arith, discard_keeps s.conn, discard_count s.conn)

drained_balance :
    (s : System)
    → IsBalanced s
    → IsDrained s
    → (s.conn.active_handlers ≡ 0) × (length s.conn.send_queue ≡ 0)
drained_balance s v w = omega arith

-- A drained connection whose books are kept stays drained whatever happens: nothing comes into
-- flight again, its queue stays empty, and it refuses every send and every handler operation
-- without a change.
pub IsDrained-forever :
    {s t : System}
    → IsBalanced s
    → IsDrained s
    → Reach s t
    → IsDrained t
      × (length t.conn.send_queue ≡ 0)
      × (begin_send_operation t.conn ≡ (t.conn, false))
      × (begin_handler_operation t.conn ≡ (t.conn, false))
unfolding begin_send_operation begin_handler_operation
IsDrained-forever {s} v w here =
    let b = drained_balance s v w in (w, b.1, ground arith, ground arith)
IsDrained-forever {s} {t} v w (next r st) =
    let u = Reach-IsBalanced r v in
    let x = Step-IsDrained st u (IsDrained-forever v w r).0 in
    let b = drained_balance t (Step-IsBalanced st u) x in (x, b.1, ground arith, ground arith)
