-- ===== src/Connection/Order.antt =====
-- The order of the frames in `sendQueue` of connection.go and on the websocket.
use mathlib.Core.List.{append_assoc}
use signalg.Base.{◌≡◌, sym, subst, Bool, List, [], ◌∷◌, ◌++◌, Bytes, arith, some}
use signalg.Errors.{Error, err, nil_error}
use signalg.Connection.State.{Connection, close_context, close_now}
use signalg.Connection.Operations.{
  begin_handler_operation, end_handler_operation, begin_send_operation, end_operation, begin_drain,
}
use signalg.Connection.Queue.{enqueue_locked, take_frame, write_queued_frame}
use signalg.Connection.Hint.{observe_encoded_payload_size}
use signalg.Connection.Writer.{
  WriterState, looping, writing, discarding, stopped, System, Step, handler_begins, handler_ends,
  send_begins, send_fails, body_is_observed, frame_is_queued, frame_is_refused, drain_begins,
  is_cancelled, is_closed, writer_takes, writer_writes, writer_fails, writer_sees_cancel,
  writer_discards, Reach, here, next,
}

-- How the frames accepted divide into those written, the one that is being written and the queue.
-- Once the writer has left its loop, the rest of them is lost.
abbrev pub OrderAt : WriterState → List Bytes → List Bytes → List Bytes → Type 0
OrderAt looping accepted written queue = accepted ≡ written ++ queue
OrderAt (writing frame) accepted written queue = accepted ≡ written ++ (frame ∷ queue)
OrderAt discarding accepted written queue = (lost : List Bytes) × (accepted ≡ written ++ lost)
OrderAt stopped accepted written queue = (lost : List Bytes) × (accepted ≡ written ++ lost)

abbrev pub InOrder : System → Type 0
InOrder s = OrderAt s.writer s.accepted s.written s.conn.send_queue

same_queue :
    (s : System) (d : Connection)
    → d.send_queue ≡ s.conn.send_queue
    → InOrder s
    → OrderAt s.writer s.accepted s.written d.send_queue
same_queue s d e = subst (OrderAt s.writer s.accepted s.written) (sym e)

-- A frame goes to the end of the queue, or is lost behind a writer that has gone.
queued :
    (w : WriterState) (accepted written queue : List Bytes) (frame : Bytes)
    → OrderAt w accepted written queue
    → OrderAt w (accepted ++ (frame ∷ [])) written (queue ++ (frame ∷ []))
queued looping a b q f h = rw h (append_assoc b q (f ∷ []))
queued (writing g) a b q f h = rw h (append_assoc b (g ∷ q) (f ∷ []))
queued discarding a b q f (lost, h) = (lost ++ (f ∷ []), rw h (append_assoc b lost (f ∷ [])))
queued stopped a b q f (lost, h) = (lost ++ (f ∷ []), rw h (append_assoc b lost (f ∷ [])))

pub enqueued_queue :
    (pick : Bool) (c d : Connection) (frame : Bytes)
    → enqueue_locked pick c frame ≡ (d, nil_error)
    → d.send_queue ≡ c.send_queue ++ (frame ∷ [])
unfolding enqueue_locked
enqueued_queue pick c d frame h = ground arith

refused_queue :
    (pick : Bool) (c d : Connection) (frame : Bytes) (e : Error)
    → enqueue_locked pick c frame ≡ (d, err e)
    → d.send_queue ≡ c.send_queue
unfolding enqueue_locked
refused_queue pick c d frame e h = ground arith

pub taken_queue :
    (c d : Connection) (frame : Bytes)
    → take_frame c ≡ some (frame, d)
    → c.send_queue ≡ frame ∷ d.send_queue
unfolding take_frame
taken_queue c d frame h = ground arith

pub left_loop :
    (w : WriterState) (accepted written queue : List Bytes)
    → OrderAt w accepted written queue
    → (lost : List Bytes) × (accepted ≡ written ++ lost)
left_loop looping a b q h = (q, h)
left_loop (writing f) a b q h = (f ∷ q, h)
left_loop discarding a b q h = h
left_loop stopped a b q h = h

pub ended_queue : (c : Connection) → (end_operation c).send_queue ≡ c.send_queue
unfolding end_operation
ended_queue c = ground arith

wrote :
    (accepted written queue queue' : List Bytes) (frame : Bytes)
    → queue' ≡ queue
    → accepted ≡ written ++ (frame ∷ queue)
    → accepted ≡ (written ++ (frame ∷ [])) ++ queue'
wrote a b q q' f e h = rw (e, append_assoc b (f ∷ []) q) h

Step-InOrder : {s t : System} → Step s t → InOrder s → InOrder t
unfolding begin_handler_operation end_handler_operation begin_send_operation end_operation
    begin_drain close_context close_now write_queued_frame observe_encoded_payload_size
Step-InOrder {s} (handler_begins d e) v = same_queue s d (ground arith) v
Step-InOrder {s} (handler_ends h) v = same_queue s (end_handler_operation s.conn) (ground arith) v
Step-InOrder {s} (send_begins d e) v = same_queue s d (ground arith) v
Step-InOrder {s} (send_fails h) v = same_queue s (end_operation s.conn) (ground arith) v
Step-InOrder {s} (body_is_observed size) v = v
Step-InOrder {s} (frame_is_queued pick frame d h e) v =
    rw (enqueued_queue pick s.conn d frame e)
      (queued s.writer s.accepted s.written s.conn.send_queue frame v)
Step-InOrder {s} (frame_is_refused pick frame d x h e) v =
    same_queue s d (refused_queue pick s.conn d frame x e) v
Step-InOrder {s} drain_begins v = v
Step-InOrder {s} is_cancelled v = v
Step-InOrder {s} is_closed v = same_queue s (close_now s.conn) (ground arith) v
Step-InOrder {s} (writer_takes frame d w e) v = ground (arith, taken_queue s.conn d frame e)
Step-InOrder {s} (writer_writes frame w) v =
    wrote s.accepted s.written s.conn.send_queue _ frame (ended_queue s.conn)
      (subst (λ x. OrderAt x s.accepted s.written s.conn.send_queue) w v)
Step-InOrder {s} (writer_fails frame w) v = left_loop s.writer _ _ _ v
Step-InOrder {s} (writer_sees_cancel w h) v = left_loop s.writer _ _ _ v
Step-InOrder {s} (writer_discards w) v = left_loop s.writer _ _ _ v

-- Whatever steps follow a state in order, the next state is in order: the frames that the websocket
-- has taken are the first of those that were accepted, in their order, and while the writer runs,
-- the others are the frame being written and the queue.
pub Reach-InOrder : {s t : System} → Reach s t → InOrder s → InOrder t
Reach-InOrder here v = v
Reach-InOrder (next r st) v = Step-InOrder st (Reach-InOrder r v)
