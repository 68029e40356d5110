-- ===== src/Connection/Writer.antt =====
-- One connection and the goroutines around it, as a step relation: any number of senders, the
-- handler operations, the writer, and whoever drains or cancels. A step is one critical section.
use signalg.Base.{ℕ, ◌+◌, ◌-◌, ◌<◌, ◌≡◌, Bool, true, false, List, [], ◌∷◌, ◌++◌, Bytes, some}
use signalg.Errors.{Error, err, nil_error}
use signalg.Connection.State.{Connection, close_context, close_now}
use signalg.Connection.Operations.{
  begin_handler_operation, end_handler_operation, begin_send_operation, end_operation, begin_drain,
}
use signalg.Connection.Queue.{enqueue_locked, discard_queued_frames, take_frame, write_queued_frame}
use signalg.Connection.Hint.{observe_encoded_payload_size}

-- Where `writeLoop` stands: in its loop, past it, or returned.
pub data WriterState : Type 0 where
  looping : WriterState
  writing : Bytes → WriterState
  discarding stopped : WriterState

pub record System : Type 0 where
  pub conn : Connection
  -- the senders that have begun an operation, and neither queued a frame nor ended it
  pub pending : ℕ
  pub writer : WriterState
  -- the frames that `enqueueFrame` has accepted and those that `ws.Write` has taken, oldest first
  pub accepted : List Bytes
  pub written : List Bytes

pub data Step (s : System) : System → Type 0 where
  handler_begins :
      (d : Connection) → begin_handler_operation s.conn ≡ (d, true) → Step s (record s { conn = d })
  handler_ends :
      0 < s.conn.active_handlers → Step s (record s { conn = end_handler_operation s.conn })
  send_begins :
      (d : Connection)
      → begin_send_operation s.conn ≡ (d, true)
      → Step s (record s { conn = d; pending = s.pending + 1 })
  -- the names are refused, the codec fails, the context is done, or an enqueue has failed
  send_fails :
      0 < s.pending → Step s (record s { conn = end_operation s.conn; pending = s.pending - 1 })
  body_is_observed :
      (size : ℕ) → Step s (record s { conn = observe_encoded_payload_size s.conn size })
  frame_is_queued :
      (pick : Bool) (frame : Bytes) (d : Connection)
      → 0 < s.pending
      → enqueue_locked pick s.conn frame ≡ (d, nil_error)
      → Step s
          (record s { conn = d; pending = s.pending - 1; accepted = s.accepted ++ (frame ∷ []) })
  frame_is_refused :
      (pick : Bool) (frame : Bytes) (d : Connection) (e : Error)
      → 0 < s.pending
      → enqueue_locked pick s.conn frame ≡ (d, err e)
      → Step s (record s { conn = d })
  drain_begins : Step s (record s { conn = (begin_drain s.conn).0 })
  is_cancelled : Step s (record s { conn = close_context s.conn })
  is_closed : Step s (record s { conn = close_now s.conn })
  writer_takes :
      (frame : Bytes) (d : Connection)
      → s.writer ≡ looping
      → take_frame s.conn ≡ some (frame, d)
      → Step s (record s { conn = d; writer = writing frame })
  writer_writes :
      (frame : Bytes)
      → s.writer ≡ writing frame
      → Step s (record s {
        conn = (write_queued_frame true s.conn).0;
        writer = looping;
        written = s.written ++ (frame ∷ []);
      })
  writer_fails :
      (frame : Bytes)
      → s.writer ≡ writing frame
      → Step s (record s { conn = (write_queued_frame false s.conn).0; writer = discarding })
  writer_sees_cancel :
      s.writer ≡ looping → s.conn.cancelled ≡ true → Step s (record s { writer = discarding })
  writer_discards :
      s.writer ≡ discarding
      → Step s (record s { conn = discard_queued_frames s.conn; writer = stopped })

pub data Reach (s : System) : System → Type 0 where
  here : Reach s s
  next : {t u : System} → Reach s t → Step t u → Reach s u

-- A new connection and its writer.
abbrev pub start : Connection → System
start c = record { conn = c; pending = 0; writer = looping; accepted = []; written = [] }
