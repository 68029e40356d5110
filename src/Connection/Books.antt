-- ===== src/Connection/Books.antt =====
-- The books of a connection across a sender run to its end.
use signalg.Base.{
  ℕ, ◌+◌, ◌≤◌, ◌≡◌, refl, false, [], ◌∷◌, length, length-append, Bytes, arith, Option, inl, inr,
}
use signalg.Errors.{Result, ok, err, Checked, Result-cases}
use signalg.Protocol.Types.{
  frame_kind_message, frame_kind_completion, frame_kind_error, frame_kind_ping, frame_kind_pong,
}
use signalg.Protocol.Codec.{Encoders}
use signalg.Protocol.Frame.{raw_protocol_frame, encoded_protocol_frame}
use signalg.Connection.State.{Connection}
use signalg.Connection.Operations.{begin_send_operation, end_operation, begin_operation_locked}
use signalg.Connection.Queue.{enqueue_frame}
use signalg.Connection.Hint.{observe_encoded_payload_size}
use signalg.Connection.Send.{
  error_text, Call, write_raw_protocol_frame, guarded, enqueue_encoded,
  write_encoded_protocol_frame, send_raw, complete_error, ping, pong, send, complete,
}
use signalg.Connection.Senders.{
  Sender, sends, sends_raw, completes, completes_error, pings, run_sender, pongs,
}
use signalg.Connection.Writer.{System}
use signalg.Connection.Balance.{IsBalanced}

-- A write leaves the operations alone. It queues one frame if it succeeds, and none if it fails.
abbrev Counted : Connection → Connection × Checked → Type 0
Counted b (d, ok u) =
    (length d.send_queue ≡ length b.send_queue + 1)
    × (length d.send_queue ≤ d.queue_size)
    × (b.send_closed ≡ false)
Counted b (d, err e) = d.send_queue ≡ b.send_queue

abbrev Keeps : Connection → Connection × Checked → Type 0
Keeps b r =
    (r.0.active_ops ≡ b.active_ops)
    × (r.0.active_handlers ≡ b.active_handlers)
    × (r.0.ops_done ≡ b.ops_done)
    × (r.0.chan_count ≡ b.chan_count)
    × (r.0.chan_closed ≡ b.chan_closed)
    × (r.0.panicked ≡ b.panicked)
    × (r.0.queue_size ≡ b.queue_size)
    × (r.0.send_closed ≡ b.send_closed)
    × Counted b r

enqueue-Keeps :
    (call : Call) (frame : Bytes) (b : Connection)
    → Keeps b (enqueue_frame call.pick call.ctx b frame)
unfolding enqueue_frame
enqueue-Keeps call frame b = ground (arith, length-append b.send_queue (frame ∷ []))

raw-Keeps :
    (call : Call) (kind : ℕ) (method invocation_id payload : Bytes) (b : Connection)
    → Keeps b (write_raw_protocol_frame call kind method invocation_id payload b)
unfolding write_raw_protocol_frame
raw-Keeps call kind method invocation_id payload b =
    elim (Result-cases (raw_protocol_frame b.protocol kind method invocation_id payload)) [
      | inl (frame, e) ↦ rw (e, write_raw_protocol_frame) (enqueue-Keeps call frame b)
      | inr (x, e) ↦
          rw (e, write_raw_protocol_frame) (refl, refl, refl, refl, refl, refl, refl, refl, refl)
    ]

encoded-Keeps :
    (call : Call) (r : Result (ℕ × Result Bytes)) (b : Connection)
    → Keeps b (enqueue_encoded call r b)
unfolding enqueue_encoded observe_encoded_payload_size
encoded-Keeps call (err e) b = (refl, refl, refl, refl, refl, refl, refl, refl, refl)
encoded-Keeps call (ok (n, err e)) b = (refl, refl, refl, refl, refl, refl, refl, refl, refl)
encoded-Keeps call (ok (n, ok frame)) b =
    enqueue-Keeps call frame (observe_encoded_payload_size b n)

guarded-IsBalanced :
    (write : Connection → Connection × Checked) (s : System)
    → ((b : Connection) → Keeps b (write b))
    → IsBalanced s
    → IsBalanced (record s { conn = (guarded write s.conn).0 })
unfolding guarded begin_send_operation end_operation
guarded-IsBalanced write s keeps v = ground (arith, keeps (begin_operation_locked s.conn))

module _ (lib : Encoders) (call : Call) (s : System) where
  encodes :
      (kind : ℕ) (method invocation_id : Bytes) (body : Option lib.Value)
      → IsBalanced s
      → IsBalanced (record s {
        conn =
            (guarded
              (write_encoded_protocol_frame lib call kind method invocation_id body)
              s.conn).0;
      })
  unfolding write_encoded_protocol_frame
  encodes kind method invocation_id body =
      guarded-IsBalanced (write_encoded_protocol_frame lib call kind method invocation_id body) s
        (λ b.
          encoded-Keeps call (encoded_protocol_frame lib b.protocol kind method invocation_id body)
            b)

  raw :
      (kind : ℕ) (method invocation_id payload : Bytes)
      → IsBalanced s
      → IsBalanced (record s {
        conn = (guarded (write_raw_protocol_frame call kind method invocation_id payload) s.conn).0;
      })
  raw kind method invocation_id payload =
      guarded-IsBalanced (write_raw_protocol_frame call kind method invocation_id payload) s
        (raw-Keeps call kind method invocation_id payload)

  -- Each of the six senders, run to its end in any state whose books are kept, keeps them: an
  -- operation that it began is ended if it fails, and belongs to the frame that it has queued if it
  -- succeeds.
  pub sender-IsBalanced :
      (x : Sender lib)
      → IsBalanced s
      → IsBalanced (record s { conn = (run_sender lib call x s.conn).0 })
  unfolding send send_raw complete complete_error ping pong
  sender-IsBalanced (sends method body) = encodes frame_kind_message method [] body
  sender-IsBalanced (sends_raw method payload) = raw frame_kind_message method [] payload
  sender-IsBalanced (completes id body) = encodes frame_kind_completion [] id body
  sender-IsBalanced (completes_error id text) = raw frame_kind_error [] id (error_text text)
  sender-IsBalanced pings = raw frame_kind_ping [] [] []
  sender-IsBalanced pongs = raw frame_kind_pong [] [] []
