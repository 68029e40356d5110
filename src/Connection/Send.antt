-- ===== src/Connection/Send.antt =====
-- The six senders. A nil receiver takes the same branch as one with no websocket.
use signalg.Base.{ℕ, Bool, if◌then◌else◌, [], ◌∷◌, Bytes, Option, none, some}
use signalg.Errors.{
  Error, Result, ok, err, Checked, nil_error, nil_websocket, unsupported_codec,
  handler_shutting_down,
}
use signalg.Protocol.Types.{
  frame_kind_message, frame_kind_completion, frame_kind_error, frame_kind_ping, frame_kind_pong,
}
use signalg.Protocol.Codec.{Encoders}
use signalg.Protocol.Frame.{raw_protocol_frame, encoded_protocol_frame}
use signalg.Connection.State.{Connection}
use signalg.Connection.Operations.{begin_send_operation, end_operation}
use signalg.Connection.Queue.{enqueue_frame}
use signalg.Connection.Hint.{observe_encoded_payload_size}

-- What one call of a sender sees: how Go chooses among ready cases, and whether the caller's
-- context is done.
pub record Call : Type 0 where
  pub pick : Bool
  pub ctx : Option Error

-- `writeRawProtocolFrame`.
unfoldable pub write_raw_protocol_frame :
    Call → ℕ → Bytes → Bytes → Bytes → Connection → Connection × Checked
write_raw_protocol_frame call kind method invocation_id payload c =
    elim (raw_protocol_frame c.protocol kind method invocation_id payload) [
      | err e ↦ (c, err e)
      | ok frame ↦ enqueue_frame call.pick call.ctx c frame
    ]

-- A write that fails ends the operation.
end_if_failed : Connection × Checked → Connection × Checked
end_if_failed (c, ok u) = (c, nil_error)
end_if_failed (c, err e) = (end_operation c, err e)

-- The guards that all senders begin with, then the write.
unfoldable pub guarded : (Connection → Connection × Checked) → Connection → Connection × Checked
unfolding end_if_failed
guarded write c =
    if c.has_ws
    then elim c.protocol [
      | none ↦ (c, err unsupported_codec)
      | some p ↦
          (let (d, begun) = begin_send_operation c in
            if begun then end_if_failed (write d) else (d, err handler_shutting_down))
    ]
    else (c, err nil_websocket)

unfoldable pub send_raw : Call → Bytes → Bytes → Connection → Connection × Checked
unfolding guarded write_raw_protocol_frame
send_raw call method payload =
    guarded (write_raw_protocol_frame call frame_kind_message method [] payload)

-- The text of the error to report, where `none` is a nil error: "signalg: invocation failed".
abbrev pub error_text : Option Bytes → Bytes
error_text none =
    b's' ∷ b'i' ∷ b'g' ∷ b'n' ∷ b'a' ∷ b'l' ∷ b'g' ∷ b':' ∷ 0x20 ∷ b'i' ∷ b'n' ∷ b'v' ∷ b'o' ∷ b'c'
    ∷ b'a' ∷ b't' ∷ b'i' ∷ b'o' ∷ b'n' ∷ 0x20 ∷ b'f' ∷ b'a' ∷ b'i' ∷ b'l' ∷ b'e' ∷ b'd' ∷ []
error_text (some text) = text

unfoldable pub complete_error : Call → Bytes → Option Bytes → Connection → Connection × Checked
unfolding guarded write_raw_protocol_frame
complete_error call invocation_id error =
    guarded (write_raw_protocol_frame call frame_kind_error [] invocation_id (error_text error))

unfoldable pub ping : Call → Connection → Connection × Checked
unfolding guarded write_raw_protocol_frame
ping call = guarded (write_raw_protocol_frame call frame_kind_ping [] [] [])

unfoldable pub pong : Call → Connection → Connection × Checked
unfolding guarded write_raw_protocol_frame
pong call = guarded (write_raw_protocol_frame call frame_kind_pong [] [] [])

-- The body's length is observed before the frame is queued.
unfoldable pub enqueue_encoded :
    Call → Result (ℕ × Result Bytes) → Connection → Connection × Checked
enqueue_encoded call (err e) c = (c, err e)
enqueue_encoded call (ok (body_len, err e)) c = (observe_encoded_payload_size c body_len, err e)
enqueue_encoded call (ok (body_len, ok frame)) c =
    enqueue_frame call.pick call.ctx (observe_encoded_payload_size c body_len) frame

module _ (lib : Encoders) where
  -- `writeEncodedProtocolFrame`.
  unfoldable pub write_encoded_protocol_frame :
      Call → ℕ → Bytes → Bytes → Option lib.Value → Connection → Connection × Checked
  unfolding enqueue_encoded
  write_encoded_protocol_frame call kind method invocation_id body c =
      enqueue_encoded call (encoded_protocol_frame lib c.protocol kind method invocation_id body) c

  unfoldable pub send : Call → Bytes → Option lib.Value → Connection → Connection × Checked
  unfolding guarded write_encoded_protocol_frame
  send call method body =
      guarded (write_encoded_protocol_frame call frame_kind_message method [] body)

  unfoldable pub complete : Call → Bytes → Option lib.Value → Connection → Connection × Checked
  unfolding guarded write_encoded_protocol_frame
  complete call invocation_id body =
      guarded (write_encoded_protocol_frame call frame_kind_completion [] invocation_id body)
