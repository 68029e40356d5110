-- ===== src/Batch/Same.antt =====
-- A payload that is prepared once and sent to a connection, against a send to this connection.
use signalg.Base.{◌∙◌, subst, ◌≡◌, refl, some, [], length, Bytes, Option, ℕ, arith}
use signalg.Errors.{Result, ok, err, Checked, >>-eq-ok, >>=-eq-ok, ok-injective}
use signalg.Protocol.Types.{ProtocolConfig, frame_kind_message}
use signalg.Protocol.Codec.{Encoders, AppendsProto, marshal_append}
use signalg.Protocol.Validate.{validate_protocol_frame}
use signalg.Protocol.Frame.{config_ensure_payload_size, raw_protocol_frame, encoded_protocol_frame}
use signalg.Protocol.Encoded.{encoded_protocol_frame-raw}
use signalg.Connection.State.{Connection}
use signalg.Connection.Operations.{begin_send_operation, end_operation}
use signalg.Connection.Queue.{enqueue_frame}
use signalg.Connection.Hint.{observe_encoded_payload_size}
use signalg.Connection.Send.{
  Call, guarded, write_raw_protocol_frame, write_encoded_protocol_frame, enqueue_encoded, send,
  send_raw,
}
use signalg.Batch.Send.{prepare_batch_payload}

-- Two runs of a write with the same result and the same connection but for the size hint.
abbrev pub Alike : Connection × Checked → Connection × Checked → Type 0
Alike (c, x) (d, y) =
    (x ≡ y) × (record c { encoded_payload_hint = 0 } ≡ record d { encoded_payload_hint = 0 })

enqueue-Alike :
    (call : Call) (frame : Bytes) (n : ℕ) (c : Connection)
    → Alike
        (enqueue_frame call.pick call.ctx (observe_encoded_payload_size c n) frame)
        (enqueue_frame call.pick call.ctx c frame)
unfolding enqueue_frame observe_encoded_payload_size
enqueue-Alike call frame n c = ground arith

write-Alike :
    (call : Call) (n : ℕ) (frame : Result Bytes) (c : Connection)
    → Alike
        (enqueue_encoded call (ok (n, frame)) c)
        (elim frame [ err e ↦ (c, err e) | ok f ↦ enqueue_frame call.pick call.ctx c f ])
unfolding enqueue_encoded observe_encoded_payload_size
write-Alike call n (err e) c = (refl, refl)
write-Alike call n (ok f) c = enqueue-Alike call f n c

end_hint :
    (c : Connection)
    → ◌≡◌ {A = Connection}
        (record (end_operation c) { encoded_payload_hint = 0 })
        (end_operation (record c { encoded_payload_hint = 0 }))
unfolding end_operation
end_hint c = ground arith

begun_protocol : (c : Connection) → (begin_send_operation c).0.protocol ≡ c.protocol
unfolding begin_send_operation
begun_protocol c = ground arith

guarded-Alike :
    (v w : Connection → Connection × Checked) (c : Connection)
    → Alike (v (begin_send_operation c).0) (w (begin_send_operation c).0)
    → Alike (guarded v c) (guarded w c)
unfolding guarded
guarded-Alike v w c h =
    ground (
      arith,
      end_hint (v (begin_send_operation c).0).0,
      end_hint (w (begin_send_operation c).0).0,
      h,
    )

module _ (lib : Encoders) (appends : AppendsProto lib) (p : ProtocolConfig) where
  prepared :
      (method payload : Bytes) (body : Option lib.Value)
      → prepare_batch_payload lib (some p) method body ≡ ok payload
      → encoded_protocol_frame lib (some p) frame_kind_message method [] body
        ≡ ok (length payload, raw_protocol_frame (some p) frame_kind_message method [] payload)
  unfolding prepare_batch_payload
  prepared method payload body h =
      let (a, h₁) = >>-eq-ok (validate_protocol_frame frame_kind_message method []) _ h in
      let (x, b, h₂) = >>=-eq-ok (marshal_append lib (some p) [] body) _ h₁ in
      let (c, h₃) = >>-eq-ok (config_ensure_payload_size (some p) (length x)) _ h₂ in
      let same : x ≡ payload = ok-injective h₃ in
      let made : encoded_protocol_frame lib (some p) frame_kind_message method [] body
          ≡ ok (length x, raw_protocol_frame (some p) frame_kind_message method [] x) =
        encoded_protocol_frame-raw lib appends p frame_kind_message method [] x body b
        ∙ rw (a, c) refl in
      subst
        (λ (z : Bytes).
          encoded_protocol_frame lib (some p) frame_kind_message method [] body
          ≡ ok (length z, raw_protocol_frame (some p) frame_kind_message method [] z))
        same made

  writes-Alike :
      (call : Call) (method payload : Bytes) (body : Option lib.Value) (q : Option ProtocolConfig)
      (d : Connection)
      → q ≡ some p
      → prepare_batch_payload lib (some p) method body ≡ ok payload
      → Alike
          (enqueue_encoded call (encoded_protocol_frame lib q frame_kind_message method [] body) d)
          (elim (raw_protocol_frame q frame_kind_message method [] payload) [
            | err e ↦ (d, err e)
            | ok f ↦ enqueue_frame call.pick call.ctx d f
          ])
  writes-Alike call method payload body q d e h =
      rw (e, prepared method payload body h)
        (write-Alike call (length payload)
          (raw_protocol_frame (some p) frame_kind_message method [] payload) d)

  -- On a connection with the handler's protocol, where `prepareBatchPayload` makes a payload of the
  -- body and the protobuf encoder appends to its buffer: the raw send of the payload, which is what
  -- a batch does with the connection, returns what `Send` of the body returns, and leaves the same
  -- connection but for the size hint.
  pub send-send_raw :
      (call : Call) (method payload : Bytes) (body : Option lib.Value) (c : Connection)
      → c.protocol ≡ some p
      → prepare_batch_payload lib (some p) method body ≡ ok payload
      → Alike (send lib call method body c) (send_raw call method payload c)
  unfolding send send_raw write_encoded_protocol_frame write_raw_protocol_frame
  send-send_raw call method payload body c e h =
      guarded-Alike (write_encoded_protocol_frame lib call frame_kind_message method [] body)
        (write_raw_protocol_frame call frame_kind_message method [] payload) c
        (writes-Alike call method payload body (begin_send_operation c).0.protocol
          (begin_send_operation c).0 (begun_protocol c ∙ e) h)
