-- ===== src/Connection/Sent.antt =====
-- What a sender of connection.go leaves in the send queue.
use signalg.Base.{
  ℕ, ◌≤◌, ◌≡◌, refl, sym, subst, ap, ◌∙◌, true, [], ◌∷◌, ◌++◌, length, Bytes, arith, some, Option,
  inl, inr,
}
use signalg.Base.Int.{ℤ}
use signalg.Errors.{Result, ok, err, nil_error, Checked, Result-cases, >>-eq-ok, ok-injective}
use signalg.Protocol.Types.{
  BodyCodec, ProtocolConfig, frame_kind_message, frame_kind_completion, frame_kind_error,
  frame_kind_ping, frame_kind_pong,
}
use signalg.Protocol.Codec.{Encoders, AppendsProto, marshal_append}
use signalg.Protocol.Decode.{decode_frame}
use signalg.Protocol.Frame.{raw_protocol_frame, encoded_protocol_frame, config_ensure_payload_size}
use signalg.Protocol.Validate.{validate_protocol_frame}
use signalg.Protocol.Encoded.{encoded_protocol_frame-raw}
use signalg.Protocol.Layout.{message_of}
use signalg.Protocol.RoundTrip.{decode_frame-raw_protocol_frame}
use signalg.Connection.State.{Connection}
use signalg.Connection.Operations.{begin_send_operation}
use signalg.Connection.Queue.{enqueue_frame}
use signalg.Connection.Hint.{observe_encoded_payload_size}
use signalg.Connection.Send.{
  Call, write_raw_protocol_frame, guarded, enqueue_encoded, write_encoded_protocol_frame, send_raw,
  complete_error, ping, pong, send, complete,
}
use signalg.Connection.Senders.{
  Sender, sends, sends_raw, completes, completes_error, pings, pongs, kind_of, method_of,
  invocation_id_of, payload_of, run_sender,
}

guarded-ok :
    (write : Connection → Connection × Checked) (c d : Connection)
    → guarded write c ≡ (d, nil_error)
    → (begin_send_operation c).1 ≡ true × (write (begin_send_operation c).0 ≡ (d, nil_error))
unfolding guarded
guarded-ok write c d h = ground arith

begun_same :
    (c : Connection)
    → ((begin_send_operation c).0.protocol ≡ c.protocol)
      × ((begin_send_operation c).0.send_queue ≡ c.send_queue)
unfolding begin_send_operation
begun_same c = ground arith

enqueued :
    (call : Call) (c d : Connection) (frame : Bytes)
    → enqueue_frame call.pick call.ctx c frame ≡ (d, nil_error)
    → (d.send_queue ≡ c.send_queue ++ (frame ∷ [])) × (d.active_ops ≡ c.active_ops)
unfolding enqueue_frame
enqueued call c d frame h = ground arith

written_raw :
    (call : Call) (kind : ℕ) (method invocation_id payload : Bytes) (c d : Connection)
    → write_raw_protocol_frame call kind method invocation_id payload c ≡ (d, nil_error)
    → (frame : Bytes) × (raw_protocol_frame c.protocol kind method invocation_id payload ≡ ok frame)
      × (d.send_queue ≡ c.send_queue ++ (frame ∷ []))
unfolding write_raw_protocol_frame
written_raw call kind method invocation_id payload c d h =
    elim (Result-cases (raw_protocol_frame c.protocol kind method invocation_id payload)) [
      | inl (frame, e) ↦
          (frame, e, (enqueued call c d frame (rw (e, write_raw_protocol_frame) at h)).0)
      | inr (x, e) ↦
          let bad : (c, err x) ≡ (d, nil_error) = rw (e, write_raw_protocol_frame) at h in cc bad
    ]

-- What a successful send leaves: one frame more at the end of the queue, which a peer with the same
-- codec and limit decodes to the message that was meant.
abbrev pub Delivers : BodyCodec → ℤ → ℕ → Bytes → Bytes → Bytes → Connection → Connection → Type 0
Delivers codec max kind method invocation_id payload c d =
    (frame : Bytes) × (d.send_queue ≡ c.send_queue ++ (frame ∷ []))
    × (decode_frame frame (some codec) max
        ≡ ok (message_of codec kind method invocation_id payload))

-- A write under the guards delivers, if it queues the raw frame of a payload.
guarded-Delivers :
    (write : Connection → Connection × Checked) (codec : BodyCodec) (max : ℤ) (kind : ℕ)
    (method invocation_id payload : Bytes) (c d : Connection)
    → (4 ≤ kind → length payload ≡ 0)
    → ((b : Connection)
        → b.protocol ≡ some (record { codec = some codec; max_payload_size = max })
        → write b ≡ (d, nil_error)
        → (frame : Bytes) × (raw_protocol_frame
              (some (record { codec = some codec; max_payload_size = max }))
              kind
              method
              invocation_id
              payload
            ≡ ok frame)
          × (d.send_queue ≡ b.send_queue ++ (frame ∷ [])))
    → c.protocol ≡ some (record { codec = some codec; max_payload_size = max })
    → guarded write c ≡ (d, nil_error)
    → Delivers codec max kind method invocation_id payload c d
guarded-Delivers write codec max kind method invocation_id payload c d control queues p h =
    let (_, w) = guarded-ok write c d h in
    let (same_p, same_q) = begun_same c in
    let (frame, e, q) = queues (begin_send_operation c).0 (same_p ∙ p) w in
    (
      frame,
      cc (q, same_q),
      decode_frame-raw_protocol_frame codec max kind method invocation_id payload frame control e,
    )

enqueued_encoded :
    (call : Call) (r : Result (ℕ × Result Bytes)) (b d : Connection)
    → enqueue_encoded call r b ≡ (d, nil_error)
    → (n : ℕ) × (frame : Bytes) × (r ≡ ok (n, ok frame))
      × (d.send_queue ≡ b.send_queue ++ (frame ∷ []))
unfolding enqueue_encoded observe_encoded_payload_size
enqueued_encoded call (err e) b d h = cc
enqueued_encoded call (ok (n, err e)) b d h = cc
enqueued_encoded call (ok (n, ok frame)) b d h =
    (n, frame, refl, (enqueued call (observe_encoded_payload_size b n) d frame h).0)

module _ (lib : Encoders) (appends : AppendsProto lib) (call : Call) (codec : BodyCodec)
    (max : ℤ) where
  abbrev config : ProtocolConfig
  config = record { codec = some codec; max_payload_size = max }

  queues_raw :
      (kind : ℕ) (method invocation_id payload : Bytes) (b d : Connection)
      → b.protocol ≡ some config
      → write_raw_protocol_frame call kind method invocation_id payload b ≡ (d, nil_error)
      → (frame : Bytes) × (raw_protocol_frame (some config) kind method invocation_id payload
          ≡ ok frame)
        × (d.send_queue ≡ b.send_queue ++ (frame ∷ []))
  queues_raw kind method invocation_id payload b d p w =
      let (frame, e, q) = written_raw call kind method invocation_id payload b d w in
      (
        frame,
        (subst (λ x. raw_protocol_frame x kind method invocation_id payload ≡ ok frame) p e),
        q,
      )

  prepared_raw :
      (kind : ℕ) (method invocation_id payload : Bytes) (body : Option lib.Value)
      (q : Option ProtocolConfig) (n : ℕ) (prepared : Result Bytes)
      → marshal_append lib (some config) [] body ≡ ok payload
      → q ≡ some config
      → encoded_protocol_frame lib q kind method invocation_id body ≡ ok (n, prepared)
      → prepared ≡ raw_protocol_frame (some config) kind method invocation_id payload
  prepared_raw kind method invocation_id payload body q n prepared m p e =
      let raw = raw_protocol_frame (some config) kind method invocation_id payload in
      let e' : encoded_protocol_frame lib (some config) kind method invocation_id body
          ≡ ok (n, prepared) =
        rw p at e in
      let f =
        sym (encoded_protocol_frame-raw lib appends config kind method invocation_id payload body m)
        ∙ e' in
      let (_, g) = >>-eq-ok (validate_protocol_frame kind method invocation_id) _ f in
      let (_, h) = >>-eq-ok (config_ensure_payload_size (some config) (length payload)) _ g in
      let k : ◌≡◌ {A = ℕ × Result Bytes} (length payload, raw) (n, prepared) = ok-injective h in
      sym (ap (λ (x : ℕ × Result Bytes). x.1) k)

  written_encoded :
      (kind : ℕ) (method invocation_id : Bytes) (body : Option lib.Value) (b d : Connection)
      → write_encoded_protocol_frame lib call kind method invocation_id body b ≡ (d, nil_error)
      → (n : ℕ) × (frame : Bytes) × (encoded_protocol_frame lib b.protocol kind method invocation_id
            body
          ≡ ok (n, ok frame))
        × (d.send_queue ≡ b.send_queue ++ (frame ∷ []))
  unfolding write_encoded_protocol_frame
  written_encoded kind method invocation_id body b d w =
      enqueued_encoded call (encoded_protocol_frame lib b.protocol kind method invocation_id body) b
        d w

  queues_encoded :
      (kind : ℕ) (method invocation_id payload : Bytes) (body : Option lib.Value) (b d : Connection)
      → marshal_append lib (some config) [] body ≡ ok payload
      → b.protocol ≡ some config
      → write_encoded_protocol_frame lib call kind method invocation_id body b ≡ (d, nil_error)
      → (frame : Bytes) × (raw_protocol_frame (some config) kind method invocation_id payload
          ≡ ok frame)
        × (d.send_queue ≡ b.send_queue ++ (frame ∷ []))
  queues_encoded kind method invocation_id payload body b d m p w =
      let (n, frame, e, q) = written_encoded kind method invocation_id body b d w in
      (
        frame,
        sym (prepared_raw kind method invocation_id payload body b.protocol n (ok frame) m p e),
        q,
      )

  -- On a connection with a codec and a limit, where the codec makes a payload of the body and the
  -- protobuf encoder appends to its buffer: each of the six senders that returns nil has queued
  -- exactly one frame, at the end of the queue, which a peer with the same codec and limit decodes
  -- to the sender's kind, method, invocation id and payload.
  pub sender-Delivers :
      (s : Sender lib) (payload : Bytes) (c d : Connection)
      → c.protocol ≡ some config
      → payload_of lib (some config) s ≡ ok payload
      → run_sender lib call s c ≡ (d, nil_error)
      → Delivers codec max (kind_of s) (method_of s) (invocation_id_of s) payload c d
  unfolding send send_raw complete complete_error ping pong
  sender-Delivers (sends method body) payload c d p m h =
      guarded-Delivers _ codec max frame_kind_message method [] payload c d
        (λ k. absurd (omega arith))
        (λ b. queues_encoded frame_kind_message method [] payload body b d m) p h
  sender-Delivers (sends_raw method body) payload c d p m h =
      guarded-Delivers _ codec max frame_kind_message method [] payload c d
        (λ k. absurd (omega arith))
        (λ b e w. queues_raw frame_kind_message method [] payload b d e (rw (← ok-injective m) w)) p
        h
  sender-Delivers (completes id body) payload c d p m h =
      guarded-Delivers _ codec max frame_kind_completion [] id payload c d
        (λ k. absurd (omega arith))
        (λ b. queues_encoded frame_kind_completion [] id payload body b d m) p h
  sender-Delivers (completes_error id text) payload c d p m h =
      guarded-Delivers _ codec max frame_kind_error [] id payload c d (λ k. absurd (omega arith))
        (λ b e w. queues_raw frame_kind_error [] id payload b d e (rw (← ok-injective m) w)) p h
  sender-Delivers pings payload c d p m h =
      guarded-Delivers _ codec max frame_kind_ping [] [] payload c d
        (λ k. omega (arith, ap length (ok-injective m)))
        (λ b e w. queues_raw frame_kind_ping [] [] payload b d e (rw (← ok-injective m) w)) p h
  sender-Delivers pongs payload c d p m h =
      guarded-Delivers _ codec max frame_kind_pong [] [] payload c d
        (λ k. omega (arith, ap length (ok-injective m)))
        (λ b e w. queues_raw frame_kind_pong [] [] payload b d e (rw (← ok-injective m) w)) p h
