-- ===== src/DebugHub/Answers.antt =====
-- What the debug hub of example/main.go answers, and what its peer reads of it.
use signalg.Base.{
  ◌≡◌, ◌==◌, ap, if◌then◌else◌, inl, inr, Bool-cases, ◌∙◌, subst, refl, Bytes, Option, some, none,
}
use signalg.Base.Int.{ℤ}
use signalg.Errors.{Result, ok, err, Checked, nil_error}
use signalg.Protocol.Types.{BodyCodec, Message, frame_kind_message, frame_kind_invoke}
use signalg.Protocol.Codec.{message_decode, AppendsProto}
use signalg.Connection.State.{ctx_err}
use signalg.Connection.Senders.{
  Sender, sends, completes, completes_error, kind_of, method_of, invocation_id_of, payload_of,
  run_sender,
}
use signalg.Connection.Sent.{Delivers, sender-Delivers}
use signalg.Session.World.{Packages, World, with_own_context}
use signalg.DebugHub.Hub.{Debugging, debug_answer, server_echo, debug_payload, debug_on_message}

module _ (lib : Packages) (d : Debugging lib) where
  -- The answer to a message, by what its body decodes to: an echo of a message, the completion of an
  -- invocation, or its error. Nothing is sent for a message that cannot be decoded, and for other
  -- kinds.
  abbrev pub answer : Message → World lib → Result lib.enc.Value → Option (Sender lib.enc)
  answer msg w (ok body) =
      let payload = d.payload_value (debug_payload lib d msg body w) in
      if msg.kind == frame_kind_message
      then some (sends server_echo (some payload))
      else if msg.kind == frame_kind_invoke
      then some (completes msg.invocation_id (some payload))
      else none
  answer msg w (err e) =
      if msg.kind == frame_kind_invoke
      then some (completes_error msg.invocation_id (some (lib.error_string msg e)))
      else none

  -- What the hub does with the connection for an answer.
  abbrev answered : Message → Option (Sender lib.enc) → World lib → World lib
  answered msg none w = w
  answered msg (some s) w = (with_own_context lib d.pick (λ call. run_sender lib.enc call s) w).0

  debug_answer-answered :
      (msg : Message) (w : World lib) (r : Result lib.enc.Value)
      → (debug_answer lib d msg w r).0 ≡ answered msg (answer msg w r) w
  unfolding debug_answer
  debug_answer-answered msg w (err e) = elim (Bool-cases (msg.kind == frame_kind_invoke)) [
    | inl i ↦ rw i refl
    | inr i ↦ rw i refl
  ]
  debug_answer-answered msg w (ok body) = elim (Bool-cases (msg.kind == frame_kind_message)) [
    | inl m ↦ rw m refl
    | inr m ↦ elim (Bool-cases (msg.kind == frame_kind_invoke)) [
      | inl i ↦ rw (m, i) refl
      | inr i ↦ rw (m, i) refl
    ]
  ]

  sent :
      (w v : World lib) (s t : Sender lib.enc)
      → with_own_context lib d.pick (λ call. run_sender lib.enc call t) w ≡ (v, nil_error)
      → some t ≡ some s
      → run_sender lib.enc (record { pick = d.pick; ctx = ctx_err w.conn }) s w.conn
        ≡ (v.conn, nil_error)
  sent w v s t h e =
      let same : t ≡ s = cc e in
      subst
        (λ x.
          run_sender lib.enc (record { pick = d.pick; ctx = ctx_err w.conn }) x w.conn
          ≡ (v.conn, nil_error))
        same (ap (λ (x : World lib × Checked). (x.0.conn, x.1)) h)

  debug_answer-sends :
      (msg : Message) (w v : World lib) (r : Result lib.enc.Value) (s : Sender lib.enc)
      → debug_answer lib d msg w r ≡ (v, nil_error)
      → answer msg w r ≡ some s
      → run_sender lib.enc (record { pick = d.pick; ctx = ctx_err w.conn }) s w.conn
        ≡ (v.conn, nil_error)
  unfolding debug_answer
  debug_answer-sends msg w v (err e) s h a = elim (Bool-cases (msg.kind == frame_kind_invoke)) [
    | inl i ↦
        sent w v s (completes_error msg.invocation_id (some (lib.error_string msg e))) (rw i at h)
          (rw i at a)
    | inr i ↦ let b : none ≡ some s = rw i at a in cc b
  ]
  debug_answer-sends msg w v (ok body) s h a =
      let payload = d.payload_value (debug_payload lib d msg body w) in
      elim (Bool-cases (msg.kind == frame_kind_message)) [
        | inl m ↦ sent w v s (sends server_echo (some payload)) (rw m at h) (rw m at a)
        | inr m ↦ elim (Bool-cases (msg.kind == frame_kind_invoke)) [
          | inl i ↦
              sent w v s (completes msg.invocation_id (some payload)) (rw (m, i) at h)
                (rw (m, i) at a)
          | inr i ↦ let b : none ≡ some s = rw (m, i) at a in cc b
        ]
      ]

  -- Where the debug hub returns nil for a message that has an answer, on a connection with a codec
  -- and a limit, with a payload that the codec can encode: exactly one frame was queued, which a
  -- peer decodes to the answer: for a message that is no invocation an echo under "server.echo"
  -- with no invocation id; for an invocation its completion, or where its body does not decode its
  -- error, without a method and under the invocation id of the message; each with the answer's
  -- payload.
  pub debug_on_message-Delivers :
      (appends : AppendsProto lib.enc) (codec : BodyCodec) (max : ℤ) (msg : Message)
      (w v : World lib) (s : Sender lib.enc) (payload : Bytes)
      → w.conn.protocol ≡ some (record { codec = some codec; max_payload_size = max })
      → debug_on_message lib d msg w ≡ (v, nil_error)
      → answer msg w (message_decode lib.enc msg d.target) ≡ some s
      → payload_of lib.enc (some (record { codec = some codec; max_payload_size = max })) s
        ≡ ok payload
      → Delivers codec max (kind_of s) (method_of s) (invocation_id_of s) payload w.conn v.conn
  unfolding debug_on_message
  debug_on_message-Delivers appends codec max msg w v s payload c h a m =
      sender-Delivers lib.enc appends (record { pick = d.pick; ctx = ctx_err w.conn }) codec max s
        payload w.conn v.conn c m
        (debug_answer-sends msg w v (message_decode lib.enc msg d.target) s h a)

  -- A message without an answer changes nothing.
  pub debug_on_message-silent :
      (msg : Message) (w : World lib)
      → answer msg w (message_decode lib.enc msg d.target) ≡ none
      → (debug_on_message lib d msg w).0 ≡ w
  unfolding debug_on_message
  debug_on_message-silent msg w a =
      debug_answer-answered msg w (message_decode lib.enc msg d.target)
      ∙ ap (λ x. answered msg x w) a
