-- ===== src/Session/Reply.antt =====
-- The reply to an invocation, from the hub's method to the peer.
use signalg.Base.{
  ℕ, ◌≡◌, ◌==◌, ap, Bool, true, false, [], Bytes, Option, some, arith, inl, inr, Bool-cases,
}
use signalg.Base.Int.{ℤ}
use signalg.Errors.{Result, ok, err, Checked, nil_error, is_panic}
use signalg.Protocol.Types.{
  BodyCodec, ProtocolConfig, Message, frame_kind_message, frame_kind_invoke, frame_kind_completion,
  frame_kind_error,
}
use signalg.Protocol.Codec.{marshal_append, AppendsProto}
use signalg.Connection.State.{Connection, ctx_err}
use signalg.Connection.Send.{Call, complete, complete_error}
use signalg.Connection.Senders.{completes, completes_error}
use signalg.Connection.Sent.{Delivers, sender-Delivers}
use signalg.Dispatcher.Routes.{HubDispatcher}
use signalg.Dispatcher.Dispatch.{dispatch}
use signalg.Session.World.{Packages, World, Hub, with_own_context}
use signalg.Session.Reading.{dispatch_message, reply}

module _ (lib : Packages) (appends : AppendsProto lib.enc) (codec : BodyCodec) (max : ℤ)
    (msg : Message) where
  abbrev config : ProtocolConfig
  config = record { codec = some codec; max_payload_size = max }

  -- What an invocation is to be answered with: the encoded result, or the text of the error.
  abbrev pub reply_kind : Result (Option lib.enc.Value) → ℕ
  reply_kind (ok res) = frame_kind_completion
  reply_kind (err e) = frame_kind_error

  abbrev pub reply_payload : Result (Option lib.enc.Value) → Result Bytes
  reply_payload (ok res) = marshal_append lib.enc (some config) [] res
  reply_payload (err e) = ok (lib.error_string msg e)

  with_own_context-conn :
      (pick : Bool) (sender : Call → Connection → Connection × Checked) (w v : World lib)
      → with_own_context lib pick sender w ≡ (v, nil_error)
      → sender (record { pick = pick; ctx = ctx_err w.conn }) w.conn ≡ (v.conn, nil_error)
  with_own_context-conn pick sender w v h = ap (λ (x : World lib × Checked). (x.0.conn, x.1)) h

  reply-Delivers :
      (pick : Bool) (p : World lib × Result (Option lib.enc.Value)) (v : World lib)
      (payload : Bytes)
      → p.0.conn.protocol ≡ some config
      → reply_payload p.1 ≡ ok payload
      → reply lib pick msg p ≡ (v, nil_error)
      → Delivers codec max (reply_kind p.1) [] msg.invocation_id payload p.0.conn v.conn
  unfolding reply
  reply-Delivers pick (w, ok res) v payload c m h =
      sender-Delivers lib.enc appends (record { pick = pick; ctx = ctx_err w.conn }) codec max
        (completes msg.invocation_id res) payload w.conn v.conn c m
        (with_own_context-conn pick (λ call. complete lib.enc call msg.invocation_id res) w v h)
  reply-Delivers pick (w, err e) v payload c m h = elim (Bool-cases (is_panic e)) [
    | inl p ↦
        let bad : (w, err e) ≡ (v, nil_error) = rw p at h in
        cc (ap (λ (x : World lib × Checked). x.1) bad)
    | inr p ↦
        sender-Delivers lib.enc appends (record { pick = pick; ctx = ctx_err w.conn }) codec max
          (completes_error msg.invocation_id (some (lib.error_string msg e))) payload w.conn v.conn
          c m
          (with_own_context-conn pick
            (λ call. complete_error call msg.invocation_id (some (lib.error_string msg e))) w v
            (rw p at h))
  ]

  -- Where `dispatchMessage` returns nil for an invocation, and the connection has a codec and a
  -- limit when the hub's method has returned, with a result that the codec can encode or with an
  -- error: exactly one frame was queued behind the method's own, which a peer decodes to a
  -- completion with the encoded result, or to an error with its text, under the invocation id of
  -- the message.
  pub dispatch_message-Delivers :
      (hub : Hub lib) (d : Option (HubDispatcher lib.reflection)) (pick : Bool) (w v : World lib)
      (payload : Bytes)
      → (msg.kind == frame_kind_invoke) ≡ true
      → (dispatch lib.enc lib.reflection hub.call d msg w).0.conn.protocol ≡ some config
      → reply_payload (dispatch lib.enc lib.reflection hub.call d msg w).1 ≡ ok payload
      → dispatch_message lib hub d pick msg w ≡ (v, nil_error)
      → Delivers codec max
          (reply_kind (dispatch lib.enc lib.reflection hub.call d msg w).1)
          []
          msg.invocation_id
          payload
          (dispatch lib.enc lib.reflection hub.call d msg w).0.conn
          v.conn
  unfolding dispatch_message
  dispatch_message-Delivers hub d pick w v payload k c m h =
      let no_message : (msg.kind == frame_kind_message) ≡ false = ground arith in
      reply-Delivers pick (dispatch lib.enc lib.reflection hub.call d msg w) v payload c m
        (rw (no_message, k) at h)
