-- ===== src/Handler/Refused.antt =====
-- What the batch calls of server.go and batch_close.go return before they send or close anything.
use signalg.Base.{
  ◌≡◌, refl, ap, inl, inr, true, if◌then◌else◌, is_empty, List, [], ◌∷◌, length, Bytes, Option,
  none, some,
}
use signalg.Errors.{
  Error, ok, nil_error, handler_shutting_down, invalid_group, Result-cases, >>-eq-ok, >>=-eq-ok,
  ok-injective,
}
use signalg.Protocol.Types.{ProtocolConfig, frame_kind_message}
use signalg.Protocol.Codec.{Encoders, marshal_append}
use signalg.Protocol.Validate.{validate_protocol_frame}
use signalg.Protocol.Frame.{config_ensure_payload_size}
use signalg.Registry.ShardMap.{ShardMap}
use signalg.Registry.Types.{Conn, normalize_group}
use signalg.Batch.Tally.{BatchResult}
use signalg.Batch.Send.{SendJob, prepare_batch_payload, prepare_batch_raw_payload}
use signalg.Batch.Close.{CloseJob}
use signalg.Handler.Admission.{Handler}
use signalg.Handler.Broadcast.{
  failed_batch, send_to, send_encoded, send_prepared, send_users, send_users_raw,
  send_connections_raw, send_group, send_group_raw, send_all, send_all_raw, close_users,
  close_connections_by_id,
}

prepared :
    (enc : Encoders) (protocol : Option ProtocolConfig) (method : Bytes) (body : Option enc.Value)
    (payload : Bytes)
    → prepare_batch_payload enc protocol method body ≡ ok payload
    → prepare_batch_raw_payload protocol method payload ≡ nil_error
unfolding prepare_batch_payload prepare_batch_raw_payload
prepared enc none method body payload h = cc
prepared enc (some p) method body payload h =
    let (v, g) = >>-eq-ok (validate_protocol_frame frame_kind_message method []) _ h in
    let (x, m, f) = >>=-eq-ok (marshal_append enc (some p) [] body) _ g in
    let (s, e) = >>-eq-ok (config_ensure_payload_size (some p) (length x)) _ f in
    let same : x ≡ payload = ok-injective e in rw (v, ← same) s

module _ (lib : ShardMap) (enc : Encoders) (protocol : Option ProtocolConfig)
    (send_job : Conn → SendJob) (close_job : Conn → CloseJob) (h : Handler lib) where
  -- A batch that is refused: nothing is matched, and there is an error.
  pub record IsRefused (r : BatchResult) : Type 0 where
    pub error : Error
    pub report : r ≡ failed_batch error

  encoded-IsRefused :
      (method : Bytes) (body : Option enc.Value) (snapshot : List Conn)
      → h.shutting_down ≡ true
      → IsRefused (send_encoded lib enc protocol send_job close_job h method body snapshot)
  unfolding send_encoded send_to
  encoded-IsRefused method body snapshot s =
      elim (Result-cases (prepare_batch_payload enc protocol method body)) [
        | inl (payload, e) ↦
            rw (e, send_encoded) (record { error = handler_shutting_down; report = rw s refl })
        | inr (x, e) ↦ rw (e, send_encoded) (record { error = x; report = refl })
      ]

  prepared-IsRefused :
      (method payload : Bytes) (snapshot : List Conn)
      → h.shutting_down ≡ true
      → IsRefused (send_prepared lib enc protocol send_job close_job h method payload snapshot)
  unfolding send_prepared send_to
  prepared-IsRefused method payload snapshot s =
      elim (Result-cases (prepare_batch_raw_payload protocol method payload)) [
        | inl (u, e) ↦
            rw (e, send_prepared) (record { error = handler_shutting_down; report = rw s refl })
        | inr (x, e) ↦ rw (e, send_prepared) (record { error = x; report = refl })
      ]

  group-IsRefused :
      (group : Bytes) (r : BatchResult)
      → IsRefused r
      → IsRefused (if is_empty group then failed_batch invalid_group else r)
  group-IsRefused [] r v = record { error = invalid_group; report = refl }
  group-IsRefused (x ∷ xs) r v = v

  -- On a handler that shuts down, whatever is asked for: each of the seven batch sends and both
  -- batch closes match no connection and return an error.
  pub shutting_down-IsRefused :
      (user_ids connection_ids : List Bytes) (group method : Bytes) (body : Option enc.Value)
      (payload : Bytes)
      → h.shutting_down ≡ true
      → IsRefused (send_users lib enc protocol send_job close_job h user_ids method body)
        × IsRefused (send_users_raw lib enc protocol send_job close_job h user_ids method payload)
        × IsRefused (
            send_connections_raw lib enc protocol send_job close_job h connection_ids method
              payload)
        × IsRefused (send_group lib enc protocol send_job close_job h group method body)
        × IsRefused (send_group_raw lib enc protocol send_job close_job h group method payload)
        × IsRefused (send_all lib enc protocol send_job close_job h method body)
        × IsRefused (send_all_raw lib enc protocol send_job close_job h method payload)
        × IsRefused (close_users lib enc protocol send_job close_job h user_ids)
        × IsRefused (close_connections_by_id lib enc protocol send_job close_job h connection_ids)
  unfolding send_users send_users_raw send_connections_raw send_group send_group_raw send_all
      send_all_raw close_users close_connections_by_id
  shutting_down-IsRefused user_ids connection_ids group method body payload s = (
    encoded-IsRefused method body _ s,
    prepared-IsRefused method payload _ s,
    prepared-IsRefused method payload _ s,
    group-IsRefused (normalize_group group) _ (encoded-IsRefused method body _ s),
    group-IsRefused (normalize_group group) _ (prepared-IsRefused method payload _ s),
    encoded-IsRefused method body _ s,
    prepared-IsRefused method payload _ s,
    rw s (record { error = handler_shutting_down; report = refl }),
    rw s (record { error = handler_shutting_down; report = refl }),
  )

  encoded-prepared :
      (method : Bytes) (body : Option enc.Value) (payload : Bytes) (snapshot : List Conn)
      → prepare_batch_payload enc protocol method body ≡ ok payload
      → send_encoded lib enc protocol send_job close_job h method body snapshot
        ≡ send_prepared lib enc protocol send_job close_job h method payload snapshot
  unfolding send_encoded send_prepared
  encoded-prepared method body payload snapshot e =
      rw (e, prepared enc protocol method body payload e, send_encoded, send_prepared) refl

  -- Where `prepareBatchPayload` makes a payload of a body, each batch send of the body reports what
  -- the raw one of the payload does: to users, to a group and to all connections, whatever the
  -- state of the handler.
  pub send_all-send_all_raw :
      (user_ids : List Bytes) (group method : Bytes) (body : Option enc.Value) (payload : Bytes)
      → prepare_batch_payload enc protocol method body ≡ ok payload
      → (send_users lib enc protocol send_job close_job h user_ids method body
          ≡ send_users_raw lib enc protocol send_job close_job h user_ids method payload)
        × (send_group lib enc protocol send_job close_job h group method body
            ≡ send_group_raw lib enc protocol send_job close_job h group method payload)
        × (send_all lib enc protocol send_job close_job h method body
            ≡ send_all_raw lib enc protocol send_job close_job h method payload)
  unfolding send_users send_users_raw send_group send_group_raw send_all send_all_raw
  send_all-send_all_raw user_ids group method body payload e = (
    encoded-prepared method body payload _ e,
    ap (λ r. if is_empty (normalize_group group) then failed_batch invalid_group else r)
        (encoded-prepared method body payload _ e),
    encoded-prepared method body payload _ e,
  )
