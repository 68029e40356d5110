-- ===== src/Handler/SentSome.antt =====
-- The numbers that the batch calls of server.go and batch_close.go report for chosen users and
-- connections.
use signalg.Base.{ℕ, ◌≡◌, Bool, false, List, map, length, subst, Bytes, Option, ◌∙◌, length-map}
use signalg.Base.Assoc.{keep}
use signalg.Errors.{nil_error}
use signalg.Protocol.Types.{ProtocolConfig}
use signalg.Protocol.Codec.{Encoders}
use signalg.Registry.ShardMap.{ShardMap, IsMap}
use signalg.Registry.Types.{Conn, RegistryEntry}
use signalg.Registry.Snapshot.{user_snapshot_pooled, connection_snapshot_pooled}
use signalg.Registry.Chosen.{is_of_users}
use signalg.Registry.Snapshots.{length-IsSnapshot, users-IsSnapshot}
use signalg.Registry.ById.{is_under, ids-IsSnapshot}
use signalg.Batch.Tally.{BatchResult}
use signalg.Batch.Send.{SendJob, prepare_batch_raw_payload}
use signalg.Batch.Counts.{batch_result-IsReport}
use signalg.Batch.Close.{CloseJob, close_connections, run_close_job, closed}
use signalg.Handler.Admission.{Handler}
use signalg.Handler.Online.{IsCounted}
use signalg.Handler.Broadcast.{
  send_users_raw, send_connections_raw, close_users, close_connections_by_id,
}
use signalg.Handler.SentTo.{IsSentTo, sent_to}

module _ (lib : ShardMap) (enc : Encoders) (protocol : Option ProtocolConfig)
    (send_job : Conn → SendJob) (close_job : Conn → CloseJob) (h : Handler lib) where
  -- A report on as many connections as there are such entries.
  abbrev pub Reports : (RegistryEntry → Bool) → BatchResult → Type 0
  Reports p =
      IsSentTo lib enc protocol send_job close_job h
        (length (keep p (lib.entries h.registry.connections)))

  closed_all :
      (snapshot : List Conn)
      → IsSentTo lib enc protocol send_job close_job h
          (length snapshot)
          (close_connections (map close_job snapshot))
  unfolding close_connections
  closed_all snapshot =
      let jobs = map close_job snapshot in
      let results = map (λ job. closed (run_close_job job)) jobs in
      let report = batch_result-IsReport results in
      let n : length results ≡ length snapshot =
        length-map (λ job. closed (run_close_job job)) jobs ∙ length-map close_job snapshot in
      record {
        matched = report.matched ∙ n;
        all = report.all ∙ (report.matched ∙ n);
        failure = report.failure;
      }

  -- On a handler whose counter and registry agree and that does not shut down, whatever users and
  -- ids are named, repeated and empty ones among them, and for a payload that passes the checks:
  -- `SendUsersRaw` and `CloseUsers` match as many connections as are registered for these users,
  -- and `SendConnectionsRaw` and `CloseConnections` as many as are registered under these ids; each
  -- of them succeeds or fails, and there is an error exactly if one fails.
  pub send_users_raw-IsSentTo :
      (laws : IsMap lib) (users ids : List Bytes) (method payload : Bytes)
      → IsCounted lib laws h
      → h.shutting_down ≡ false
      → prepare_batch_raw_payload protocol method payload ≡ nil_error
      → Reports
          (is_of_users users)
          (send_users_raw lib enc protocol send_job close_job h users method payload)
        × Reports
            (is_under ids)
            (send_connections_raw lib enc protocol send_job close_job h ids method payload)
        × Reports (is_of_users users) (close_users lib enc protocol send_job close_job h users)
        × Reports (is_under ids) (close_connections_by_id lib enc protocol send_job close_job h ids)
  unfolding send_users_raw send_connections_raw close_users close_connections_by_id
  send_users_raw-IsSentTo laws users ids method payload v s e =
      let us = user_snapshot_pooled lib users h.registry in
      let cs = connection_snapshot_pooled lib ids h.registry in
      let n =
        length-IsSnapshot lib laws h.registry v.consistent (is_of_users users) us
          (users-IsSnapshot lib laws h.registry v.consistent users) in
      let m =
        length-IsSnapshot lib laws h.registry v.consistent (is_under ids) cs
          (ids-IsSnapshot lib laws h.registry v.consistent ids) in
      let sent = λ (snapshot : List Conn).
        sent_to lib enc protocol send_job close_job h method payload snapshot s e in
      let reports =
        λ (r : BatchResult) (n : ℕ). IsSentTo lib enc protocol send_job close_job h n r in
      (
        subst (reports (send_users_raw lib enc protocol send_job close_job h users method payload))
            n (sent us),
        subst
            (reports
              (send_connections_raw lib enc protocol send_job close_job h ids method payload))
            m (sent cs),
        simp s (subst (reports (close_connections (map close_job us))) n (closed_all us)),
        simp s (subst (reports (close_connections (map close_job cs))) m (closed_all cs)),
      )
