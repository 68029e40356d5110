-- ===== src/Handler/SentTo.antt =====
-- The numbers that the batch senders of server.go report of what they have sent.
use signalg.Base.{
  ℕ, ◌+◌, ◌≡◌, refl, sym, ◌∙◌, inl, inr, false, Option-cases, ltb, subst, is_empty, List, map,
  length, Bytes, Option, arith, length-map,
}
use signalg.Base.Assoc.{is_some}
use signalg.Base.Int.{pos}
use signalg.Errors.{nil_error}
use signalg.Protocol.Types.{ProtocolConfig}
use signalg.Protocol.Codec.{Encoders}
use signalg.Registry.ShardMap.{ShardMap, IsMap}
use signalg.Registry.Types.{Conn, normalize_group}
use signalg.Registry.Snapshot.{
  entry_conn, set_conn, all_connections_pooled, group_connections_pooled, group_online,
  copy_connection_set_pooled,
}
use signalg.Batch.Tally.{BatchResult}
use signalg.Batch.Send.{SendJob, prepare_batch_raw_payload, send_connections, run_send_job, outcome}
use signalg.Batch.Counts.{batch_result-IsReport}
use signalg.Batch.Close.{CloseJob}
use signalg.Handler.Admission.{Handler, handler_group_online}
use signalg.Handler.Online.{IsCounted}
use signalg.Handler.Broadcast.{send_to, send_prepared, send_group_raw, send_all_raw}

module _ (lib : ShardMap) (enc : Encoders) (protocol : Option ProtocolConfig)
    (send_job : Conn → SendJob) (close_job : Conn → CloseJob) (h : Handler lib) where
  -- A batch that has been sent to some connections: as many are matched, each of them has succeeded
  -- or failed, and there is an error exactly if one has failed.
  pub record IsSentTo (n : ℕ) (r : BatchResult) : Type 0 where
    pub matched : r.matched ≡ n
    pub all : r.done + r.failed ≡ n
    pub failure : is_some r.error ≡ ltb 0 r.failed

  pub sent_to :
      (method payload : Bytes) (snapshot : List Conn)
      → h.shutting_down ≡ false
      → prepare_batch_raw_payload protocol method payload ≡ nil_error
      → IsSentTo
          (length snapshot)
          (send_prepared lib enc protocol send_job close_job h method payload snapshot)
  unfolding send_prepared send_to send_connections
  sent_to method payload snapshot s e =
      let jobs = map send_job snapshot in
      let results = map (λ job. outcome (run_send_job method payload job)) jobs in
      let report = batch_result-IsReport results in
      let n : length results ≡ length snapshot =
        length-map (λ job. outcome (run_send_job method payload job)) jobs
        ∙ length-map send_job snapshot in
      rw (e, s, send_prepared)
        (record {
          matched = report.matched ∙ n;
          all = report.all ∙ (report.matched ∙ n);
          failure = report.failure;
        })

  module _ (laws : IsMap lib) where
    open laws use {len-entries}

    length-all_connections_pooled :
        length (all_connections_pooled lib h.registry) ≡ lib.len h.registry.connections
    unfolding all_connections_pooled
    length-all_connections_pooled =
        let n = length-map entry_conn (lib.entries h.registry.connections) in
        ground (arith, n, len-entries h.registry.connections)

    length-group_connections_pooled :
        (g : Bytes)
        → length (group_connections_pooled lib g h.registry) ≡ group_online lib g h.registry
    unfolding group_connections_pooled group_online copy_connection_set_pooled
    length-group_connections_pooled g =
        elim (Option-cases (lib.get h.registry.group_conn_index g)) [
          | inl e ↦ rw (e, group_connections_pooled, group_online) refl
          | inr (set, e) ↦
              rw (e, group_connections_pooled, group_online)
                (length-map set_conn (lib.entries set) ∙ sym (len-entries set))
        ]

    -- On a handler whose counter and registry agree and that does not shut down, for a payload that
    -- passes the checks: `SendAllRaw` sends to as many connections as `Online` counts, and
    -- `SendGroupRaw` of a group with a name sends to as many as `GroupOnline` counts of it.
    pub send_all_raw-IsSentTo :
        (group method payload : Bytes)
        → IsCounted lib laws h
        → h.shutting_down ≡ false
        → is_empty (normalize_group group) ≡ false
        → prepare_batch_raw_payload protocol method payload ≡ nil_error
        → ((n : ℕ) × (h.online ≡ pos n)
            × IsSentTo n (send_all_raw lib enc protocol send_job close_job h method payload))
          × IsSentTo
              (handler_group_online lib group h)
              (send_group_raw lib enc protocol send_job close_job h group method payload)
    unfolding send_all_raw send_group_raw handler_group_online
    send_all_raw-IsSentTo group method payload v s g e = (
      (
        lib.len h.registry.connections,
        v.online,
        subst (λ n. IsSentTo n (send_all_raw lib enc protocol send_job close_job h method payload))
            length-all_connections_pooled
            (sent_to method payload (all_connections_pooled lib h.registry) s e),
      ),
      rw g (
          subst
            (λ n. IsSentTo n (
              send_prepared lib enc protocol send_job close_job h method payload
                (group_connections_pooled lib (normalize_group group) h.registry)))
            (length-group_connections_pooled (normalize_group group))
            (sent_to method payload
              (group_connections_pooled lib (normalize_group group) h.registry) s e)),
    )
