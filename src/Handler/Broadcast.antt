-- ===== src/Handler/Broadcast.antt =====
-- The senders to users, connections, groups and all connections, of server.go, and `CloseUsers` and
-- `CloseConnections` of batch_close.go. The nil handler is left out.
use signalg.Base.{if◌then◌else◌, is_empty, List, map, Bytes, Option, some}
use signalg.Errors.{Error, ok, err, handler_shutting_down, invalid_group}
use signalg.Protocol.Types.{ProtocolConfig}
use signalg.Protocol.Codec.{Encoders}
use signalg.Registry.ShardMap.{ShardMap}
use signalg.Registry.Types.{Conn, normalize_group}
use signalg.Registry.Snapshot.{
  all_connections_pooled, group_connections_pooled, user_snapshot_pooled,
  connection_snapshot_pooled,
}
use signalg.Batch.Tally.{BatchResult, single}
use signalg.Batch.Send.{SendJob, prepare_batch_payload, prepare_batch_raw_payload, send_connections}
use signalg.Batch.Close.{CloseJob, close_connections}
use signalg.Handler.Admission.{Handler}

-- `SendResult{Err: err}` and `CloseResult{Err: err}`.
abbrev pub failed_batch : Error → BatchResult
failed_batch e = record { matched = 0; done = 0; failed = 0; error = some (single e) }

-- `send_job` and `close_job` give a connection of a snapshot its state, and what its send or its
-- close sees.
module _ (lib : ShardMap) (enc : Encoders) (protocol : Option ProtocolConfig)
    (send_job : Conn → SendJob) (close_job : Conn → CloseJob) (h : Handler lib) where
  -- What the seven senders do with a snapshot when the payload is ready.
  unfoldable pub send_to : Bytes → Bytes → List Conn → BatchResult
  unfolding send_connections
  send_to method payload snapshot =
      if h.shutting_down
      then failed_batch handler_shutting_down
      else send_connections method payload (map send_job snapshot)

  unfoldable pub send_encoded : Bytes → Option enc.Value → List Conn → BatchResult
  unfolding send_to prepare_batch_payload
  send_encoded method body snapshot = elim (prepare_batch_payload enc protocol method body) [
    | err e ↦ failed_batch e
    | ok payload ↦ send_to method payload snapshot
  ]

  unfoldable pub send_prepared : Bytes → Bytes → List Conn → BatchResult
  unfolding send_to prepare_batch_raw_payload
  send_prepared method payload snapshot = elim (prepare_batch_raw_payload protocol method payload) [
    | err e ↦ failed_batch e
    | ok u ↦ send_to method payload snapshot
  ]

  unfoldable pub send_users : List Bytes → Bytes → Option enc.Value → BatchResult
  unfolding send_encoded
  send_users user_ids method body =
      send_encoded method body (user_snapshot_pooled lib user_ids h.registry)

  unfoldable pub send_users_raw : List Bytes → Bytes → Bytes → BatchResult
  unfolding send_prepared
  send_users_raw user_ids method payload =
      send_prepared method payload (user_snapshot_pooled lib user_ids h.registry)

  unfoldable pub send_connections_raw : List Bytes → Bytes → Bytes → BatchResult
  unfolding send_prepared
  send_connections_raw connection_ids method payload =
      send_prepared method payload (connection_snapshot_pooled lib connection_ids h.registry)

  unfoldable pub send_group : Bytes → Bytes → Option enc.Value → BatchResult
  unfolding send_encoded
  send_group group method body =
      let g = normalize_group group in
      if is_empty g
      then failed_batch invalid_group
      else send_encoded method body (group_connections_pooled lib g h.registry)

  unfoldable pub send_group_raw : Bytes → Bytes → Bytes → BatchResult
  unfolding send_prepared
  send_group_raw group method payload =
      let g = normalize_group group in
      if is_empty g
      then failed_batch invalid_group
      else send_prepared method payload (group_connections_pooled lib g h.registry)

  unfoldable pub send_all : Bytes → Option enc.Value → BatchResult
  unfolding send_encoded
  send_all method body = send_encoded method body (all_connections_pooled lib h.registry)

  unfoldable pub send_all_raw : Bytes → Bytes → BatchResult
  unfolding send_prepared
  send_all_raw method payload = send_prepared method payload (all_connections_pooled lib h.registry)

  unfoldable pub close_users : List Bytes → BatchResult
  unfolding close_connections
  close_users user_ids =
      if h.shutting_down
      then failed_batch handler_shutting_down
      else close_connections (map close_job (user_snapshot_pooled lib user_ids h.registry))

  unfoldable pub close_connections_by_id : List Bytes → BatchResult
  unfolding close_connections
  close_connections_by_id connection_ids =
      if h.shutting_down
      then failed_batch handler_shutting_down
      else close_connections
          (map close_job (connection_snapshot_pooled lib connection_ids h.registry))
