-- ===== src/Batch/Send.antt =====
-- `prepareBatchPayload`, `prepareBatchRawPayload` and `sendConnections` of batch_send.go.
use signalg.Base.{List, [], map, length, Bytes, Option, none, some}
use signalg.Errors.{Result, ok, err, ◌>>◌, ◌>>=◌, Checked, unsupported_codec}
use signalg.Protocol.Types.{ProtocolConfig, frame_kind_message}
use signalg.Protocol.Codec.{Encoders, marshal_append}
use signalg.Protocol.Validate.{validate_protocol_frame}
use signalg.Protocol.Frame.{config_ensure_payload_size}
use signalg.Connection.State.{Connection}
use signalg.Connection.Send.{Call, send_raw}
use signalg.Batch.Tally.{BatchResult, batch_result}

unfoldable pub prepare_batch_raw_payload : Option ProtocolConfig → Bytes → Bytes → Checked
prepare_batch_raw_payload none method payload = err unsupported_codec
prepare_batch_raw_payload (some p) method payload = do
  validate_protocol_frame frame_kind_message method []
  config_ensure_payload_size (some p) (length payload)

module _ (lib : Encoders) where
  unfoldable pub prepare_batch_payload :
      Option ProtocolConfig → Bytes → Option lib.Value → Result Bytes
  prepare_batch_payload none method body = err unsupported_codec
  prepare_batch_payload (some p) method body = do
    validate_protocol_frame frame_kind_message method []
    payload ← marshal_append lib (some p) [] body
    config_ensure_payload_size (some p) (length payload)
    ok payload

-- A connection of the snapshot, with what its send sees.
pub record SendJob : Type 0 where
  pub call : Call
  pub conn : Connection

-- What a worker does with one job.
unfoldable pub run_send_job : Bytes → Bytes → SendJob → Connection × Checked
run_send_job method payload job = send_raw job.call method payload job.conn

abbrev pub outcome : Connection × Checked → Checked
outcome (c, r) = r

-- `sendConnections`. The jobs stand in the order in which the workers' results arrive, which may be
-- any order of the snapshot; each connection is its own object, so no send changes another's.
unfoldable pub send_connections : Bytes → Bytes → List SendJob → BatchResult
unfolding batch_result run_send_job
send_connections method payload jobs =
    batch_result (map (λ job. outcome (run_send_job method payload job)) jobs)
