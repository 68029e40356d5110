-- ===== src/Examples/BroadcastRuns.antt =====
-- Batches on a handler with one connection, and on one that shuts down.
use signalg.Handler.Admission.{add_connection}
use signalg.Text.{trim_space}
use signalg.Batch.Send.{prepare_batch_raw_payload}
use signalg.Batch.Send.{prepare_batch_payload}
use signalg.Protocol.Validate.{validate_protocol_frame}
use signalg.Protocol.Validate.{validate_frame_kind}
use signalg.Protocol.Types.{is_control_frame_kind}
use signalg.Protocol.Validate.{validate_method_name}
use signalg.Text.{utf8_valid}
use signalg.Protocol.Codec.{marshal_append}
use signalg.Protocol.Frame.{config_ensure_payload_size}
use signalg.Base.{ℕ, ◌≡◌, refl, Bool, true, [], ◌∷◌, none, some}
use signalg.Base.Int.{pos}
use signalg.Errors.{nil_error}
use signalg.Registry.Types.{Conn, RegistryEntry, normalize_group}
use signalg.Handler.Admission.{handler_group_online}
use signalg.Batch.Tally.{BatchResult}
use signalg.Batch.Send.{SendJob}
use signalg.Batch.Close.{CloseJob}
use signalg.Handler.Broadcast.{
  send_users, send_users_raw, send_connections_raw, send_group, send_group_raw, send_all,
  send_all_raw, close_users, close_connections_by_id,
}
use signalg.Handler.Refused.{send_all-send_all_raw}
use signalg.Handler.SentSome.{Reports, send_users_raw-IsSentTo}
use signalg.Registry.Chosen.{is_of_users}
use signalg.Registry.ById.{is_under}
use signalg.Handler.SentTo.{IsSentTo, send_all_raw-IsSentTo}
use signalg.Examples.Instances.{assoc_map, assoc_map-IsMap, plain_encoders}
use signalg.Examples.ConnectionRuns.{json_config, new_conn}
use signalg.Examples.HandlerRuns.{joined, joined-IsCounted}

abbrev pub send_job : Conn → SendJob
send_job c = record { call = record { pick = true; ctx = none }; conn = new_conn }

abbrev pub close_job : Conn → CloseJob
close_job c = record { ctx = none; closing = nil_error; conn = new_conn }

send_all-send_all_raw_example :
    (send_users assoc_map plain_encoders
        (some json_config)
        send_job
        close_job
        joined
        ((b'u' ∷ []) ∷ [])
        (b'm' ∷ [])
        (some (1 ∷ []))
      ≡ send_users_raw assoc_map plain_encoders
          (some json_config)
          send_job
          close_job
          joined
          ((b'u' ∷ []) ∷ [])
          (b'm' ∷ [])
          (1 ∷ []))
    × (send_group assoc_map plain_encoders
          (some json_config)
          send_job
          close_job
          joined
          (b'g' ∷ [])
          (b'm' ∷ [])
          (some (1 ∷ []))
        ≡ send_group_raw assoc_map plain_encoders
            (some json_config)
            send_job
            close_job
            joined
            (b'g' ∷ [])
            (b'm' ∷ [])
            (1 ∷ []))
    × (send_all assoc_map plain_encoders
          (some json_config)
          send_job
          close_job
          joined
          (b'm' ∷ [])
          (some (1 ∷ []))
        ≡ send_all_raw assoc_map plain_encoders
            (some json_config)
            send_job
            close_job
            joined
            (b'm' ∷ [])
            (1 ∷ []))
unfolding prepare_batch_payload validate_protocol_frame validate_frame_kind is_control_frame_kind
    validate_method_name utf8_valid marshal_append config_ensure_payload_size
send_all-send_all_raw_example =
    send_all-send_all_raw assoc_map plain_encoders (some json_config) send_job close_job joined
      ((b'u' ∷ []) ∷ []) (b'g' ∷ []) (b'm' ∷ []) (some (1 ∷ [])) (1 ∷ []) refl

abbrev SentTo : ℕ → BatchResult → Type 0
SentTo = IsSentTo assoc_map plain_encoders (some json_config) send_job close_job joined

send_all_raw-IsSentTo_example :
    ((n : ℕ) × (joined.online ≡ pos n)
      × SentTo n (
          send_all_raw assoc_map plain_encoders
            (some json_config)
            send_job
            close_job
            joined
            (b'm' ∷ [])
            (1 ∷ [])))
    × SentTo (handler_group_online assoc_map (b'g' ∷ []) joined) (
        send_group_raw assoc_map plain_encoders
          (some json_config)
          send_job
          close_job
          joined
          (b'g' ∷ [])
          (b'm' ∷ [])
          (1 ∷ []))
unfolding add_connection normalize_group trim_space prepare_batch_raw_payload
    validate_protocol_frame validate_frame_kind is_control_frame_kind validate_method_name
    utf8_valid config_ensure_payload_size
send_all_raw-IsSentTo_example =
    send_all_raw-IsSentTo assoc_map plain_encoders (some json_config) send_job close_job joined
      assoc_map-IsMap (b'g' ∷ []) (b'm' ∷ []) (1 ∷ []) joined-IsCounted refl refl refl

abbrev Reported : (RegistryEntry → Bool) → BatchResult → Type 0
Reported = Reports assoc_map plain_encoders (some json_config) send_job close_job joined

send_users_raw-IsSentTo_example :
    Reported (is_of_users ((b'u' ∷ []) ∷ [])) (
      send_users_raw assoc_map plain_encoders
        (some json_config)
        send_job
        close_job
        joined
        ((b'u' ∷ []) ∷ [])
        (b'm' ∷ [])
        (1 ∷ []))
    × Reported (is_under ((b'1' ∷ []) ∷ [])) (
        send_connections_raw assoc_map plain_encoders
          (some json_config)
          send_job
          close_job
          joined
          ((b'1' ∷ []) ∷ [])
          (b'm' ∷ [])
          (1 ∷ []))
    × Reported (is_of_users ((b'u' ∷ []) ∷ [])) (
        close_users assoc_map plain_encoders
          (some json_config)
          send_job
          close_job
          joined
          ((b'u' ∷ []) ∷ []))
    × Reported (is_under ((b'1' ∷ []) ∷ [])) (
        close_connections_by_id assoc_map plain_encoders
          (some json_config)
          send_job
          close_job
          joined
          ((b'1' ∷ []) ∷ []))
unfolding add_connection prepare_batch_raw_payload validate_protocol_frame validate_frame_kind
    is_control_frame_kind validate_method_name utf8_valid config_ensure_payload_size
send_users_raw-IsSentTo_example =
    send_users_raw-IsSentTo assoc_map plain_encoders (some json_config) send_job close_job joined
      assoc_map-IsMap ((b'u' ∷ []) ∷ []) ((b'1' ∷ []) ∷ []) (b'm' ∷ []) (1 ∷ []) joined-IsCounted
      refl refl
