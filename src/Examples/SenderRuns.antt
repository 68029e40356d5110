-- ===== src/Examples/SenderRuns.antt =====
-- Senders run on a new connection.
use signalg.Protocol.Codec.{marshal_append}
use signalg.Connection.Operations.{begin_send_operation}
use signalg.Protocol.Frame.{encoded_protocol_frame}
use signalg.Protocol.Validate.{validate_protocol_frame}
use signalg.Protocol.Validate.{validate_frame_kind}
use signalg.Protocol.Types.{is_control_frame_kind}
use signalg.Protocol.Validate.{validate_method_name}
use signalg.Text.{utf8_valid}
use signalg.Protocol.Frame.{config_ensure_payload_size}
use signalg.Protocol.Frame.{prepare_protocol_frame}
use signalg.Connection.Queue.{enqueue_frame}
use signalg.Base.{refl, true, [], ◌∷◌, some, none}
use signalg.Base.Int.{pos}
use signalg.Protocol.Types.{json_codec}
use signalg.Connection.State.{Connection, new_connection, disconnect}
use signalg.Connection.Hint.{observe_encoded_payload_size}
use signalg.Connection.Send.{Call, send}
use signalg.Connection.Writer.{start}
use signalg.Connection.Balance.{IsBalanced, start-IsBalanced}
use signalg.Connection.Sent.{Delivers, sender-Delivers}
use signalg.Connection.Senders.{sends}
use signalg.Connection.Books.{sender-IsBalanced}
use signalg.Examples.Instances.{plain_encoders, plain_encoders-AppendsProto}
use signalg.Examples.ConnectionRuns.{json_config, new_conn}

abbrev call : Call
call = record { pick = true; ctx = none }

abbrev sent : Connection
sent = (send plain_encoders call (b'a' ∷ []) (some (1 ∷ 2 ∷ [])) new_conn).0

sender-Delivers_example : Delivers json_codec (pos 100) 0 (b'a' ∷ []) [] (1 ∷ 2 ∷ []) new_conn sent
unfolding new_connection send marshal_append begin_send_operation encoded_protocol_frame
    validate_protocol_frame validate_frame_kind is_control_frame_kind validate_method_name
    utf8_valid config_ensure_payload_size prepare_protocol_frame enqueue_frame
    observe_encoded_payload_size
sender-Delivers_example =
    sender-Delivers plain_encoders plain_encoders-AppendsProto call json_codec (pos 100)
      (sends (b'a' ∷ []) (some (1 ∷ 2 ∷ []))) (1 ∷ 2 ∷ []) new_conn sent refl refl refl

sender-IsBalanced_example : IsBalanced (record (start new_conn) { conn = sent })
sender-IsBalanced_example =
    sender-IsBalanced plain_encoders call (start new_conn) (sends (b'a' ∷ []) (some (1 ∷ 2 ∷ [])))
      (start-IsBalanced (b'c' ∷ []) (b'u' ∷ []) true (some json_config) 2 disconnect)
