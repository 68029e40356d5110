-- ===== src/Examples/DispatchRuns.antt =====
-- An invocation of the hub's method, and its reply.
use signalg.Protocol.Validate.{validate_invocation_id}
use signalg.Base.{bytes_eq}
use signalg.Dispatcher.Dispatch.{dispatch_route, returned, is_nil_value}
use signalg.Protocol.Codec.{message_decode, codec_unmarshal, marshal_append}
use signalg.Session.Reading.{reply}
use signalg.Connection.State.{new_connection}
use signalg.Connection.Send.{complete}
use signalg.Connection.Operations.{begin_send_operation}
use signalg.Connection.Queue.{enqueue_frame}
use signalg.Connection.Hint.{observe_encoded_payload_size}
use signalg.Protocol.Frame.{
  encoded_protocol_frame, config_ensure_payload_size, prepare_protocol_frame,
}
use signalg.Protocol.Validate.{validate_protocol_frame, validate_frame_kind, validate_method_name}
use signalg.Protocol.Types.{is_control_frame_kind}
use signalg.Text.{utf8_valid}
use signalg.Base.{bytes_eq, ◌≡◌, refl, true, [], ◌∷◌, some}
use signalg.Base.Assoc.{lookup}
use signalg.Base.Int.{pos}
use signalg.Errors.{ok}
use signalg.Protocol.Types.{json_codec, Message, frame_kind_invoke}
use signalg.Connection.Sent.{Delivers}
use signalg.Dispatcher.Routes.{build_dispatcher, HubDispatcher}
use signalg.Dispatcher.Cache.{IsBuilt, dispatcher_for, dispatcher_for-build_dispatcher}
use signalg.Dispatcher.Dispatch.{dispatch}
use signalg.Session.World.{World}
use signalg.Session.Reading.{dispatch_message}
use signalg.Session.Reply.{dispatch_message-Delivers}
use signalg.Examples.Instances.{plain_encoders-AppendsProto}
use signalg.Examples.ConnectionRuns.{new_conn}
use signalg.Examples.SessionRuns.{reflection, packages, hub, world, empty_cache}

abbrev invocation : Message
invocation = record {
  header = record {
    magic = 5;
    version = 1;
    codec = 2;
    kind = frame_kind_invoke;
    method_len = 1;
    invocation_id_len = 1;
    body_len = 1;
  };
  kind = frame_kind_invoke;
  method = b'e' ∷ [];
  invocation_id = b'7' ∷ [];
  payload = b'x' ∷ [];
  codec = some json_codec;
}

abbrev dispatcher : HubDispatcher reflection
dispatcher = build_dispatcher reflection 0

abbrev answered : World packages
answered = (dispatch_message packages hub (some dispatcher) true invocation world).0

dispatch_message-Delivers_example :
    Delivers json_codec (pos 100) 2 [] (b'7' ∷ []) (b'x' ∷ []) new_conn answered.conn
unfolding dispatch dispatch_route returned is_nil_value message_decode codec_unmarshal lookup
    bytes_eq build_dispatcher dispatch_message reply new_connection complete marshal_append
    begin_send_operation encoded_protocol_frame validate_protocol_frame validate_frame_kind
    is_control_frame_kind validate_method_name utf8_valid config_ensure_payload_size
    prepare_protocol_frame enqueue_frame observe_encoded_payload_size validate_invocation_id
dispatch_message-Delivers_example =
    dispatch_message-Delivers packages plain_encoders-AppendsProto json_codec (pos 100) invocation
      hub (some dispatcher) true world answered (b'x' ∷ []) refl refl refl refl

empty-IsBuilt : IsBuilt reflection empty_cache
empty-IsBuilt t d h = cc

dispatcher_for-build_dispatcher_example :
    ((dispatcher_for reflection (some 0) empty_cache empty_cache).1
      ≡ ok (build_dispatcher reflection 0))
    × IsBuilt reflection (dispatcher_for reflection (some 0) empty_cache empty_cache).0
dispatcher_for-build_dispatcher_example =
    dispatcher_for-build_dispatcher reflection 0 empty_cache empty_cache empty-IsBuilt empty-IsBuilt
