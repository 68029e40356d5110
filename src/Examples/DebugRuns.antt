-- ===== src/Examples/DebugRuns.antt =====
-- The debug hub: an invocation that it completes, and a request that it serves.
use signalg.Connection.State.{new_connection}
use signalg.Connection.Send.{complete}
use signalg.Connection.Operations.{begin_send_operation}
use signalg.Connection.Queue.{enqueue_frame}
use signalg.Connection.Hint.{observe_encoded_payload_size}
use signalg.Protocol.Frame.{
  encoded_protocol_frame, config_ensure_payload_size, prepare_protocol_frame,
}
use signalg.Protocol.Validate.{validate_protocol_frame, validate_frame_kind, validate_invocation_id}
use signalg.Protocol.Types.{is_control_frame_kind}
use signalg.Text.{utf8_valid}
use signalg.Base.{refl, true, [], ◌∷◌, none, some}
use signalg.Base.Int.{pos}
use signalg.Errors.{external}
use signalg.Protocol.Types.{Message, json_codec, frame_kind_invoke}
use signalg.Protocol.Codec.{message_decode, marshal_append}
use signalg.Registry.Types.{connection_key, new_connection_registry}
use signalg.Registry.Consistent.{new-IsConsistent}
use signalg.Connection.Sent.{Delivers}
use signalg.Connection.Senders.{completes}
use signalg.Connection.Close.{string_addr}
use signalg.Dispatcher.Reflect.{other}
use signalg.Protocol.Layout.{message_of}
use signalg.Session.World.{World}
use signalg.Session.Settled.{IsLeft}
use signalg.Session.Serve.{serve_http}
use signalg.Base.Assoc.{lookup}
use signalg.DebugHub.Hub.{Debugging, debug_on_message, debug_request}
use signalg.DebugHub.Answers.{debug_on_message-Delivers}
use signalg.DebugHub.Tame.{debug_peer, serve_debug-IsLeft}
use signalg.Examples.Instances.{assoc_map-IsMap, plain_encoders-AppendsProto}
use signalg.Examples.SessionRuns.{packages, world, site, request, empty_handler, empty_cache}

abbrev debugging : Debugging packages
debugging = record {
  payload_value = λ p. p.body;
  target = [];
  time = [];
  resolver = record { TcpAddr = Unit; resolve = λ a. none; text = λ a. [] };
  remote = some (string_addr (b'h' ∷ []));
  unsupported = λ text. external 1;
  pick = true;
  hub_type = 0;
  reflected = record { kind = other; is_nil = true; value = [] };
  reflected_error = record { kind = other; is_nil = true; value = external 1 };
}

-- An invocation with one byte for its body.
abbrev invocation : Message
invocation = message_of json_codec frame_kind_invoke (b'e' ∷ []) (b'7' ∷ []) (b'x' ∷ [])

abbrev after : World packages
after = (debug_on_message packages debugging invocation world).0

debug_on_message-Delivers_example :
    Delivers json_codec (pos 100) 2 [] (b'7' ∷ []) (b'x' ∷ []) world.conn after.conn
unfolding new_connection debug_on_message message_decode complete begin_send_operation
    encoded_protocol_frame validate_protocol_frame validate_frame_kind is_control_frame_kind
    validate_invocation_id utf8_valid marshal_append config_ensure_payload_size
    prepare_protocol_frame enqueue_frame observe_encoded_payload_size
debug_on_message-Delivers_example =
    debug_on_message-Delivers packages debugging plain_encoders-AppendsProto json_codec (pos 100)
      invocation world after (completes (b'7' ∷ []) (some (b'x' ∷ []))) (b'x' ∷ []) refl refl refl
      refl

empty-IsLeft :
    IsLeft packages assoc_map-IsMap
      (connection_key (debug_peer packages debugging assoc_map-IsMap site request (b'1' ∷ [])))
      0
      empty_handler
unfolding new_connection_registry lookup
empty-IsLeft = record {
  consistent = new-IsConsistent packages.map assoc_map-IsMap;
  active = refl;
  gone = refl;
}

serve_debug-IsLeft_example :
    IsLeft packages assoc_map-IsMap
      (connection_key (debug_peer packages debugging assoc_map-IsMap site request (b'1' ∷ [])))
      0
      (serve_http packages site
        (debug_request packages debugging request)
        empty_handler
        empty_cache).0
serve_debug-IsLeft_example =
    serve_debug-IsLeft packages debugging assoc_map-IsMap site request (b'1' ∷ []) 0 empty_handler
      empty_cache refl (λ w i. i, (λ w i. i, tt)) empty-IsLeft
