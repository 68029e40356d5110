-- ===== src/Session/Reading.antt =====
-- The read loop of server.go: `readLoop`, `handleProtocolPing` and `dispatchMessage`.
use signalg.Base.{ℕ, ◌==◌, Bool, if◌then◌else◌, List, [], ◌∷◌, Option, none, some}
use signalg.Errors.{
  Error, Result, ok, err, Checked, nil_error, is_panic, invalid_message_type, invalid_frame_kind,
}
use signalg.Protocol.Types.{
  ProtocolConfig, Message, frame_kind_message, frame_kind_invoke, frame_kind_ping, frame_kind_pong,
}
use signalg.Protocol.Decode.{config_decode_frame}
use signalg.Registry.Types.{Conn}
use signalg.Connection.Send.{pong, complete, complete_error}
use signalg.Connection.Close.{close_with_status}
use signalg.Handler.Admission.{handler_touch}
use signalg.Dispatcher.Routes.{HubDispatcher}
use signalg.Dispatcher.Cache.{Cache, dispatcher_for}
use signalg.Dispatcher.Dispatch.{dispatch}
use signalg.Session.World.{
  Packages, World, Hub, Incoming, Run, closes_with, pinged, received, dispatches, act, call_hub,
  with_conn, run_handler_operation, with_own_context,
}

-- Codes of RFC 6455.
abbrev pub status_protocol_error : ℕ
status_protocol_error = 1002

abbrev pub status_unsupported_data : ℕ
status_unsupported_data = 1003

unfoldable pub discard_value : {W A : Type 0} → W × Result A → W × Checked
discard_value (w, err e) = (w, err e)
discard_value (w, ok a) = (w, nil_error)

module _ (lib : Packages) where
  -- The reply to an invocation; none where the dispatcher panics.
  unfoldable pub reply :
      Bool → Message → World lib × Result (Option lib.enc.Value) → World lib × Checked
  reply pick msg (w, err e) =
      if is_panic e
      then (w, err e)
      else with_own_context lib pick
          (λ call. complete_error call msg.invocation_id (some (lib.error_string msg e))) w
  reply pick msg (w, ok res) =
      with_own_context lib pick (λ call. complete lib.enc call msg.invocation_id res) w

  unfoldable pub dispatch_message :
      Hub lib
      → Option (HubDispatcher lib.reflection)
      → Bool
      → Message
      → World lib
      → World lib × Checked
  unfolding reply discard_value
  dispatch_message hub dispatcher pick msg w =
      if msg.kind == frame_kind_message
      then discard_value (dispatch lib.enc lib.reflection hub.call dispatcher msg w)
      else if msg.kind == frame_kind_invoke
      then reply pick msg (dispatch lib.enc lib.reflection hub.call dispatcher msg w)
      else (w, err invalid_frame_kind)

  unfoldable pub ping_hub : Option (World lib → World lib) → Run lib → Run lib
  unfolding run_handler_operation
  ping_hub none run = run
  ping_hub (some on_ping) run =
      (run_handler_operation lib (call_hub lib pinged (λ w. (on_ping w, nil_error))) run).0

  unfoldable pub handle_protocol_ping : Hub lib → Bool → Run lib → Run lib × Checked
  unfolding ping_hub
  handle_protocol_ping hub pick run =
      let (w, r) = with_own_context lib pick pong run.world in
      let ponged = record run { world = w } in
      elim r [ err e ↦ (ponged, err e) | ok u ↦ (ping_hub hub.on_ping ponged, nil_error) ]

  -- What is done with a message that was decoded; `peer` is the connection in the registry.
  unfoldable pub handle_message :
      Conn
      → Hub lib
      → Option (HubDispatcher lib.reflection)
      → Incoming lib
      → Message
      → Run lib
      → Run lib × Checked
  unfolding handle_protocol_ping dispatch_message run_handler_operation
  handle_message peer hub dispatcher i msg run =
      let w = run.world in
      let touched = record run {
        world = record w { handler = handler_touch lib.map i.now peer w.handler };
      } in
      if msg.kind == frame_kind_ping
      then handle_protocol_ping hub i.pick touched
      else if msg.kind == frame_kind_pong
      then (touched, nil_error)
      else elim hub.on_message [
        | some f ↦ run_handler_operation lib (call_hub lib (received msg) (f msg)) touched
        | none ↦
            run_handler_operation lib
              (call_hub lib (dispatches msg) (dispatch_message hub dispatcher i.pick msg)) touched
      ]

  unfoldable pub close_run : ℕ → Checked → Run lib → Run lib
  unfolding close_with_status
  close_run code closing run =
      act lib (closes_with code)
        (record run { world = with_conn lib (λ c. (close_with_status closing c).0) run.world })

  -- One turn of the loop, for a message that has arrived.
  unfoldable pub read_message :
      Option ProtocolConfig
      → Conn
      → Hub lib
      → Option (HubDispatcher lib.reflection)
      → Incoming lib
      → Run lib
      → Run lib × Checked
  unfolding handle_message close_run
  read_message protocol peer hub dispatcher i run =
      let arrived = record run { world = i.others run.world } in
      if i.binary
      then elim i.body [
        | err e ↦ (arrived, err e)
        | ok frame ↦ elim (config_decode_frame protocol frame) [
          | err e ↦ (close_run status_protocol_error i.closing arrived, err e)
          | ok msg ↦ handle_message peer hub dispatcher i msg arrived
        ]
      ]
      else (close_run status_unsupported_data i.closing arrived, err invalid_message_type)

  -- The loop over the messages that arrive until `Reader` returns the error `last`.
  unfoldable pub read_messages :
      Option ProtocolConfig
      → Conn
      → Hub lib
      → Option (HubDispatcher lib.reflection)
      → List (Incoming lib)
      → Error
      → Run lib
      → Run lib × Error
  unfolding read_message
  read_messages protocol peer hub dispatcher [] last run = (run, last)
  read_messages protocol peer hub dispatcher (i ∷ is) last run =
      let (after, r) = read_message protocol peer hub dispatcher i run in
      elim r [
        | err e ↦ (after, e)
        | ok u ↦ read_messages protocol peer hub dispatcher is last after
      ]

  -- The loop behind `dispatcherFor`.
  unfoldable pub read_dispatched :
      Option ProtocolConfig
      → Conn
      → Hub lib
      → List (Incoming lib)
      → Error
      → Run lib
      → Cache lib.reflection × Result (HubDispatcher lib.reflection)
      → Run lib × Error
  unfolding read_messages
  read_dispatched protocol peer hub is last run (cache, err e) =
      (record run { world = record run.world { cache = cache } }, e)
  read_dispatched protocol peer hub is last run (cache, ok d) =
      read_messages protocol peer hub (some d) is last
        (record run { world = record run.world { cache = cache } })

  -- A hub that receives messages needs no dispatcher.
  unfoldable pub read_for :
      Option ProtocolConfig
      → Conn
      → Hub lib
      → List (Incoming lib)
      → Error
      → Run lib
      → Option (Message → World lib → World lib × Checked)
      → Run lib × Error
  unfolding read_messages read_dispatched dispatcher_for
  read_for protocol peer hub is last run (some on_message) =
      read_messages protocol peer hub none is last run
  read_for protocol peer hub is last run none =
      read_dispatched protocol peer hub is last run
        (dispatcher_for lib.reflection (some hub.hub_type) run.world.cache run.world.cache)

  -- `readLoop`.
  unfoldable pub read_loop :
      Option ProtocolConfig
      → Conn
      → Hub lib
      → List (Incoming lib)
      → Error
      → Run lib
      → Run lib × Error
  unfolding read_for
  read_loop protocol peer hub is last run = read_for protocol peer hub is last run hub.on_message
