-- ===== src/Session/Keeps.antt =====
-- What the read loop of server.go leaves as it is, if the hub does.
use signalg.Base.{
  ℕ, ◌≡◌, ◌==◌, refl, inl, inr, Bool, Bool-cases, Option-cases, List, [], ◌∷◌, Option, none, some,
  All, arith,
}
use signalg.Base.Int.{ℤ}
use signalg.Base.Assoc.{lookup}
use signalg.Errors.{Error, Result, ok, err, Checked, Result-cases, nil_error, is_panic}
use signalg.Protocol.Types.{
  ProtocolConfig, Message, frame_kind_message, frame_kind_invoke, frame_kind_ping, frame_kind_pong,
}
use signalg.Protocol.Codec.{message_decode}
use signalg.Protocol.Decode.{config_decode_frame}
use signalg.Registry.Types.{Conn}
use signalg.Connection.Send.{pong}
use signalg.Connection.Operations.{begin_handler_operation}
use signalg.Handler.Admission.{Handler, handler_touch}
use signalg.Dispatcher.Routes.{HubRoute, HubDispatcher}
use signalg.Dispatcher.Cache.{Cache, dispatcher_for}
use signalg.Dispatcher.Dispatch.{dispatch, dispatch_route, returned, Results}
use signalg.Session.World.{
  Packages, World, Hub, Incoming, Run, pinged, received, dispatches, call_hub,
  run_handler_operation, with_own_context,
}
use signalg.Session.Reading.{
  dispatch_message, reply, discard_value, handle_protocol_ping, ping_hub, handle_message,
  read_message, read_messages, read_dispatched, read_for, read_loop, close_run,
}

module _ (lib : Packages) (I : Handler lib.map → Type 0) where
  -- A function of the program keeps a property of the handler.
  abbrev pub Keeps : (World lib → World lib) → Type 0
  Keeps f = (w : World lib) → I w.handler → I (f w).handler

  pub record HubKeeps (hub : Hub lib) : Type 0 where
    pub on_connected : Keeps (λ w. (hub.on_connected w).0)
    pub on_disconnected : (e : Error) → Keeps (hub.on_disconnected e)
    pub on_message :
        (f : Message → World lib → World lib × Checked) (msg : Message)
        → hub.on_message ≡ some f
        → Keeps (λ w. (f msg w).0)
    pub on_ping : (f : World lib → World lib) → hub.on_ping ≡ some f → Keeps f
    pub call : (n : ℕ) (v : lib.enc.Value) → Keeps (λ w. (hub.call n v w).0)

  abbrev RunKeeps : (Run lib → Run lib × Checked) → Type 0
  RunKeeps f = (run : Run lib) → I run.world.handler → I (f run).0.world.handler

  pub run_handler_operation-keeps :
      (f : Run lib → Run lib × Checked) → RunKeeps f → RunKeeps (run_handler_operation lib f)
  unfolding run_handler_operation
  run_handler_operation-keeps f k run i =
      elim (Bool-cases (begin_handler_operation run.world.conn).1) [
        | inl e ↦ rw (e, run_handler_operation) (k _ i)
        | inr e ↦ rw (e, run_handler_operation) i
      ]

  module _ (hub : Hub lib) (kept : HubKeeps hub) where
    returned-keeps :
        (r : Results (World lib) lib.enc.Value) → I r.0.handler → I (returned r).0.handler
    unfolding returned
    returned-keeps (w, v, x) i = ground (arith, i)

    dispatch_route-keeps :
        (msg : Message) (o : Option (HubRoute lib.reflection)) (w : World lib)
        → I w.handler
        → I (dispatch_route lib.enc lib.reflection hub.call msg o w).0.handler
    unfolding dispatch_route
    dispatch_route-keeps msg none w i = i
    dispatch_route-keeps msg (some route) w i =
        elim (Result-cases (message_decode lib.enc msg (lib.reflection.new_value route.req_type))) [
          | inl (req, e) ↦
              rw (e, dispatch_route)
                (returned-keeps (hub.call route.method req w) (kept.call route.method req w i))
          | inr (x, e) ↦ rw (e, dispatch_route) i
        ]

    dispatch-keeps :
        (d : Option (HubDispatcher lib.reflection)) (msg : Message) (w : World lib)
        → I w.handler
        → I (dispatch lib.enc lib.reflection hub.call d msg w).0.handler
    unfolding dispatch
    dispatch-keeps none msg w i = i
    dispatch-keeps (some d) msg w i = dispatch_route-keeps msg (lookup msg.method d.routes) w i

    reply-keeps :
        (pick : Bool) (msg : Message) (r : World lib × Result (Option lib.enc.Value))
        → I r.0.handler
        → I (reply lib pick msg r).0.handler
    unfolding reply
    reply-keeps pick msg (w, err e) i = elim (Bool-cases (is_panic e)) [
      | inl p ↦ rw (p, reply) i
      | inr p ↦ rw (p, reply) i
    ]
    reply-keeps pick msg (w, ok v) i = i

    discard_value-keeps :
        (r : World lib × Result (Option lib.enc.Value))
        → I r.0.handler
        → I (discard_value r).0.handler
    unfolding discard_value
    discard_value-keeps (w, err e) i = i
    discard_value-keeps (w, ok v) i = i

    dispatch_message-keeps :
        (d : Option (HubDispatcher lib.reflection)) (pick : Bool) (msg : Message)
        → Keeps (λ w. (dispatch_message lib hub d pick msg w).0)
    unfolding dispatch_message
    dispatch_message-keeps d pick msg w i =
        let j = dispatch-keeps d msg w i in
        elim (Bool-cases (msg.kind == frame_kind_message)) [
          | inl e ↦ rw (e, dispatch_message) (discard_value-keeps _ j)
          | inr e ↦ elim (Bool-cases (msg.kind == frame_kind_invoke)) [
            | inl f ↦ rw (e, f, dispatch_message) (reply-keeps pick msg _ j)
            | inr f ↦ rw (e, f, dispatch_message) i
          ]
        ]

    ping_hub-keeps :
        (o : Option (World lib → World lib))
        → ((f : World lib → World lib) → o ≡ some f → Keeps f)
        → (run : Run lib) → I run.world.handler
        → I (ping_hub lib o run).world.handler
    unfolding ping_hub
    ping_hub-keeps none k run i = i
    ping_hub-keeps (some f) k run i =
        run_handler_operation-keeps (call_hub lib pinged (λ w. (f w, nil_error)))
          (λ r j. k f refl r.world j) run i

    handle_protocol_ping-keeps : (pick : Bool) → RunKeeps (handle_protocol_ping lib hub pick)
    unfolding handle_protocol_ping
    handle_protocol_ping-keeps pick run i =
        elim (Result-cases (with_own_context lib pick pong run.world).1) [
          | inl (u, e) ↦ rw (e, handle_protocol_ping) (ping_hub-keeps hub.on_ping kept.on_ping _ i)
          | inr (x, e) ↦ rw (e, handle_protocol_ping) i
        ]

    module _ (peer : Conn)
        (touches : (now : ℤ) (h : Handler lib.map)
          → I h
          → I (handler_touch lib.map now peer h)) where
      handle_message-keeps :
          (d : Option (HubDispatcher lib.reflection)) (i : Incoming lib) (msg : Message)
          → RunKeeps (handle_message lib peer hub d i msg)
      unfolding handle_message
      handle_message-keeps d i msg run j =
          let t = touches i.now run.world.handler j in
          elim (Bool-cases (msg.kind == frame_kind_ping)) [
            | inl e ↦ rw (e, handle_message) (handle_protocol_ping-keeps i.pick _ t)
            | inr e ↦ elim (Bool-cases (msg.kind == frame_kind_pong)) [
              | inl f ↦ rw (e, f, handle_message) t
              | inr f ↦ elim (Option-cases hub.on_message) [
                | inl m ↦
                    rw (e, f, m, handle_message)
                      (run_handler_operation-keeps
                        (call_hub lib (dispatches msg) (dispatch_message lib hub d i.pick msg))
                        (λ r k. dispatch_message-keeps d i.pick msg r.world k) _ t)
                | inr (g, m) ↦
                    rw (e, f, m, handle_message)
                      (run_handler_operation-keeps (call_hub lib (received msg) (g msg))
                        (λ r k. kept.on_message g msg m r.world k) _ t)
              ]
            ]
          ]

      read_message-keeps :
          (protocol : Option ProtocolConfig) (d : Option (HubDispatcher lib.reflection))
          (i : Incoming lib)
          → Keeps i.others
          → RunKeeps (read_message lib protocol peer hub d i)
      unfolding read_message close_run
      read_message-keeps protocol d i k run j =
          let a = k run.world j in
          elim (Bool-cases i.binary) [
            | inr e ↦ rw (e, read_message) a
            | inl e ↦ elim (Result-cases i.body) [
              | inr (x, f) ↦ rw (e, f, read_message) a
              | inl (frame, f) ↦ elim (Result-cases (config_decode_frame protocol frame)) [
                | inr (x, g) ↦ rw (e, f, g, read_message) a
                | inl (msg, g) ↦ rw (e, f, g, read_message) (handle_message-keeps d i msg _ a)
              ]
            ]
          ]

      read_messages-keeps :
          (protocol : Option ProtocolConfig) (d : Option (HubDispatcher lib.reflection))
          (is : List (Incoming lib)) (last : Error)
          → All (λ (i : Incoming lib). Keeps i.others) is
          → (run : Run lib) → I run.world.handler
          → I (read_messages lib protocol peer hub d is last run).0.world.handler
      unfolding read_messages
      read_messages-keeps protocol d [] last ks run j = j
      read_messages-keeps protocol d (i ∷ is) last (k, ks) run j =
          let read = read_message-keeps protocol d i k run j in
          elim (Result-cases (read_message lib protocol peer hub d i run).1) [
            | inl (u, e) ↦ rw (e, read_messages) (read_messages-keeps protocol d is last ks _ read)
            | inr (x, e) ↦ rw (e, read_messages) read
          ]

      read_dispatched-keeps :
          (protocol : Option ProtocolConfig) (is : List (Incoming lib)) (last : Error)
          → All (λ (i : Incoming lib). Keeps i.others) is
          → (run : Run lib) → I run.world.handler
          → (found : Cache lib.reflection × Result (HubDispatcher lib.reflection))
          → I (read_dispatched lib protocol peer hub is last run found).0.world.handler
      unfolding read_dispatched
      read_dispatched-keeps protocol is last ks run j (cache, err e) = j
      read_dispatched-keeps protocol is last ks run j (cache, ok d) =
          read_messages-keeps protocol (some d) is last ks _ j

      pub read_loop-keeps :
          (protocol : Option ProtocolConfig) (is : List (Incoming lib)) (last : Error)
          → All (λ (i : Incoming lib). Keeps i.others) is
          → (run : Run lib) → I run.world.handler
          → I (read_loop lib protocol peer hub is last run).0.world.handler
      unfolding read_loop read_for
      read_loop-keeps protocol is last ks run j = elim (Option-cases hub.on_message) [
        | inr (f, m) ↦ rw (m, read_for) (read_messages-keeps protocol none is last ks run j)
        | inl m ↦
            rw (m, read_for)
              (read_dispatched-keeps protocol is last ks run j
                (dispatcher_for lib.reflection (some hub.hub_type) run.world.cache run.world.cache))
      ]
