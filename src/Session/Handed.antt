-- ===== src/Session/Handed.antt =====
-- What handling one message of server.go's read loop hands on to the hub.
use signalg.Base.{
  ◌≡◌, ◌==◌, refl, ◌⊎◌, inl, inr, Bool, true, ◌||◌, if◌then◌else◌, Bool-cases, Option-cases, List,
  [], ◌∷◌, Option, none, some,
}
use signalg.Errors.{err, Checked, Result-cases, nil_error, handler_shutting_down}
use signalg.Protocol.Types.{Message, frame_kind_ping, frame_kind_pong}
use signalg.Registry.Types.{Conn}
use signalg.Connection.Send.{pong}
use signalg.Connection.Operations.{begin_handler_operation}
use signalg.Dispatcher.Routes.{HubDispatcher}
use signalg.Session.World.{
  Packages, World, Hub, Incoming, Run, Action, pinged, received, dispatches, call_hub,
  run_handler_operation, with_own_context,
}
use signalg.Session.Reading.{dispatch_message, handle_protocol_ping, ping_hub, handle_message}
use signalg.Session.Added.{is_traffic, heard, Added, Added-same, Added-one}

-- What a message has for the hub: itself, unless it is a ping or a pong.
abbrev pub for_hub : Message → List Message
for_hub msg =
    if (msg.kind == frame_kind_ping) || (msg.kind == frame_kind_pong) then [] else msg ∷ []

module _ (lib : Packages) (peer : Conn) (hub : Hub lib)
    (d : Option (HubDispatcher lib.reflection)) where
  -- A call that is not begun has handed nothing on.
  abbrev pub Handed : List Action → List Message → Run lib × Checked → Type 0
  Handed before ms (run, r) =
      (Added before run.actions [] × (r ≡ err handler_shutting_down)) ⊎ Added before run.actions ms

  operation-Handed :
      (a : Action) (f : World lib → World lib × Checked) (run : Run lib)
      → is_traffic a ≡ true
      → Handed run.actions (heard (a ∷ [])) (run_handler_operation lib (call_hub lib a f) run)
  unfolding run_handler_operation
  operation-Handed a f run t = elim (Bool-cases (begin_handler_operation run.world.conn).1) [
    | inl e ↦ rw (e, run_handler_operation) (inr (Added-one run.actions a t))
    | inr e ↦ rw (e, run_handler_operation) (inl (Added-same run.actions, refl))
  ]

  -- The ping's callback may fail to begin, and is left out then.
  quiet-Handed :
      {before : List Action} (p : Run lib × Checked)
      → Handed before [] p
      → Added before p.0.actions []
  quiet-Handed p (inl (a, h)) = a
  quiet-Handed p (inr a) = a

  ping_hub-Added :
      (o : Option (World lib → World lib)) (run : Run lib)
      → Added run.actions (ping_hub lib o run).actions []
  unfolding ping_hub
  ping_hub-Added none run = Added-same run.actions
  ping_hub-Added (some f) run =
      quiet-Handed (run_handler_operation lib (call_hub lib pinged (λ w. (f w, nil_error))) run)
        (operation-Handed pinged (λ w. (f w, nil_error)) run refl)

  handle_protocol_ping-Added :
      (pick : Bool) (run : Run lib)
      → Added run.actions (handle_protocol_ping lib hub pick run).0.actions []
  unfolding handle_protocol_ping
  handle_protocol_ping-Added pick run =
      elim (Result-cases (with_own_context lib pick pong run.world).1) [
        | inl (u, e) ↦
            rw (e, handle_protocol_ping)
              (ping_hub-Added hub.on_ping
                (record run { world = (with_own_context lib pick pong run.world).0 }))
        | inr (x, e) ↦ rw (e, handle_protocol_ping) (Added-same run.actions)
      ]

  pub handle_message-Handed :
      (i : Incoming lib) (msg : Message) (run : Run lib)
      → Handed run.actions (for_hub msg) (handle_message lib peer hub d i msg run)
  unfolding handle_message
  handle_message-Handed i msg run = elim (Bool-cases (msg.kind == frame_kind_ping)) [
    | inl e ↦ rw (e, handle_message) (inr (handle_protocol_ping-Added i.pick _))
    | inr e ↦ elim (Bool-cases (msg.kind == frame_kind_pong)) [
      | inl f ↦ rw (e, f, handle_message) (inr (Added-same run.actions))
      | inr f ↦ elim (Option-cases hub.on_message) [
        | inl m ↦
            rw (e, f, m, handle_message)
              (operation-Handed (dispatches msg) (dispatch_message lib hub d i.pick msg) _ refl)
        | inr (g, m) ↦ rw (e, f, m, handle_message) (operation-Handed (received msg) (g msg) _ refl)
      ]
    ]
  ]
