-- ===== src/Session/World.antt =====
-- What `ServeHTTP` and the read loop of server.go work on: the state that they share with the
-- hub, the hub, and the calls on the outside that they make.
use signalg.Base.{ℕ, Bool, if◌then◌else◌, List, [], ◌∷◌, ◌++◌, Bytes, Option}
use signalg.Base.Int.{ℤ}
use signalg.Errors.{Error, Result, err, Checked, handler_shutting_down}
use signalg.Protocol.Types.{Message}
use signalg.Protocol.Codec.{Encoders}
use signalg.Registry.ShardMap.{ShardMap}
use signalg.Connection.State.{Connection, ctx_err}
use signalg.Connection.Operations.{begin_handler_operation, end_handler_operation}
use signalg.Connection.Send.{Call}
use signalg.Connected.{ConnectedBody}
use signalg.Handler.Admission.{Handler}
use signalg.Dispatcher.Reflect.{Reflection}
use signalg.Dispatcher.Dispatch.{Results}
use signalg.Dispatcher.Cache.{Cache}

-- The packages that a session uses; `connected` makes a Go value of the connected message's
-- body, and `error_string` is what `Error` prints of an error that handling a message has returned.
pub record Packages : Type 1 where
  pub map : ShardMap
  pub enc : Encoders
  pub reflection : Reflection enc.Value
  pub connected : ConnectedBody → enc.Value
  pub error_string : Message → Error → Bytes

-- A call on the websocket, the response or the hub, in the order in which they are made.
pub data Action : Type 0 where
  -- `http.NotFound` or `http.Error`, by its status
  responds : ℕ → Action
  -- `ws.CloseNow()`
  closes_now : Action
  -- `CloseWithStatus`, by its code
  closes_with : ℕ → Action
  -- `OnConnected`, `OnMessage`, `OnPing` and `OnDisconnected`
  connected : Action
  received : Message → Action
  pinged : Action
  disconnected : Error → Action
  -- a call of `dispatchMessage`
  dispatches : Message → Action

module _ (lib : Packages) where
  -- `cache` is the cache of dispatchers.
  pub record World : Type 0 where
    pub handler : Handler lib.map
    pub conn : Connection
    pub cache : Cache lib.reflection

  -- A hub that is not nil: `on_message` is there if it is a `MessageHub`, `on_ping` if it is a
  -- `PingHub`; `call` is what the functions of its methods do.
  pub record Hub : Type 0 where
    pub hub_type : ℕ
    pub on_connected : World → World × Checked
    pub on_disconnected : Error → World → World
    pub on_message : Option (Message → World → World × Checked)
    pub on_ping : Option (World → World)
    pub call : ℕ → lib.enc.Value → World → Results World lib.enc.Value

  -- A message that the websocket's `Reader` returns: whether it is binary, and what `ReadFrom`
  -- reads of it. `others` is what the rest of the program does until it is there, `now` the time
  -- then, and `pick` how Go chooses among ready cases while it is handled.
  pub record Incoming : Type 0 where
    pub others : World → World
    pub binary : Bool
    pub body : Result Bytes
    pub closing : Checked
    pub now : ℤ
    pub pick : Bool

  pub record Run : Type 0 where
    pub world : World
    pub actions : List Action

  abbrev pub act : Action → Run → Run
  act a run = record run { actions = run.actions ++ (a ∷ []) }

  -- A call of the hub.
  abbrev pub call_hub : Action → (World → World × Checked) → Run → Run × Checked
  call_hub a f run =
      let (w, r) = f run.world in (record { world = w; actions = run.actions ++ (a ∷ []) }, r)

  abbrev pub with_conn : (Connection → Connection) → World → World
  with_conn f w = record w { conn = f w.conn }

  -- `runHandlerOperation`.
  unfoldable pub run_handler_operation : (Run → Run × Checked) → Run → Run × Checked
  unfolding begin_handler_operation end_handler_operation
  run_handler_operation f run =
      let (c, begun) = begin_handler_operation run.world.conn in
      let started = record run { world = record run.world { conn = c } } in
      if begun
      then (let (after, r) = f started in
          (record after { world = with_conn end_handler_operation after.world }, r))
      else (started, err handler_shutting_down)

  -- A sender of the connection that is called with the connection's own context.
  abbrev pub with_own_context :
      Bool → (Call → Connection → Connection × Checked) → World → World × Checked
  with_own_context pick sender w =
      let (c, r) = sender (record { pick = pick; ctx = ctx_err w.conn }) w.conn in
      (record w { conn = c }, r)
