-- ===== src/DebugHub/Hub.antt =====
-- `debugHub` of example/main.go. Logging is left out.
use signalg.Base.{ℕ, Bool, ◌==◌, if◌then◌else◌, [], ◌∷◌, Bytes, Option, none, some}
use signalg.Errors.{Error, Result, ok, err, Checked, nil_error}
use signalg.Protocol.Types.{Message, frame_kind_message, frame_kind_invoke}
use signalg.Protocol.Codec.{message_decode}
use signalg.Protocol.Names.{kind_string}
use signalg.Connection.Send.{send, complete, complete_error}
use signalg.Connection.Close.{Resolver, Addr, remote_addr}
use signalg.Dispatcher.Reflect.{ReflectValue}
use signalg.Session.World.{Packages, World, Hub, with_own_context}
use signalg.Session.Serve.{Request}

-- `debugPayload`.
pub record DebugPayload (Value : Type 0) : Type 0 where
  pub connection_id : Bytes
  pub user_id : Bytes
  pub remote_addr : Bytes
  pub method : Bytes
  pub kind : Bytes
  pub body : Value
  pub time : Bytes

-- "server.echo".
abbrev pub server_echo : Bytes
server_echo = b's' ∷ b'e' ∷ b'r' ∷ b'v' ∷ b'e' ∷ b'r' ∷ b'.' ∷ b'e' ∷ b'c' ∷ b'h' ∷ b'o' ∷ []

-- What the hub takes from elsewhere: the value of a payload, the variable of type `any` that it
-- decodes into, the text of the time, the package net with the
-- connection's remote address, the error for a kind that it does not
-- answer, how Go chooses among ready cases, and what a function that reflection finds on the hub would
-- return, which nobody calls.
pub record Debugging (lib : Packages) : Type 1 where
  pub payload_value : DebugPayload lib.enc.Value → lib.enc.Value
  pub target : lib.enc.Value
  pub time : Bytes
  pub resolver : Resolver
  pub remote : Option (Addr resolver)
  pub unsupported : Bytes → Error
  pub pick : Bool
  pub hub_type : ℕ
  pub reflected : ReflectValue lib.enc.Value
  pub reflected_error : ReflectValue Error

module _ (lib : Packages) (d : Debugging lib) where
  -- The payload of an answer. The `remoteAddr` of main.go is that of server.go, with a test for nil.
  abbrev pub debug_payload : Message → lib.enc.Value → World lib → DebugPayload lib.enc.Value
  debug_payload msg body w = record {
    connection_id = w.conn.id;
    user_id = w.conn.user_id;
    remote_addr = remote_addr d.resolver d.remote;
    method = msg.method;
    kind = kind_string msg.kind;
    body = body;
    time = d.time;
  }

  -- `OnMessage` behind the decoding of the body. The context that `readLoop` passes is the
  -- connection's own.
  unfoldable pub debug_answer : Message → World lib → Result lib.enc.Value → World lib × Checked
  debug_answer msg w (err e) =
      if msg.kind == frame_kind_invoke
      then with_own_context lib d.pick
          (λ call. complete_error call msg.invocation_id (some (lib.error_string msg e))) w
      else (w, nil_error)
  debug_answer msg w (ok body) =
      let payload = d.payload_value (debug_payload msg body w) in
      if msg.kind == frame_kind_message
      then with_own_context lib d.pick (λ call. send lib.enc call server_echo (some payload)) w
      else if msg.kind == frame_kind_invoke
      then with_own_context lib d.pick
          (λ call. complete lib.enc call msg.invocation_id (some payload)) w
      else (w, err (d.unsupported (kind_string msg.kind)))

  -- `OnMessage`.
  unfoldable pub debug_on_message : Message → World lib → World lib × Checked
  unfolding debug_answer
  debug_on_message msg w = debug_answer msg w (message_decode lib.enc msg d.target)

  -- `&debugHub{logger: logger}`: `OnConnected` and `OnDisconnected` only log.
  unfoldable pub debug_hub : Hub lib
  unfolding debug_on_message
  debug_hub = record {
    hub_type = d.hub_type;
    on_connected = λ w. (w, nil_error);
    on_disconnected = λ e w. w;
    on_message = some debug_on_message;
    on_ping = none;
    call = λ n v w. (w, d.reflected, d.reflected_error);
  }

  -- "1000".
  abbrev pub debug_user : Bytes
  debug_user = b'1' ∷ b'0' ∷ b'0' ∷ b'0' ∷ []

  -- A request to the handler that `main` makes: its factory returns a new debug hub, and its user
  -- provider the same user for everyone.
  abbrev pub debug_request : Request lib → Request lib
  debug_request q = record q {
    factory = λ w. (w, ok (some debug_hub));
    user_id = some (ok debug_user);
  }
