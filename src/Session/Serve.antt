-- ===== src/Session/Serve.antt =====
-- `ServeHTTP` of server.go, with `acceptOptions`, `resolveUserID` and `sendConnected`.
use signalg.Base.{
  ℕ, Bool, true, false, not, if◌then◌else◌, List, [], ◌∷◌, Bytes, bytes_eq, Option, none, some,
}
use signalg.Base.Int.{ℤ}
use signalg.Errors.{Error, Result, ok, err, Checked, handler_shutting_down, is_panic}
use signalg.Protocol.Types.{ProtocolConfig}
use signalg.Protocol.Codec.{config_serialization}
use signalg.Registry.Types.{Conn}
use signalg.Connection.State.{SlowConsumerPolicy, new_connection, close_context, close_now}
use signalg.Connection.Send.{send}
use signalg.Connected.{new_connected_payload, connected_body}
use signalg.Handler.Admission.{Handler, add_connection, remove_connection, finish_connection}
use signalg.Dispatcher.Cache.{Cache}
use signalg.Session.World.{
  Packages, World, Hub, Incoming, Action, Run, responds, closes_now, connected, disconnected, act,
  call_hub, with_conn, run_handler_operation, with_own_context,
}
use signalg.Session.Reading.{read_loop}

-- The options of `websocket.Accept` that `acceptOptions` sets; the others it passes on.
pub record OriginOptions : Type 0 where
  pub insecure_skip_verify : Bool
  pub origin_patterns : List Bytes

-- `acceptOptions`; the first argument says whether `CheckOrigin` is set.
unfoldable pub accept_options : Bool → OriginOptions → OriginOptions
accept_options check_origin cfg =
    if check_origin then record { insecure_skip_verify = true; origin_patterns = [] } else cfg

-- `resolveUserID`, with what the `UserProvider` answers, where there is one.
unfoldable pub resolve_user_id : Option (Result Bytes) → Result Bytes
resolve_user_id none = ok []
resolve_user_id (some answer) = answer

-- "server.connected".
abbrev pub connected_method : Bytes
connected_method =
    b's' ∷ b'e' ∷ b'r' ∷ b'v' ∷ b'e' ∷ b'r' ∷ b'.' ∷ b'c' ∷ b'o' ∷ b'n' ∷ b'n' ∷ b'e' ∷ b'c' ∷ b't'
    ∷ b'e' ∷ b'd' ∷ []

abbrev pub status_forbidden : ℕ
status_forbidden = 403

abbrev pub status_not_found : ℕ
status_not_found = 404

abbrev pub status_service_unavailable : ℕ
status_service_unavailable = 503

-- The configuration of the handler that a session reads.
pub record Site : Type 0 where
  pub path : Bytes
  pub protocol : Option ProtocolConfig
  pub send_queue_size : ℕ
  pub slow_consumer_policy : SlowConsumerPolicy
  pub ping_interval : ℤ

-- The code of `ServeHTTP` before there is a connection: it returns, or goes on with the ids of the
-- connection and the user.
pub data Screened : Type 0 where
  turned_away : List Action → Screened
  upgraded : Bytes → Bytes → Screened

abbrev pub is_path : Bytes → Option Bytes → Bool
is_path path none = false
is_path path (some p) = bytes_eq p path

abbrev pub denies : Option Bool → Bool
denies none = false
denies (some allowed) = not allowed

-- `errors.Is(err, ErrHandlerShuttingDown)`.
abbrev pub is_shutting_down : Error → Bool
is_shutting_down handler_shutting_down = true
is_shutting_down e = false

module _ (lib : Packages) where
  -- A request, and what the outside answers while it is served: the path of its URL, if it has one;
  -- `CheckOrigin`, if it is set; `websocket.Accept`; the new connection id; the user provider; the
  -- address of the new connection, and the text of the remote one; the hub factory, which may do
  -- anything that the program does until then; and the messages of the websocket, with the
  -- error that ends them.
  pub record Request : Type 0 where
    pub path : Option Bytes
    pub origin : Option Bool
    pub accepted : Checked
    pub connection_id : Result Bytes
    pub user_id : Option (Result Bytes)
    pub addr : ℕ
    pub remote_addr : Bytes
    pub factory : World lib → World lib × Result (Option (Hub lib))
    pub now : ℤ
    pub pick : Bool
    pub incoming : List (Incoming lib)
    pub last : Error

  -- From `websocket.Accept` to the user's id.
  unfoldable pub screen_accepted : Request → Screened
  unfolding resolve_user_id
  screen_accepted q = elim q.accepted [
    | err e ↦ turned_away []
    | ok u ↦ elim q.connection_id [
      | err e ↦ turned_away (closes_now ∷ [])
      | ok id ↦ elim (resolve_user_id q.user_id) [
        | err e ↦ turned_away (closes_now ∷ [])
        | ok user_id ↦ upgraded id user_id
      ]
    ]
  ]

  unfoldable pub screen : Site → Request → Bool → Screened
  unfolding screen_accepted
  screen site q shutting_down =
      if not (is_path site.path q.path)
      then turned_away (responds status_not_found ∷ [])
      else if shutting_down
      then turned_away (responds status_service_unavailable ∷ [])
      else if denies q.origin
      then turned_away (responds status_forbidden ∷ [])
      else screen_accepted q

  -- `removeConnection` of `ServeHTTP`; its variable `removed` is the Boolean.
  abbrev pub remove_once : Conn → Run lib × Bool → Run lib × Bool
  remove_once peer (run, true) = (run, true)
  remove_once peer (run, false) = (
    record run {
      world = record run.world { handler = remove_connection lib.map peer run.world.handler };
    },
    true,
  )

  abbrev pub call_on_disconnected : Hub lib → Error → Run lib → Run lib
  call_on_disconnected hub e run =
      (call_hub lib (disconnected e) (λ w. (hub.on_disconnected e w, ok tt)) run).0

  -- `removeConnection()` and `hub.OnDisconnected(conn.ctx, conn, err)`.
  unfoldable pub leave : Conn → Hub lib → Error → Run lib × Bool → Run lib × Bool
  unfolding remove_connection
  leave peer hub e state =
      let (run, removed) = remove_once peer state in (call_on_disconnected hub e run, removed)

  abbrev pub close_run_now : Run lib → Run lib
  close_run_now run = act lib closes_now (record run { world = with_conn lib close_now run.world })

  unfoldable pub send_connected : Site → Request → Conn → Run lib → Run lib × Checked
  send_connected site q peer run =
      let payload = new_connected_payload peer.id peer.user_id q.remote_addr site.ping_interval in
      let body = connected_body payload (config_serialization site.protocol) in
      let (w, r) =
        with_own_context lib q.pick
          (λ call. send lib.enc call connected_method (some (lib.connected body))) run.world in
      (record run { world = w }, r)

  -- The body of `ServeHTTP` behind `addConnection`, before the deferred calls. Where handling a
  -- message panics, only these are made.
  unfoldable pub run_session : Site → Request → Conn → Hub lib → Run lib → Run lib × Bool
  unfolding send_connected leave
  run_session site q peer hub run =
      let (greeted, r) = run_handler_operation lib (call_hub lib connected hub.on_connected) run in
      elim r [
        | err e ↦
            (if is_shutting_down e
              then (close_run_now greeted, false)
              else let (left, removed) = leave peer hub e (greeted, false) in
                (close_run_now left, removed))
        | ok u ↦
            (let (sent, s) = send_connected site q peer greeted in
              elim s [
                | err e ↦
                    (let (left, removed) = leave peer hub e (sent, false) in
                      (close_run_now left, removed))
                | ok v ↦
                    (let (done, e) = read_loop lib site.protocol peer hub q.incoming q.last sent in
                      if is_panic e then (done, false) else leave peer hub e (done, false))
              ])
      ]

  -- The deferred calls, the last first: `closeContext`, `removeConnection` and `finishConnection`.
  unfoldable pub deferred : Conn → Run lib × Bool → Run lib
  unfolding finish_connection close_context remove_connection
  deferred peer (run, removed) =
      let closed = record run { world = with_conn lib close_context run.world } in
      let (left, _) = remove_once peer (closed, removed) in
      record left {
        world = record left.world { handler = finish_connection lib.map left.world.handler };
      }

  -- `ws.CloseNow()` and `conn.closeContext()` of a connection that is not admitted.
  unfoldable pub drop_run : Run lib → Run lib
  unfolding close_context
  drop_run run =
      let closed = close_run_now run in
      record closed { world = with_conn lib close_context closed.world }

  unfoldable pub admit : Site → Request → Conn → Hub lib → Run lib → Run lib
  unfolding add_connection run_session deferred drop_run
  admit site q peer hub run =
      let (h, added) = add_connection lib.map q.now peer run.world.handler in
      let entered = record run { world = record run.world { handler = h } } in
      if added then deferred peer (run_session site q peer hub entered) else drop_run entered

  -- From `newConnection` on.
  unfoldable pub connect :
      Site → Request → Bytes → Bytes → Handler lib.map → Cache lib.reflection → Run lib
  unfolding admit new_connection
  connect site q id user_id h cache =
      let conn =
        new_connection id user_id true site.protocol site.send_queue_size
          site.slow_consumer_policy in
      let (w, r) = q.factory (record { handler = h; conn = conn; cache = cache }) in
      let made : Run lib = record { world = w; actions = [] } in
      elim r [
        | err e ↦ drop_run made
        | ok o ↦ elim o [
          | none ↦ drop_run made
          | some hub ↦ admit site q (record { addr = q.addr; id = id; user_id = user_id }) hub made
        ]
      ]

  -- `ServeHTTP`: the calls that it makes, and the handler behind it.
  unfoldable pub serve_http :
      Site → Request → Handler lib.map → Cache lib.reflection → Handler lib.map × List Action
  unfolding screen connect
  serve_http site q h cache = elim (screen site q h.shutting_down) [
    | turned_away actions ↦ (h, actions)
    | upgraded id user_id ↦
        (let run = connect site q id user_id h cache in (run.world.handler, run.actions))
  ]
