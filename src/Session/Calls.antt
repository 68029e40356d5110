-- ===== src/Session/Calls.antt =====
-- The calls that `ServeHTTP` of server.go makes on the hub, the websocket and the response.
use signalg.Base.{◌≡◌, Bool, true, false, List, [], ◌∷◌, ◌++◌, All, some}
use signalg.Errors.{Error, ok, err, Checked, is_panic}
use signalg.Registry.Types.{Conn}
use signalg.Handler.Admission.{Handler}
use signalg.Dispatcher.Cache.{Cache}
use signalg.Session.World.{
  Packages, World, Hub, Run, Action, connected, disconnected, responds, closes_now, call_hub,
  run_handler_operation,
}
use signalg.Session.Reading.{read_loop}
use signalg.Session.Added.{is_traffic, Added}
use signalg.Session.Serve.{Site, Request, Screened, is_shutting_down, turned_away, upgraded}

-- A call that turns a request away or ends its websocket, and does not reach the hub.
abbrev pub is_refusal : Action → Bool
is_refusal (responds status) = true
is_refusal closes_now = true
is_refusal _ = false

abbrev pub Refusals : List Action → Type 0
Refusals = All (λ a. is_refusal a ≡ true)

module _ (lib : Packages) (q : Request lib) where
  -- The calls of one request: the hub is not called; or `OnConnected` alone is, which returns
  -- `ErrHandlerShuttingDown`; or no message is read between `OnConnected` and `OnDisconnected`, and
  -- the websocket is closed behind them; or messages are handled between them, and nothing is
  -- called behind; or handling a message panics.
  pub data IsSession : List Action → Type 0 where
    unheard : {calls : List Action} → Refusals calls → IsSession calls
    unwelcome :
        (v w : World lib) (hub : Hub lib) (e : Error)
        → (q.factory v).1 ≡ ok (some hub)
        → (hub.on_connected w).1 ≡ err e
        → is_shutting_down e ≡ true
        → IsSession (connected ∷ closes_now ∷ [])
    failed : (e : Error) → IsSession (connected ∷ disconnected e ∷ closes_now ∷ [])
    ended :
        (calls : List Action) (site : Site) (peer : Conn) (hub : Hub lib) (run : Run lib)
        → All (λ a. is_traffic a ≡ true) calls
        → IsSession (
            connected
            ∷ (calls
                ++ (disconnected (read_loop lib site.protocol peer hub q.incoming q.last run).1
                    ∷ [])))
    interrupted :
        (calls : List Action) (site : Site) (peer : Conn) (hub : Hub lib) (run : Run lib)
        → All (λ a. is_traffic a ≡ true) calls
        → is_panic (read_loop lib site.protocol peer hub q.incoming q.last run).1 ≡ true
        → IsSession (connected ∷ calls)

  greet : Hub lib → Run lib → Run lib × Checked
  greet hub = run_handler_operation lib (call_hub lib connected hub.on_connected)

  abbrev Refuses : Screened → Type 0
  Refuses (turned_away calls) = Refusals calls
  Refuses (upgraded id user_id) = Unit
