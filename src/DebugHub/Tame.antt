-- ===== src/DebugHub/Tame.antt =====
-- Sessions of the debug hub of example/main.go.
use signalg.Base.{ℕ, ◌+◌, ◌≡◌, sym, arith, subst, Bytes, All, refl}
use signalg.Errors.{Error, Result, ok, err, Checked, ok-injective}
use signalg.Protocol.Types.{Message}
use signalg.Protocol.Codec.{message_decode}
use signalg.Registry.ShardMap.{IsMap}
use signalg.Registry.Types.{Conn, connection_key}
use signalg.Dispatcher.Cache.{Cache}
use signalg.Handler.Admission.{Handler}
use signalg.Session.World.{Packages, World, Incoming}
use signalg.Session.Keeps.{Keeps, HubKeeps}
use signalg.Session.Settled.{IsServed, IsLeft}
use signalg.Session.Left.{IsTame, IsTameRequest, peer_of, serve_http-IsLeft}
use signalg.Session.Serve.{Site, Request, serve_http, resolve_user_id}
use signalg.DebugHub.Hub.{
  Debugging, debug_answer, debug_on_message, debug_hub, debug_request, debug_user,
}

module _ (lib : Packages) (d : Debugging lib) where
  -- The hub leaves the handler alone.
  debug_answer-handler :
      (msg : Message) (w : World lib) (r : Result lib.enc.Value)
      → (debug_answer lib d msg w r).0.handler ≡ w.handler
  unfolding debug_answer
  debug_answer-handler msg w (err e) = ground arith
  debug_answer-handler msg w (ok body) = ground arith

  debug_on_message-handler :
      (msg : Message) (w : World lib) → (debug_on_message lib d msg w).0.handler ≡ w.handler
  unfolding debug_on_message
  debug_on_message-handler msg w = debug_answer-handler msg w (message_decode lib.enc msg d.target)

  debug_hub-HubKeeps : (I : Handler lib.map → Type 0) → HubKeeps lib I (debug_hub lib d)
  unfolding debug_hub
  debug_hub-HubKeeps I = record {
    on_connected = λ w i. i;
    on_disconnected = λ e w i. i;
    on_message = λ f msg h w i.
        let same : debug_on_message lib d ≡ f = cc h in
        subst (λ (g : Message → World lib → World lib × Checked). I (g msg w).0.handler) same
          (subst I (sym (debug_on_message-handler msg w)) i);
    on_ping = λ f h. cc h;
    call = λ n v w i. i;
  }

module _ (lib : Packages) (d : Debugging lib) (laws : IsMap lib.map) (site : Site) (q : Request lib)
    (id : Bytes) where
  -- The connection of the request.
  abbrev pub debug_peer : Conn
  debug_peer = peer_of lib laws site (debug_request lib d q) id (debug_user lib d)

  debug_request-IsTameRequest :
      (n : ℕ)
      → All
          (λ (i : Incoming lib).
            Keeps lib (IsServed lib laws (connection_key debug_peer) (n + 1) debug_peer) i.others)
          q.incoming
      → IsTameRequest lib laws debug_peer n (debug_request lib d q)
  debug_request-IsTameRequest n quiet = record {
    factory = λ w i. i;
    hub = λ w g h.
        let same : debug_hub lib d ≡ g = cc (ok-injective h) in
        subst (IsTame lib laws debug_peer n) same (record {
          kept =
              debug_hub-HubKeeps lib d
                (IsServed lib laws (connection_key debug_peer) (n + 1) debug_peer);
          leaves = λ e w i. debug_leaves n e w i;
        });
    incoming = quiet;
  }
    where
      debug_leaves :
          (n : ℕ) (e : Error)
          → Keeps lib
              (IsLeft lib laws (connection_key debug_peer) (n + 1))
              ((debug_hub lib d).on_disconnected e)
      debug_leaves n e w i = unfold debug_hub in i

  -- Whatever a request to the example's handler comes to, and whatever its peer sends, on a handler
  -- whose registry is consistent and has no connection under the key of the new one, where the rest
  -- of the program keeps the registry consistent, registers no other connection under the key, and
  -- leaves the number of connections that have not finished as it is: when `ServeHTTP` has returned,
  -- none is registered under the key, as many connections have not finished as before, and the
  -- registry is consistent.
  pub serve_debug-IsLeft :
      (n : ℕ) (h : Handler lib.map) (cache : Cache lib.reflection)
      → q.connection_id ≡ ok id
      → All
          (λ (i : Incoming lib).
            Keeps lib (IsServed lib laws (connection_key debug_peer) (n + 1) debug_peer) i.others)
          q.incoming
      → IsLeft lib laws (connection_key debug_peer) n h
      → IsLeft lib laws
          (connection_key debug_peer)
          n
          (serve_http lib site (debug_request lib d q) h cache).0
  unfolding resolve_user_id
  serve_debug-IsLeft n h cache c quiet v =
      serve_http-IsLeft lib laws site (debug_request lib d q) id (debug_user lib d) n h cache c refl
        (debug_request-IsTameRequest n quiet) v
