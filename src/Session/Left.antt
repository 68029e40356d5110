-- ===== src/Session/Left.antt =====
-- What is left in the handler when `ServeHTTP` of server.go has returned.
use signalg.Base.{
  ℕ, ◌+◌, ◌≡◌, refl, ap, ◌∙◌, ◌⊎◌, inl, inr, Bool, true, false, Bool-cases, Option-cases, List,
  Bytes, [], ◌∷◌, All, some,
}
use signalg.Errors.{Error, ok, Result-cases, is_panic}
use signalg.Registry.ShardMap.{IsMap}
use signalg.Registry.Types.{Conn, connection_key}
use signalg.Handler.Admission.{Handler, add_connection}
use signalg.Dispatcher.Cache.{Cache}
use signalg.Connection.State.{new_connection}
use signalg.Session.World.{
  Packages, World, Hub, Incoming, Run, Action, connected, responds, call_hub, run_handler_operation,
}
use signalg.Session.Keeps.{Keeps, HubKeeps, run_handler_operation-keeps, read_loop-keeps}
use signalg.Session.Reading.{read_loop}
use signalg.Session.Settled.{
  IsServed, IsLeft, removed-IsLeft, add_connection-cases, finished-IsLeft, touch-IsServed,
}
use signalg.Session.Serve.{
  Site, Request, run_session, deferred, admit, connect, serve_http, screen, screen_accepted,
  send_connected, leave, is_shutting_down, drop_run, turned_away, upgraded, resolve_user_id,
  status_not_found, status_forbidden, status_service_unavailable, is_path, denies,
}

module _ (lib : Packages) (laws : IsMap lib.map) (peer : Conn) (n : ℕ) where
  abbrev Served : Handler lib.map → Type 0
  Served = IsServed lib laws (connection_key peer) (n + 1) peer

  abbrev Left : ℕ → Handler lib.map → Type 0
  Left = IsLeft lib laws (connection_key peer)

  -- What a hub does while its connection is served: neither it nor `OnDisconnected` registers
  -- another connection under the key, and the connections that have not finished stay as many.
  pub record IsTame (hub : Hub lib) : Type 0 where
    pub kept : HubKeeps lib Served hub
    pub leaves : (e : Error) → Keeps lib (Left (n + 1)) (hub.on_disconnected e)

  -- A session leaves the connection registered only if it has not removed it.
  abbrev Done : Run lib × Bool → Type 0
  Done (run, true) = Left (n + 1) run.world.handler
  Done (run, false) = Served run.world.handler

  module _ (site : Site) (q : Request lib) (hub : Hub lib) (tame : IsTame hub)
      (quiet : All (λ (i : Incoming lib). Keeps lib Served i.others) q.incoming) where
    leave-Left :
        (e : Error) (run : Run lib)
        → Served run.world.handler
        → Done (leave lib peer hub e (run, false))
    unfolding leave
    leave-Left e run v = tame.leaves e _ (removed-IsLeft lib laws peer (n + 1) run.world.handler v)

    run_session-Done :
        (run : Run lib) → Served run.world.handler → Done (run_session lib site q peer hub run)
    unfolding run_session send_connected leave
    run_session-Done run v =
        let greet = run_handler_operation lib (call_hub lib connected hub.on_connected) in
        let v1 =
          run_handler_operation-keeps lib Served (call_hub lib connected hub.on_connected)
            (λ r w. tame.kept.on_connected r.world w) run v in
        elim (Result-cases (greet run).1) [
          | inr (e, t) ↦ elim (Bool-cases (is_shutting_down e)) [
            | inl s ↦ rw (t, s, run_session) v1
            | inr s ↦ rw (t, s, run_session) (leave-Left e (greet run).0 v1)
          ]
          | inl (u, t) ↦ elim (Result-cases (send_connected lib site q peer (greet run).0).1) [
            | inr (e, s) ↦
                rw (t, s, run_session)
                  (leave-Left e (send_connected lib site q peer (greet run).0).0 v1)
            | inl (x, s) ↦
                let sent = (send_connected lib site q peer (greet run).0).0 in
                let (done, e) = read_loop lib site.protocol peer hub q.incoming q.last sent in
                let v2 : Served done.world.handler =
                  read_loop-keeps lib Served hub tame.kept peer
                    (λ now h. touch-IsServed lib laws (connection_key peer) (n + 1) peer peer now h)
                    site.protocol q.incoming q.last quiet sent v1 in
                elim (Bool-cases (is_panic e)) [
                  | inl p ↦ rw (t, s, p, run_session) v2
                  | inr p ↦ rw (t, s, p, run_session) (leave-Left e done v2)
                ]
          ]
        ]

    deferred-Left :
        (state : Run lib × Bool) → Done state → Left n (deferred lib peer state).world.handler
    unfolding deferred
    deferred-Left (run, true) v = finished-IsLeft lib laws peer n run.world.handler v
    deferred-Left (run, false) v =
        finished-IsLeft lib laws peer n _ (removed-IsLeft lib laws peer (n + 1) run.world.handler v)

    admit-Left :
        (run : Run lib)
        → Left n run.world.handler
        → Left n (admit lib site q peer hub run).world.handler
    unfolding admit drop_run add_connection
    admit-Left run v =
        let entered : Run lib = record run {
          world = record run.world {
            handler = (add_connection lib.map q.now peer run.world.handler).0;
          };
        } in
        elim (add_connection-cases lib laws peer n q.now run.world.handler v) [
          | inr (s, w) ↦ rw (s, admit) w
          | inl (s, w) ↦
              rw (s, admit)
                (deferred-Left (run_session lib site q peer hub entered)
                  (run_session-Done entered w))
        ]

-- The program while a request is served: the factory and the hub do not register another connection
-- under the key of the new one, and no connection comes or finishes but the new one.
pub record IsTameRequest (lib : Packages) (laws : IsMap lib.map) (peer : Conn) (n : ℕ)
    (q : Request lib) : Type 0 where
  pub factory : Keeps lib (IsLeft lib laws (connection_key peer) n) (λ w. (q.factory w).0)
  pub hub :
      (w : World lib) (hub : Hub lib) → (q.factory w).1 ≡ ok (some hub) → IsTame lib laws peer n hub
  pub incoming :
      All
        (λ (i : Incoming lib).
          Keeps lib (IsServed lib laws (connection_key peer) (n + 1) peer) i.others)
        q.incoming

module _ (lib : Packages) (laws : IsMap lib.map) (site : Site) (q : Request lib)
    (id user_id : Bytes) where
  -- The connection that is made for the request.
  abbrev pub peer_of : Conn
  peer_of = record { addr = q.addr; id = id; user_id = user_id }

  screen-guards :
      (shutting_down : Bool)
      → q.connection_id ≡ ok id
      → resolve_user_id q.user_id ≡ ok user_id
      → is_path site.path q.path ≡ true
      → ((actions : List Action) × (screen lib site q shutting_down ≡ turned_away actions))
        ⊎ (screen lib site q shutting_down ≡ upgraded id user_id)
  unfolding screen screen_accepted
  screen-guards true c u e = inl (responds status_service_unavailable ∷ [], rw (e, screen) refl)
  screen-guards false c u e = elim (Bool-cases (denies q.origin)) [
    | inl d ↦ inl (responds status_forbidden ∷ [], rw (e, d, screen) refl)
    | inr d ↦ elim (Result-cases q.accepted) [
      | inr (x, a) ↦ inl ([], rw (e, d, a, screen) refl)
      | inl (x, a) ↦ inr (rw (e, d, a, c, u, screen) refl)
    ]
  ]

  screen-cases :
      (shutting_down : Bool)
      → q.connection_id ≡ ok id
      → resolve_user_id q.user_id ≡ ok user_id
      → ((actions : List Action) × (screen lib site q shutting_down ≡ turned_away actions))
        ⊎ (screen lib site q shutting_down ≡ upgraded id user_id)
  unfolding screen screen_accepted
  screen-cases shutting_down c u = elim (Bool-cases (is_path site.path q.path)) [
    | inr e ↦ inl (responds status_not_found ∷ [], rw (e, screen) refl)
    | inl e ↦ screen-guards shutting_down c u e
  ]

  connect-Left :
      (n : ℕ) (h : Handler lib.map) (cache : Cache lib.reflection)
      → IsTameRequest lib laws peer_of n q
      → IsLeft lib laws (connection_key peer_of) n h
      → IsLeft lib laws
          (connection_key peer_of)
          n
          (connect lib site q id user_id h cache).world.handler
  unfolding connect drop_run
  connect-Left n h cache tame v =
      let conn =
        new_connection id user_id true site.protocol site.send_queue_size
          site.slow_consumer_policy in
      let w : World lib = record { handler = h; conn = conn; cache = cache } in
      let made = tame.factory w v in
      elim (Result-cases (q.factory w).1) [
        | inr (e, t) ↦ rw (t, connect) made
        | inl (o, t) ↦ elim (Option-cases o) [
          | inl s ↦ rw (t, s, connect) made
          | inr (hub, s) ↦
              rw (t, s, connect)
                (admit-Left lib laws peer_of n site q hub (tame.hub w hub (t ∙ ap ok s))
                  tame.incoming _ made)
        ]
      ]

  -- Whatever a request comes to, on a handler whose registry is consistent and has no connection
  -- under the key of the new one, where the factory, the hub and what the rest of the program does
  -- meanwhile keep the registry consistent, register no other connection under the key, and leave
  -- the number of connections that have not finished as it is: when `ServeHTTP` has returned,
  -- whether it has turned the request away, dropped the connection, served it to its end or
  -- panicked, no connection is registered under the key, as many connections have not finished as
  -- before, and the registry is consistent.
  pub serve_http-IsLeft :
      (n : ℕ) (h : Handler lib.map) (cache : Cache lib.reflection)
      → q.connection_id ≡ ok id
      → resolve_user_id q.user_id ≡ ok user_id
      → IsTameRequest lib laws peer_of n q
      → IsLeft lib laws (connection_key peer_of) n h
      → IsLeft lib laws (connection_key peer_of) n (serve_http lib site q h cache).0
  unfolding serve_http
  serve_http-IsLeft n h cache c u tame v = elim (screen-cases h.shutting_down c u) [
    | inl (actions, e) ↦ rw (e, serve_http) v
    | inr e ↦ rw (e, serve_http) (connect-Left n h cache tame v)
  ]
