-- ===== src/Examples/SessionRuns.antt =====
-- A request that is served: the hub has one method, `e`, which returns its request, and the peer
-- sends an invocation of it and a pong.
use signalg.Session.Serve.{resolve_user_id}
use signalg.Base.{ℕ, ◌≡◌, ◌==◌, refl, subst, true, false, List, [], ◌∷◌, Bytes, Option, none, some}
use signalg.Base.Assoc.{lookup}
use signalg.Base.Int.{pos}
use signalg.Errors.{Checked, Result, ok, nil_error, external, ok-injective}
use signalg.Protocol.Types.{Message, frame_kind_invoke, frame_kind_pong}
use signalg.Protocol.Frame.{raw_protocol_frame}
use signalg.Registry.Types.{Conn, connection_key, new_connection_registry}
use signalg.Registry.Consistent.{new-IsConsistent}
use signalg.Connection.State.{disconnect}
use signalg.Dispatcher.Reflect.{Method, Reflection, pointer, interface}
use signalg.Dispatcher.Routes.{HubDispatcher}
use signalg.Dispatcher.Cache.{Cache}
use signalg.Dispatcher.Dispatch.{Results}
use signalg.Handler.Admission.{Handler, new_handler, handler_add_to_group}
use signalg.Session.World.{Packages, World, Hub, Incoming, Run}
use signalg.Session.Reading.{read_loop}
use signalg.Session.Keeps.{HubKeeps}
use signalg.Session.Settled.{IsServed, IsLeft, handler_add_to_group-IsServed}
use signalg.Session.Left.{IsTame, IsTameRequest, peer_of, serve_http-IsLeft}
use signalg.Session.Added.{Added}
use signalg.Session.Heard.{Hears, StartsWith, read_loop-Hears}
use signalg.Session.Serve.{Site, Request, serve_http}
use signalg.Examples.Instances.{assoc_map, assoc_map-IsMap, plain_encoders}
use signalg.Examples.ConnectionRuns.{json_config, new_conn}

-- Types by numbers: 0 the hub, 1 a context, 2 a pointer, 3 an error. The second method has no
-- context.
abbrev pub methods : List (Method ℕ)
methods =
    record { name = b'e' ∷ []; func = 0; ins = 0 ∷ 1 ∷ 2 ∷ []; outs = 2 ∷ 3 ∷ [] }
    ∷ record { name = b'f' ∷ []; func = 1; ins = 0 ∷ 2 ∷ 2 ∷ []; outs = 2 ∷ 3 ∷ [] }
    ∷ []

abbrev pub reflection : Reflection Bytes
reflection = record {
  Ty = ℕ;
  is_context = λ t. t == 1;
  is_pointer = λ t. t == 2;
  implements_error = λ t. t == 3;
  new_value = λ t. [];
  methods = λ t. methods;
}

abbrev pub packages : Packages
packages = record {
  map = assoc_map;
  enc = plain_encoders;
  reflection = reflection;
  connected = λ body. [];
  error_string = λ msg e. b'?' ∷ [];
}

abbrev pub call : ℕ → Bytes → World packages → Results (World packages) Bytes
call n v w = (
  w,
  record { kind = pointer; is_nil = false; value = v },
  record { kind = interface; is_nil = true; value = external 1 },
)

-- `OnConnected` puts the connection into the group `g`.
abbrev joins : World packages → World packages × Checked
joins w =
    let c : Conn = record { addr = 1; id = b'1' ∷ []; user_id = b'u' ∷ [] } in
    let (h, e) = handler_add_to_group assoc_map (some c) (b'g' ∷ []) w.handler in
    (record w { handler = h }, e)

abbrev pub hub : Hub packages
hub = record {
  hub_type = 0;
  on_connected = joins;
  on_disconnected = λ e w. w;
  on_message = none;
  on_ping = none;
  call = call;
}

abbrev pub site : Site
site = record {
  path = b'/' ∷ [];
  protocol = some json_config;
  send_queue_size = 4;
  slow_consumer_policy = disconnect;
  ping_interval = pos 0;
}

abbrev arrives : Result Bytes → Incoming packages
arrives body = record {
  others = λ w. w;
  binary = true;
  body = body;
  closing = nil_error;
  now = pos 20;
  pick = true;
}

abbrev incoming : List (Incoming packages)
incoming =
    arrives
      (raw_protocol_frame (some json_config) frame_kind_invoke (b'e' ∷ []) (b'7' ∷ []) (b'x' ∷ []))
    ∷ arrives (raw_protocol_frame (some json_config) frame_kind_pong [] [] [])
    ∷ []

abbrev pub request : Request packages
request = record {
  path = some (b'/' ∷ []);
  origin = none;
  accepted = nil_error;
  connection_id = ok (b'1' ∷ []);
  user_id = some (ok (b'u' ∷ []));
  addr = 1;
  remote_addr = [];
  factory = λ w. (w, ok (some hub));
  now = pos 10;
  pick = true;
  incoming = incoming;
  last = external 0;
}

abbrev pub empty_handler : Handler assoc_map
empty_handler = new_handler assoc_map

abbrev pub empty_cache : Cache reflection
empty_cache t = none

abbrev peer : Conn
peer = peer_of packages assoc_map-IsMap site request (b'1' ∷ []) (b'u' ∷ [])

empty-IsLeft : IsLeft packages assoc_map-IsMap (connection_key peer) 0 empty_handler
unfolding new_connection_registry lookup
empty-IsLeft = record {
  consistent = new-IsConsistent assoc_map assoc_map-IsMap;
  active = refl;
  gone = refl;
}

keeps : HubKeeps packages (IsServed packages assoc_map-IsMap (connection_key peer) 1 peer) hub
keeps = record {
  on_connected = λ w i.
      handler_add_to_group-IsServed packages assoc_map-IsMap (connection_key peer) 1 peer
        (some peer) (b'g' ∷ []) w.handler i;
  on_disconnected = λ e w i. i;
  on_message = λ f msg h. cc;
  on_ping = λ f h. cc;
  call = λ n v w i. i;
}

tame : IsTameRequest packages assoc_map-IsMap peer 0 request
tame = record {
  factory = λ w i. i;
  hub = λ w g h.
      let same : hub ≡ g = cc (ok-injective h) in
      subst (IsTame packages assoc_map-IsMap peer 0) same
        (record { kept = keeps; leaves = λ e w i. i });
  incoming = (λ w i. i, (λ w i. i, tt));
}

serve_http-IsLeft_example :
    IsLeft packages assoc_map-IsMap
      (connection_key peer)
      0
      (serve_http packages site request empty_handler empty_cache).0
unfolding resolve_user_id
serve_http-IsLeft_example =
    serve_http-IsLeft packages assoc_map-IsMap site request (b'1' ∷ []) (b'u' ∷ []) 0 empty_handler
      empty_cache refl refl tame empty-IsLeft

abbrev pub world : World packages
world = record { handler = empty_handler; conn = new_conn; cache = empty_cache }

abbrev run : Run packages
run = record { world = world; actions = [] }

read_loop-Hears_example :
    (ms : List Message) × (d : Option (HubDispatcher reflection)) × (start : Run packages)
    × StartsWith packages (some json_config) peer hub run d start
    × Added []
        (read_loop packages (some json_config) peer hub incoming (external 0) run).0.actions
        ms
    × Hears packages
        (some json_config)
        peer
        hub
        d
        (external 0)
        incoming
        start
        ms
        (read_loop packages (some json_config) peer hub incoming (external 0) run).1
read_loop-Hears_example =
    read_loop-Hears packages (some json_config) peer hub incoming (external 0) run
