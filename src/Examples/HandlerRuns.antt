-- ===== src/Examples/HandlerRuns.antt =====
-- A connection comes, the handler begins to shut down, and the connection goes.
use signalg.Text.{trim_space}
use signalg.Handler.Path.{normalize_path}
use signalg.Batch.Tally.{normalize_send_concurrency}
use signalg.Base.{none, ◌⊎◌}
use signalg.Registry.Types.{connection_key}
use signalg.Base.Assoc.{lookup, is_some}
use signalg.Handler.Races.{remove_connection_locked, remove_connection_locked-online}
use signalg.Base.{
  ℕ, ◌+◌, ◌*◌, ◌^◌, ◌≤◌, ◌<◌, ◌≡◌, refl, true, false, if◌then◌else◌, is_empty, [], ◌∷◌, Bytes, some,
  arith,
}
use signalg.Base.Int.{ℤ, pos, negsuc, ◌-ℤ◌}
use signalg.Errors.{canceled}
use signalg.Protocol.Types.{json_codec, serialization_json}
use signalg.Registry.Types.{Conn, RegistryEntry, new_connection_registry}
use signalg.Registry.Consistent.{new-IsConsistent}
use signalg.Handler.Admission.{
  Handler, new_handler, add_connection, remove_connection, begin_shutdown, Events, quiet, later,
  connects, disconnects,
}
use signalg.Handler.Online.{IsCounted, Events-IsCounted}
use signalg.Handler.Shutdown.{IsClosing, begin_shutdown-IsClosing}
use signalg.Handler.Config.{Config, normalize_config}
use signalg.Handler.Heartbeat.{Turn, heartbeat_turn, IsBeat, IsIdle, heartbeat_turn-IsBeat}
use signalg.Handler.Drained.{came, gave_up, shutdown, IsShutDown, shutdown-IsShutDown}
use signalg.Handler.Path.{IsClean, is_rooted}
use signalg.Handler.Create.{Options, Created, IsUsable}
use signalg.Server.{Server, new_server, new_server-IsUsable}
use signalg.Connected.{
  new_connected_payload, connected_body, interval_in, nanoseconds, connected_body-bounds,
}
use signalg.Examples.ConnectionRuns.{new_conn}
use signalg.Examples.Instances.{assoc_map, assoc_map-IsMap}
use signalg.Examples.RegistryRuns.{first}

abbrev empty_handler : Handler assoc_map
empty_handler = new_handler assoc_map

abbrev pub joined : Handler assoc_map
joined = (add_connection assoc_map (pos 10) first empty_handler).0

empty-IsCounted : IsCounted assoc_map assoc_map-IsMap empty_handler
unfolding new_connection_registry
empty-IsCounted = record { consistent = new-IsConsistent assoc_map assoc_map-IsMap; online = refl }

joining : Events assoc_map empty_handler joined
unfolding new_connection_registry lookup
joining = later quiet (connects (pos 10) first refl)

pub joined-IsCounted : IsCounted assoc_map assoc_map-IsMap joined
joined-IsCounted =
    Events-IsCounted assoc_map assoc_map-IsMap {h = empty_handler} {g = joined} joining
      empty-IsCounted

Events-IsCounted_example : IsCounted assoc_map assoc_map-IsMap joined
Events-IsCounted_example =
    Events-IsCounted assoc_map assoc_map-IsMap {h = empty_handler} {g = joined} joining
      empty-IsCounted

begin_shutdown-IsClosing_example :
    IsClosing assoc_map assoc_map-IsMap
      (begin_shutdown assoc_map joined).1
      (remove_connection assoc_map first (begin_shutdown assoc_map joined).0)
    × ((now : ℤ) (c : Conn)
        → add_connection assoc_map now c
            (remove_connection assoc_map first (begin_shutdown assoc_map joined).0)
          ≡ (remove_connection assoc_map first (begin_shutdown assoc_map joined).0, false))
begin_shutdown-IsClosing_example =
    begin_shutdown-IsClosing assoc_map assoc_map-IsMap {h = joined} joined-IsCounted
      (later quiet (disconnects first))

-- The entry that a call of `removeConnection` has found before another one ran.
abbrev found : RegistryEntry
found = record { entry_id = 0; conn = first; last_seen = pos 10; groups = [] }

-- The handler once the other call is through, and once the first is as well.
abbrev left_once : Handler assoc_map
left_once = remove_connection assoc_map first joined

abbrev left_twice : Handler assoc_map
left_twice = remove_connection_locked assoc_map first found left_once

remove_connection_locked-online_example :
    (left_twice.online
      ≡ pos (assoc_map.len left_twice.registry.connections)
        -ℤ (if is_some (assoc_map.get left_once.registry.connections (connection_key first))
            then pos 0
            else pos 1))
    × (assoc_map.get left_twice.registry.connections (connection_key first) ≡ none)
remove_connection_locked-online_example =
    remove_connection_locked-online assoc_map assoc_map-IsMap first found left_once (
      Events-IsCounted assoc_map assoc_map-IsMap {h = joined} {g = left_once}
        (later quiet (disconnects first)) joined-IsCounted)

abbrev empty_config : Config
empty_config = record {
  max_payload_size = pos 0;
  read_limit = pos 0;
  ping_interval = negsuc 0;
  ping_timeout = pos 0;
  send_queue_size = pos 0;
  write_timeout = pos 0;
}

abbrev turn : Turn assoc_map
turn = record { gap = pos 60; others = λ h. h; now = pos 200; pick = true }

heartbeat_turn-IsBeat_example :
    ((heartbeat_turn assoc_map (pos 100) turn joined ≡ (joined, []))
      × IsIdle assoc_map assoc_map-IsMap (pos 100) turn joined)
    ⊎ IsBeat assoc_map assoc_map-IsMap
        (pos 100)
        turn
        joined
        (heartbeat_turn assoc_map (pos 100) turn joined)
heartbeat_turn-IsBeat_example =
    heartbeat_turn-IsBeat assoc_map assoc_map-IsMap (pos 100) turn joined
      joined-IsCounted.consistent

shutdown-IsShutDown_example :
    IsShutDown assoc_map joined
      (came ∷ [])
      (gave_up canceled)
      (shutdown assoc_map (λ c. new_conn) (λ c. c) (came ∷ []) (gave_up canceled) joined)
shutdown-IsShutDown_example =
    shutdown-IsShutDown assoc_map (λ c. new_conn) (λ c. c) (came ∷ []) (gave_up canceled) joined

-- `path.Clean`, as far as the paths of this file go: a rooted path is left as it is.
abbrev clean : Bytes → Bytes
clean p = if is_rooted p then p else b'/' ∷ p

clean-IsClean : IsClean clean
clean-IsClean = record {
  rooted = λ p h. ground (arith, h);
  clean_clean = λ p. ground arith;
  clean_default = refl;
}

-- ":8".
abbrev address : Bytes
address = b':' ∷ b'8' ∷ []

abbrev options : Options
options = record {
  path = b'/' ∷ b'w' ∷ [];
  serialization = serialization_json;
  send_concurrency = pos 0;
  numbers = empty_config;
}

abbrev created : Created
created = record {
  path = b'/' ∷ b'w' ∷ [];
  protocol = record { codec = some json_codec; max_payload_size = pos (2 ^ 20) };
  send_concurrency = pos 256;
  numbers = normalize_config empty_config;
  heartbeats = true;
}

abbrev pub server : Server Bytes
server = record { addr = address; handler = created; listener = none; shutdown_err = none }

new_server-IsUsable_example : (true ≡ true) × (is_empty address ≡ false) × IsUsable clean created
unfolding new_server trim_space normalize_path normalize_send_concurrency
new_server-IsUsable_example =
    new_server-IsUsable clean true options clean-IsClean refl address server refl

connected_body-bounds_example :
    (ms : ℕ) × (interval_in (connected_body (new_connected_payload [] [] [] (pos 1999999)) 1)
      ≡ pos ms)
    × (ms * 10 ^ 6 ≤ nanoseconds (pos 1999999))
    × (nanoseconds (pos 1999999) < ms * 10 ^ 6 + 10 ^ 6)
connected_body-bounds_example = connected_body-bounds [] [] [] (pos 1999999) 1
