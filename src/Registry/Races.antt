-- ===== src/Registry/Races.antt =====
-- Two calls of `remove` for one connection, with a removal between the two parts of the other.
use signalg.Base.{◌≡◌, refl, true, Bytes, none, some, arith}
use signalg.Base.Assoc.{bytes_eq_self}
use signalg.Registry.ShardMap.{ShardMap, IsMap}
use signalg.Registry.Types.{Conn, RegistryEntry, Registry, connection_key}
use signalg.Registry.Members.{drop_entry, entry_of, remove, remove_locked}

module _ (lib : ShardMap) (laws : IsMap lib) where
  open lib use {get}
  open laws use {get-delete}

  dropped_entry :
      (key : Bytes) (e : RegistryEntry) (r : Registry lib)
      → get (drop_entry lib key e r).connections key ≡ none
  unfolding drop_entry
  dropped_entry key e r = ground (arith, get-delete r.connections key key, bytes_eq_self key)

  -- Where one call of `remove` has found the entry of a connection, and waits for its lock while
  -- another call removes the connection, both calls return true, although the second finds no entry
  -- under the connection's key any more.
  pub remove-remove_locked :
      (c : Conn) (e : RegistryEntry) (r : Registry lib)
      → entry_of lib c r ≡ some e
      → ((remove lib c r).1 ≡ true)
        × (get (remove lib c r).0.connections (connection_key c) ≡ none)
        × ((remove_locked lib c e (remove lib c r).0).1 ≡ true)
  unfolding remove remove_locked
  remove-remove_locked c e r h = rw (h, remove) (refl, dropped_entry (connection_key c) e r, refl)
