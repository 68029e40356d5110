-- ===== src/Registry/Index.antt =====
-- The indexes: for a user or a group, the set of its connections by their keys.
use signalg.Base.{◌==◌, if◌then◌else◌, Bytes, Option, none, some}
use signalg.Registry.ShardMap.{ShardMap}
use signalg.Registry.Types.{Conn}

module _ (lib : ShardMap) where
  open lib use {Map, new, get, set, delete, len}

  -- `connectionSetFor`: the set of a key, which is made and stored if there is none.
  unfoldable pub connection_set_for : Map (Map Conn) → Bytes → Map (Map Conn) × Map Conn
  connection_set_for index index_key = elim (get index index_key) [
    | some connections ↦ (index, connections)
    | none ↦ (set index index_key new, new)
  ]

  -- `r.connectionSetFor(index, indexKey).Set(connKey, conn)`. The set is shared with the index.
  unfoldable pub index_set : Map (Map Conn) → Bytes → Bytes → Conn → Map (Map Conn)
  unfolding connection_set_for
  index_set index index_key conn_key conn =
      let (index', connections) = connection_set_for index index_key in
      set index' index_key (set connections conn_key conn)

  -- `removeConnectionFromIndex`: a set that is empty leaves the index.
  unfoldable pub remove_connection_from_index : Map (Map Conn) → Bytes → Bytes → Map (Map Conn)
  remove_connection_from_index index index_key conn_key = elim (get index index_key) [
    | none ↦ index
    | some connections ↦
        (let left = delete connections conn_key in
          if len left == 0
          then delete (set index index_key left) index_key
          else set index index_key left)
  ]

  unfoldable pub found_in : Option (Map Conn) → Bytes → Option Conn
  found_in none conn_key = none
  found_in (some connections) conn_key = get connections conn_key

  -- What stands in the index for a key of it and the key of a connection.
  unfoldable pub index_get : Map (Map Conn) → Bytes → Bytes → Option Conn
  unfolding found_in
  index_get index index_key conn_key = found_in (get index index_key) conn_key
