-- ===== src/Registry/Members.antt =====
-- Adding and removing connections, and their groups.
use signalg.Base.{
  ℕ, ◌+◌, ◌==◌, not, ◌&&◌, ◌||◌, if◌then◌else◌, is_empty, Bool, true, false, List, [], ◌∷◌, Bytes,
  bytes_eq, Option, none, some,
}
use signalg.Base.Int.{ℤ}
use signalg.Errors.{Checked, err, nil_error, invalid_group, connection_not_found}
use signalg.Registry.ShardMap.{ShardMap}
use signalg.Registry.Types.{
  Conn, RegistryEntry, Registry, same_conn, connection_key, normalize_group,
}
use signalg.Registry.Index.{index_set, remove_connection_from_index}

-- The keys of a Go map as a list: a key is added once, and deleted.
unfoldable pub contains : List Bytes → Bytes → Bool
contains [] g = false
contains (h ∷ hs) g = bytes_eq h g || contains hs g

unfoldable pub add_key : Bytes → List Bytes → List Bytes
add_key g gs = if contains gs g then gs else g ∷ gs

unfoldable pub delete_key : Bytes → List Bytes → List Bytes
delete_key g [] = []
delete_key g (h ∷ hs) = if bytes_eq h g then delete_key g hs else h ∷ delete_key g hs

module _ (lib : ShardMap) where
  open lib use {Map, new, get, set, delete, len}

  -- `add` up to the lock of the entry. A nil connection changes nothing.
  add_published : ℤ → Conn → Registry lib → Registry lib
  add_published now conn r =
      let key = connection_key conn in
      let entry : RegistryEntry = record {
        entry_id = r.next_entry;
        conn = conn;
        last_seen = now;
        groups = [];
      } in
      record r {
        connections = set r.connections key entry;
        user_conn_index =
            if is_empty conn.user_id
            then r.user_conn_index
            else index_set lib r.user_conn_index conn.user_id key conn;
        next_entry = r.next_entry + 1;
      }

  -- Whether the entry under a key is still the one that was made with this address.
  is_current : Option RegistryEntry → ℕ → Bool
  is_current none entry_id = false
  is_current (some e) entry_id = e.entry_id == entry_id

  -- The rest of `add`: an entry that another call has replaced leaves the index of users.
  add_confirmed : ℕ → Conn → Registry lib → Registry lib
  unfolding is_current
  add_confirmed entry_id conn r =
      let key = connection_key conn in
      if not (is_current (get r.connections key) entry_id) && not (is_empty conn.user_id)
      then record r {
        user_conn_index = remove_connection_from_index lib r.user_conn_index conn.user_id key;
      }
      else r

  -- `add`, with no other call between its two parts.
  unfoldable pub add : ℤ → Conn → Registry lib → Registry lib
  unfolding add_published add_confirmed
  add now conn r = add_confirmed r.next_entry conn (add_published now conn r)

  -- `removeConnectionFromIndex` for each group of an entry.
  unfoldable pub remove_from_groups : List Bytes → Bytes → Map (Map Conn) → Map (Map Conn)
  remove_from_groups [] key index = index
  remove_from_groups (g ∷ gs) key index =
      remove_from_groups gs key (remove_connection_from_index lib index g key)

  -- The deletions that `remove` and `expired` make under the lock of the entry.
  unfoldable pub drop_entry : Bytes → RegistryEntry → Registry lib → Registry lib
  unfolding remove_from_groups
  drop_entry key entry r = record r {
    connections = delete r.connections key;
    user_conn_index =
        if is_empty entry.conn.user_id
        then r.user_conn_index
        else remove_connection_from_index lib r.user_conn_index entry.conn.user_id key;
    group_conn_index = remove_from_groups entry.groups key r.group_conn_index;
  }

  -- The entry of a connection, if it is the one that is registered under the connection's key.
  unfoldable pub entry_of : Conn → Registry lib → Option RegistryEntry
  entry_of conn r = elim (get r.connections (connection_key conn)) [
    | none ↦ none
    | some entry ↦ if same_conn entry.conn conn then some entry else none
  ]

  -- `remove` from the lock of the entry on; it does not look again whether the entry is registered.
  unfoldable pub remove_locked : Conn → RegistryEntry → Registry lib → Registry lib × Bool
  unfolding drop_entry
  remove_locked conn entry r = (drop_entry (connection_key conn) entry r, true)

  -- `remove`, on a connection that is not nil, with no other call between its two parts.
  unfoldable pub remove : Conn → Registry lib → Registry lib × Bool
  remove conn r = elim (entry_of conn r) [
    | none ↦ (r, false)
    | some entry ↦ remove_locked conn entry r
  ]

  -- `addToGroup`; `none` is a nil connection.
  unfoldable pub add_to_group : Option Conn → Bytes → Registry lib → Registry lib × Checked
  add_to_group conn group r =
      let g = normalize_group group in
      if is_empty g then (r, err invalid_group) else elim conn [
        | none ↦ (r, err connection_not_found)
        | some c ↦ elim (entry_of c r) [
          | none ↦ (r, err connection_not_found)
          | some entry ↦ (
            record r {
              connections =
                  set r.connections (connection_key c)
                    (record entry { groups = add_key g entry.groups });
              group_conn_index = index_set lib r.group_conn_index g (connection_key c) c;
            },
            nil_error,
          )
        ]
      ]

  -- `removeFromGroup`.
  unfoldable pub remove_from_group : Option Conn → Bytes → Registry lib → Registry lib × Checked
  remove_from_group conn group r =
      let g = normalize_group group in
      if is_empty g then (r, err invalid_group) else elim conn [
        | none ↦ (r, err connection_not_found)
        | some c ↦ elim (entry_of c r) [
          | none ↦ (r, err connection_not_found)
          | some entry ↦ (
            record r {
              connections =
                  set r.connections (connection_key c)
                    (record entry { groups = delete_key g entry.groups });
              group_conn_index =
                  remove_connection_from_index lib r.group_conn_index g (connection_key c);
            },
            nil_error,
          )
        ]
      ]

  -- `removeFromAllGroups`, on a connection that is not nil. It does not ask whether the entry under
  -- the key is that of this very connection.
  unfoldable pub remove_from_all_groups : Conn → Registry lib → Registry lib
  unfolding remove_from_groups
  remove_from_all_groups conn r =
      let key = connection_key conn in
      elim (get r.connections key) [
        | none ↦ r
        | some entry ↦ record r {
          connections = set r.connections key (record entry { groups = [] });
          group_conn_index = remove_from_groups entry.groups key r.group_conn_index;
        }
      ]

  -- `touch`, on a connection that is not nil.
  unfoldable pub touch : ℤ → Conn → Registry lib → Registry lib
  touch now conn r = elim (entry_of conn r) [
    | none ↦ r
    | some entry ↦ record r {
      connections = set r.connections (connection_key conn) (record entry { last_seen = now });
    }
  ]
