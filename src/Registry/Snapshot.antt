-- ===== src/Registry/Snapshot.antt =====
-- The readers of the registry: counts and snapshots. A nil slice and an empty one are one list, and
-- a buffer of the slice pool is the list that is put into it.
use signalg.Base.{
  ℕ, ◌+◌, ◌==◌, ◌||◌, if◌then◌else◌, is_empty, List, [], ◌∷◌, ◌++◌, map, Bytes, Option, none, some,
}
use signalg.Registry.ShardMap.{ShardMap}
use signalg.Registry.Types.{Conn, RegistryEntry, Registry}
use signalg.Registry.Members.{contains}

abbrev pub entry_conn : Bytes × RegistryEntry → Conn
entry_conn (key, entry) = entry.conn

abbrev pub set_conn : Bytes × Conn → Conn
set_conn (key, conn) = conn

module _ (lib : ShardMap) where
  open lib use {Map, get, len, entries}

  unfoldable pub all_connections : Registry lib → List Conn
  all_connections r = if len r.connections == 0 then [] else map entry_conn (entries r.connections)

  unfoldable pub all_connections_pooled : Registry lib → List Conn
  all_connections_pooled r =
      if len r.connections == 0 then [] else map entry_conn (entries r.connections)

  unfoldable pub copy_connection_set : Map Conn → List Conn
  copy_connection_set connections = map set_conn (entries connections)

  unfoldable pub copy_connection_set_pooled : Map Conn → List Conn
  copy_connection_set_pooled connections = map set_conn (entries connections)

  unfoldable pub user_online : Bytes → Registry lib → ℕ
  user_online user_id r = elim (get r.user_conn_index user_id) [
    | none ↦ 0
    | some connections ↦ len connections
  ]

  unfoldable pub user_connections : Bytes → Registry lib → List Conn
  unfolding copy_connection_set
  user_connections user_id r = elim (get r.user_conn_index user_id) [
    | none ↦ []
    | some connections ↦ copy_connection_set connections
  ]

  unfoldable pub group_online : Bytes → Registry lib → ℕ
  group_online group r = elim (get r.group_conn_index group) [
    | none ↦ 0
    | some connections ↦ len connections
  ]

  unfoldable pub group_connections : Bytes → Registry lib → List Conn
  unfolding copy_connection_set
  group_connections group r = elim (get r.group_conn_index group) [
    | none ↦ []
    | some connections ↦ copy_connection_set connections
  ]

  unfoldable pub group_connections_pooled : Bytes → Registry lib → List Conn
  unfolding copy_connection_set_pooled
  group_connections_pooled group r = elim (get r.group_conn_index group) [
    | none ↦ []
    | some connections ↦ copy_connection_set_pooled connections
  ]

  -- The connection of an entry, if there is one.
  unfoldable pub conn_of : Option RegistryEntry → List Conn
  conn_of none = []
  conn_of (some entry) = entry.conn ∷ []

  -- The loop of `connectionSnapshot`: empty ids and ids seen before are passed over.
  unfoldable pub collect_ids : List Bytes → List Bytes → Registry lib → List Conn
  unfolding conn_of
  collect_ids [] seen r = []
  collect_ids (id ∷ ids) seen r =
      let skip = is_empty id || contains seen id in
      (if skip then [] else conn_of (get r.connections id))
      ++ collect_ids ids (if skip then seen else id ∷ seen) r

  unfoldable pub connection_snapshot : List Bytes → Registry lib → List Conn
  unfolding collect_ids conn_of
  connection_snapshot [] r = []
  connection_snapshot (id ∷ []) r = if is_empty id then [] else conn_of (get r.connections id)
  connection_snapshot (id ∷ other ∷ ids) r = collect_ids (id ∷ other ∷ ids) [] r

  unfoldable pub connection_snapshot_pooled : List Bytes → Registry lib → List Conn
  unfolding collect_ids conn_of
  connection_snapshot_pooled [] r = []
  connection_snapshot_pooled (id ∷ []) r =
      if is_empty id then [] else conn_of (get r.connections id)
  connection_snapshot_pooled (id ∷ other ∷ ids) r = collect_ids (id ∷ other ∷ ids) [] r

  -- The connections of a set by their keys, or of none.
  unfoldable pub set_entries : Option (Map Conn) → List (Bytes × Conn)
  set_entries none = []
  set_entries (some connections) = entries connections

  -- The sum of `userSnapshot` over the sets of the users, which decides whether there is anything.
  unfoldable pub total_of : List Bytes → Registry lib → ℕ
  total_of [] r = 0
  total_of (user_id ∷ ids) r =
      (if is_empty user_id
        then 0
        else elim (get r.user_conn_index user_id) [ none ↦ 0 | some connections ↦ len connections ])
      + total_of ids r

  -- `Range` over one set: what is new joins the keys seen and the result.
  unfoldable pub visit_set : List (Bytes × Conn) → List (Bytes × Conn) → List (Bytes × Conn)
  visit_set [] got = got
  visit_set ((key, conn) ∷ es) got =
      visit_set es (if contains (map (λ e. e.0) got) key then got else (got ++ ((key, conn) ∷ [])))

  -- The loop of `userSnapshot`. The keys seen are those of the connections that it has got.
  unfoldable pub collect_users :
      List Bytes → List (Bytes × Conn) → Registry lib → List (Bytes × Conn)
  unfolding visit_set set_entries
  collect_users [] got r = got
  collect_users (user_id ∷ ids) got r =
      collect_users ids
        (if is_empty user_id
          then got
          else visit_set (set_entries (get r.user_conn_index user_id)) got)
        r

  unfoldable pub user_snapshot : List Bytes → Registry lib → List Conn
  unfolding user_connections total_of collect_users
  user_snapshot [] r = []
  user_snapshot (user_id ∷ []) r = if is_empty user_id then [] else user_connections user_id r
  user_snapshot (user_id ∷ other ∷ ids) r =
      if total_of (user_id ∷ other ∷ ids) r == 0
      then []
      else map set_conn (collect_users (user_id ∷ other ∷ ids) [] r)

  unfoldable pub user_snapshot_pooled : List Bytes → Registry lib → List Conn
  unfolding copy_connection_set_pooled total_of collect_users
  user_snapshot_pooled [] r = []
  user_snapshot_pooled (user_id ∷ []) r =
      if is_empty user_id then [] else elim (get r.user_conn_index user_id) [
        | none ↦ []
        | some connections ↦ copy_connection_set_pooled connections
      ]
  user_snapshot_pooled (user_id ∷ other ∷ ids) r =
      if total_of (user_id ∷ other ∷ ids) r == 0
      then []
      else map set_conn (collect_users (user_id ∷ other ∷ ids) [] r)
