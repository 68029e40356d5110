-- ===== src/Registry/Consistent.antt =====
-- The registry's invariant, on the entries and the indexes of registry.go.
use signalg.Base.{
  ◌<◌, ◌≡◌, Bool, true, false, if◌then◌else◌, is_empty, List, Bytes, bytes_eq, bytes_eq_iff, Option,
  none, some, arith,
}
use signalg.Registry.ShardMap.{ShardMap, IsMap}
use signalg.Registry.Types.{Conn, RegistryEntry, Registry, new_connection_registry, connection_key}
use signalg.Registry.Index.{index_get}
use signalg.Registry.Members.{contains, drop_entry}
use signalg.Registry.IndexLaws.{
  index_get-remove, index_get-remove_from_groups, NoEmptySet, remove-NoEmptySet,
  remove_from_groups-NoEmptySet,
}

-- The connection that the index of users should hold for `u`, given the entry of its key.
abbrev pub user_at : Option RegistryEntry → Bytes → Option Conn
user_at none u = none
user_at (some e) u =
    if is_empty e.conn.user_id
    then none
    else if bytes_eq e.conn.user_id u
    then some e.conn
    else none

-- And the one that the index of groups should hold for `g`.
abbrev pub group_at : Option RegistryEntry → Bytes → Option Conn
group_at none g = none
group_at (some e) g = if contains e.groups g then some e.conn else none

module _ (lib : ShardMap) where
  open lib use {Map, get, len}

  -- Every entry stands under the key of its connection; the indexes hold a connection for a user or
  -- a group exactly where its entry says so; and no set of them is empty.
  pub record IsConsistent (r : Registry lib) : Type 0 where
    pub keyed :
        (k : Bytes) (e : RegistryEntry) → get r.connections k ≡ some e → connection_key e.conn ≡ k
    pub users :
        (u k : Bytes) → index_get lib r.user_conn_index u k ≡ user_at (get r.connections k) u
    pub groups :
        (g k : Bytes) → index_get lib r.group_conn_index g k ≡ group_at (get r.connections k) g
    pub user_sets : (u : Bytes) (s : Map Conn) → get r.user_conn_index u ≡ some s → 0 < len s
    pub group_sets : (g : Bytes) (s : Map Conn) → get r.group_conn_index g ≡ some s → 0 < len s

module _ (lib : ShardMap) (laws : IsMap lib) where
  open lib use {Map, new, get, set, delete, len}
  open laws use {get-new, get-set, get-delete}

  pub new-IsConsistent : IsConsistent lib (new_connection_registry lib)
  unfolding new_connection_registry index_get
  new-IsConsistent = record {
    keyed = λ k e h. ground (arith, get-new {V = RegistryEntry} k);
    users = λ u k. ground (arith, get-new {V = Map Conn} u, get-new {V = RegistryEntry} k);
    groups = λ g k. ground (arith, get-new {V = Map Conn} g, get-new {V = RegistryEntry} k);
    user_sets = λ u s h. ground (arith, get-new {V = Map Conn} u);
    group_sets = λ g s h. ground (arith, get-new {V = Map Conn} g);
  }

module _ (lib : ShardMap) (laws : IsMap lib) (r : Registry lib) (v : IsConsistent lib r) where
  open lib use {Map, new, get, set, delete, len}
  open laws use {get-new, get-set, get-delete}

  pub if-NoEmptySet :
      (b : Bool) {x y : Map (Map Conn)}
      → NoEmptySet lib laws x
      → NoEmptySet lib laws y
      → NoEmptySet lib laws (if b then x else y)
  if-NoEmptySet true h k = h
  if-NoEmptySet false h k = k

  -- Deleting an entry with its places in the indexes.
  pub drop_entry-IsConsistent :
      (key : Bytes) (entry : RegistryEntry)
      → get r.connections key ≡ some entry
      → IsConsistent lib (drop_entry lib key entry r)
  unfolding drop_entry
  drop_entry-IsConsistent key entry e = record {
    keyed = λ k x h. ground (arith, get-delete r.connections key k, v.keyed k x);
    users = λ u k. ground (
      arith,
      get-delete r.connections key k,
      index_get-remove lib laws r.user_conn_index entry.conn.user_id u key k,
      v.users u k,
      bytes_eq_iff key k,
    );
    groups = λ g k. ground (
      arith,
      get-delete r.connections key k,
      index_get-remove_from_groups lib laws entry.groups key r.group_conn_index g k,
      v.groups g k,
      bytes_eq_iff key k,
    );
    user_sets =
        if-NoEmptySet (is_empty entry.conn.user_id) v.user_sets
          (remove-NoEmptySet lib laws r.user_conn_index entry.conn.user_id key v.user_sets);
    group_sets = remove_from_groups-NoEmptySet lib laws entry.groups key _ v.group_sets;
  }

  -- Giving an entry other groups, if the index of groups follows.
  pub regroup :
      (key : Bytes) (entry : RegistryEntry) (gs : List Bytes) (index : Map (Map Conn))
      → get r.connections key ≡ some entry
      → ((g k : Bytes)
          → index_get lib index g k ≡ (
              if bytes_eq key k
              then (if contains gs g then some entry.conn else none)
              else index_get lib r.group_conn_index g k))
      → NoEmptySet lib laws index
      → IsConsistent lib (record r {
        connections = set r.connections key (record entry { groups = gs });
        group_conn_index = index;
      })
  regroup key entry gs index e h n = record {
    keyed = λ k x t. ground (
      arith,
      get-set r.connections key k (record entry { groups = gs }),
      v.keyed k x,
      v.keyed key entry,
      bytes_eq_iff key k,
    );
    users = λ u k. ground (
      arith,
      get-set r.connections key k (record entry { groups = gs }),
      v.users u k,
      bytes_eq_iff key k,
    );
    groups = λ g k.
        ground
          (arith, get-set r.connections key k (record entry { groups = gs }), h g k, v.groups g k);
    user_sets = v.user_sets;
    group_sets = n;
  }
