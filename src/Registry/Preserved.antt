-- ===== src/Registry/Preserved.antt =====
-- The registry's invariant across each operation of registry.go.
use signalg.Base.{
  ◌+◌, ◌≡◌, refl, Bool, true, false, if◌then◌else◌, is_empty, [], Bytes, bytes_eq_iff, Option, none,
  some, arith, inl, inr, Option-cases, ==_self,
}
use signalg.Base.Int.{ℤ}
use signalg.Base.Assoc.{bytes_eq_self}
use signalg.Registry.ShardMap.{ShardMap, IsMap}
use signalg.Registry.Types.{Conn, RegistryEntry, Registry, connection_key, normalize_group}
use signalg.Registry.Index.{index_set, remove_connection_from_index}
use signalg.Registry.Members.{
  contains, add_key, delete_key, add, entry_of, remove_locked, remove, add_to_group,
  remove_from_group, remove_from_all_groups, remove_from_groups, touch,
}
use signalg.Registry.IndexLaws.{
  index_get-index_set, index_get-remove, index_get-remove_from_groups, index_set-NoEmptySet,
  remove-NoEmptySet, remove_from_groups-NoEmptySet,
}
use signalg.Registry.Consistent.{IsConsistent, drop_entry-IsConsistent, regroup, if-NoEmptySet}
use signalg.Registry.Entries.{contains-add_key, contains-delete_key, entry_of-get}

module _ (lib : ShardMap) (laws : IsMap lib) (r : Registry lib) (v : IsConsistent lib r) where
  open lib use {Map, new, get, set, delete, len}
  open laws use {get-new, get-set, get-delete}

  -- Removing a connection keeps the registry consistent, whether it was registered or not.
  pub remove-IsConsistent : (c : Conn) → IsConsistent lib (remove lib c r).0
  unfolding remove remove_locked
  remove-IsConsistent c = elim (Option-cases (entry_of lib c r)) [
    | inl e ↦ rw (e, remove) v
    | inr (x, e) ↦
        rw (e, remove)
          (drop_entry-IsConsistent lib laws r v (connection_key c) x (entry_of-get lib c r x e).0)
  ]

  touch_found :
      (now : ℤ) (key : Bytes) (x : RegistryEntry)
      → get r.connections key ≡ some x
      → IsConsistent lib
          (record r { connections = set r.connections key (record x { last_seen = now }) })
  touch_found now key x e = record {
    keyed = λ k y h. ground (
      arith,
      get-set r.connections key k (record x { last_seen = now }),
      v.keyed k y,
      v.keyed key x,
      bytes_eq_iff key k,
    );
    users = λ u k. ground (
      arith,
      get-set r.connections key k (record x { last_seen = now }),
      v.users u k,
      bytes_eq_iff key k,
    );
    groups = λ g k. ground (
      arith,
      get-set r.connections key k (record x { last_seen = now }),
      v.groups g k,
      bytes_eq_iff key k,
    );
    user_sets = v.user_sets;
    group_sets = v.group_sets;
  }

  pub touch-IsConsistent : (now : ℤ) (c : Conn) → IsConsistent lib (touch lib now c r)
  unfolding touch
  touch-IsConsistent now c = elim (Option-cases (entry_of lib c r)) [
    | inl e ↦ rw (e, touch) v
    | inr (x, e) ↦ rw (e, touch) (touch_found now (connection_key c) x (entry_of-get lib c r x e).0)
  ]

  group_added :
      (c : Conn) (x : RegistryEntry) (g : Bytes)
      → entry_of lib c r ≡ some x
      → IsConsistent lib (record r {
        connections =
            set r.connections (connection_key c) (record x { groups = add_key g x.groups });
        group_conn_index = index_set lib r.group_conn_index g (connection_key c) c;
      })
  group_added c x g e =
      let (t, same) = entry_of-get lib c r x e in
      let key = connection_key c in
      regroup lib laws r v key x (add_key g x.groups) (index_set lib r.group_conn_index g key c) t
        (λ h k. ground (
          arith,
          index_get-index_set lib laws r.group_conn_index g h key k c,
          contains-add_key g h x.groups,
          v.groups h k,
          bytes_eq_iff key k,
        ))
        (index_set-NoEmptySet lib laws r.group_conn_index g key c v.group_sets)

  group_removed :
      (c : Conn) (x : RegistryEntry) (g : Bytes)
      → entry_of lib c r ≡ some x
      → IsConsistent lib (record r {
        connections =
            set r.connections (connection_key c) (record x { groups = delete_key g x.groups });
        group_conn_index = remove_connection_from_index lib r.group_conn_index g (connection_key c);
      })
  group_removed c x g e =
      let (t, same) = entry_of-get lib c r x e in
      let key = connection_key c in
      regroup lib laws r v key x (delete_key g x.groups)
        (remove_connection_from_index lib r.group_conn_index g key) t
        (λ h k. ground (
          arith,
          index_get-remove lib laws r.group_conn_index g h key k,
          contains-delete_key g h x.groups,
          v.groups h k,
          bytes_eq_iff key k,
        ))
        (remove-NoEmptySet lib laws r.group_conn_index g key v.group_sets)

  -- So do the operations on groups, on every branch.
  pub add_to_group-IsConsistent :
      (c : Option Conn) (group : Bytes) → IsConsistent lib (add_to_group lib c group r).0
  unfolding add_to_group
  add_to_group-IsConsistent c group = by_name (is_empty (normalize_group group)) c refl
    where
      by_name :
          (b : Bool) (c : Option Conn)
          → is_empty (normalize_group group) ≡ b
          → IsConsistent lib (add_to_group lib c group r).0
      by_name true c e = rw (e, add_to_group) v
      by_name false none e = rw (e, add_to_group) v
      by_name false (some d) e = elim (Option-cases (entry_of lib d r)) [
        | inl t ↦ rw (e, t, add_to_group) v
        | inr (x, t) ↦ rw (e, t, add_to_group) (group_added d x (normalize_group group) t)
      ]

  pub remove_from_group-IsConsistent :
      (c : Option Conn) (group : Bytes) → IsConsistent lib (remove_from_group lib c group r).0
  unfolding remove_from_group
  remove_from_group-IsConsistent c group = by_name (is_empty (normalize_group group)) c refl
    where
      by_name :
          (b : Bool) (c : Option Conn)
          → is_empty (normalize_group group) ≡ b
          → IsConsistent lib (remove_from_group lib c group r).0
      by_name true c e = rw (e, remove_from_group) v
      by_name false none e = rw (e, remove_from_group) v
      by_name false (some d) e = elim (Option-cases (entry_of lib d r)) [
        | inl t ↦ rw (e, t, remove_from_group) v
        | inr (x, t) ↦ rw (e, t, remove_from_group) (group_removed d x (normalize_group group) t)
      ]

  pub remove_from_all_groups-IsConsistent :
      (c : Conn) → IsConsistent lib (remove_from_all_groups lib c r)
  unfolding remove_from_all_groups contains
  remove_from_all_groups-IsConsistent c =
      let key = connection_key c in
      elim (Option-cases (get r.connections key)) [
        | inl e ↦ rw (e, remove_from_all_groups) v
        | inr (x, e) ↦
            rw (e, remove_from_all_groups)
              (regroup lib laws r v key x []
                (remove_from_groups lib x.groups key r.group_conn_index) e
                (λ h k. ground (
                  arith,
                  index_get-remove_from_groups lib laws x.groups key r.group_conn_index h k,
                  v.groups h k,
                  bytes_eq_iff key k,
                ))
                (remove_from_groups-NoEmptySet lib laws x.groups key r.group_conn_index
                  v.group_sets))
      ]

  added :
      (now : ℤ) (c : Conn)
      → get r.connections (connection_key c) ≡ none
      → IsConsistent lib (record r {
        connections =
            set r.connections
              (connection_key c)
              (record { entry_id = r.next_entry; conn = c; last_seen = now; groups = [] });
        user_conn_index =
            if is_empty c.user_id
            then r.user_conn_index
            else index_set lib r.user_conn_index c.user_id (connection_key c) c;
        next_entry = r.next_entry + 1;
      })
  unfolding contains
  added now c e =
      let key = connection_key c in
      let x : RegistryEntry = record {
        entry_id = r.next_entry;
        conn = c;
        last_seen = now;
        groups = [];
      } in
      record {
        keyed =
            λ k y h. ground (arith, get-set r.connections key k x, v.keyed k y, bytes_eq_iff key k);
        users = λ u k. ground (
          arith,
          get-set r.connections key k x,
          index_get-index_set lib laws r.user_conn_index c.user_id u key k c,
          v.users u k,
          bytes_eq_iff key k,
        );
        groups =
            λ g k. ground (arith, get-set r.connections key k x, v.groups g k, bytes_eq_iff key k);
        user_sets =
            if-NoEmptySet lib laws r v (is_empty c.user_id) v.user_sets
              (index_set-NoEmptySet lib laws r.user_conn_index c.user_id key c v.user_sets);
        group_sets = v.group_sets;
      }

  -- A connection whose key is not registered yet is added consistently.
  pub add-IsConsistent :
      (now : ℤ) (c : Conn)
      → get r.connections (connection_key c) ≡ none
      → IsConsistent lib (add lib now c r)
  unfolding add
  add-IsConsistent now c e =
      let key = connection_key c in
      let x : RegistryEntry = record {
        entry_id = r.next_entry;
        conn = c;
        last_seen = now;
        groups = [];
      } in
      let t : get (set r.connections key x) key ≡ some x =
        ground (arith, get-set r.connections key key x, bytes_eq_self key) in
      rw (t, ==_self r.next_entry) (added now c e)
