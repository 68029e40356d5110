-- ===== src/Registry/Conns.antt =====
-- Which connections the registry holds, apart from when they were seen and their groups.
use signalg.Base.{
  ◌≡◌, refl, true, false, Bool, is_empty, [], Bytes, bytes_eq_iff, Option, none, some, arith, inl,
  inr, Option-cases,
}
use signalg.Base.Int.{ℤ}
use signalg.Base.Assoc.{is_some, length-of_keys}
use signalg.Registry.ShardMap.{ShardMap, IsMap}
use signalg.Registry.Types.{Conn, RegistryEntry, Registry, connection_key, normalize_group}
use signalg.Registry.Members.{
  entry_of, touch, add_to_group, remove_from_group, remove_from_all_groups, add_key, delete_key,
}
use signalg.Registry.Entries.{entry_of-get}

abbrev pub conn_at : Option RegistryEntry → Option Conn
conn_at none = none
conn_at (some e) = some e.conn

module _ (lib : ShardMap) (laws : IsMap lib) where
  open lib use {Map, get, set, len, entries}
  open laws use {get-set, lookup-entries, entries-DistinctKeys, len-entries}

  -- The same connections under the same keys.
  pub record IsSame (m n : Map RegistryEntry) : Type 0 where
    pub conns : (k : Bytes) → conn_at (get n k) ≡ conn_at (get m k)
    pub counted : len n ≡ len m

  conn_at-is_some : (o p : Option RegistryEntry) → conn_at o ≡ conn_at p → is_some o ≡ is_some p
  conn_at-is_some o p h = ground arith

  same : (m : Map RegistryEntry) → IsSame m m
  same m = record { conns = λ k. refl; counted = refl }

  len-conns :
      (m n : Map RegistryEntry)
      → ((k : Bytes) → conn_at (get n k) ≡ conn_at (get m k))
      → len n ≡ len m
  len-conns m n h =
      let keys =
        length-of_keys (entries n) (entries m) (entries-DistinctKeys n) (entries-DistinctKeys m)
          (λ k. ground (
            arith,
            lookup-entries n k,
            lookup-entries m k,
            conn_at-is_some (get n k) (get m k) (h k),
          )) in
      ground (arith, keys, len-entries n, len-entries m)

  -- An entry is replaced by one of the same connection.
  replaced :
      (m : Map RegistryEntry) (key : Bytes) (x y : RegistryEntry)
      → get m key ≡ some x
      → y.conn ≡ x.conn
      → IsSame m (set m key y)
  replaced m key x y e c =
      let conns : (k : Bytes) → conn_at (get (set m key y) k) ≡ conn_at (get m k) =
        λ k. ground (arith, get-set m key k y, bytes_eq_iff key k) in
      record { conns = conns; counted = len-conns m (set m key y) conns }

  module _ (r : Registry lib) where
    pub touch-IsSame : (now : ℤ) (c : Conn) → IsSame r.connections (touch lib now c r).connections
    unfolding touch
    touch-IsSame now c = elim (Option-cases (entry_of lib c r)) [
      | inl e ↦ rw (e, touch) (same r.connections)
      | inr (x, e) ↦
          rw (e, touch)
            (replaced r.connections (connection_key c) x (record x { last_seen = now })
              (entry_of-get lib c r x e).0 refl)
    ]

    pub add_to_group-IsSame :
        (c : Option Conn) (group : Bytes)
        → IsSame r.connections (add_to_group lib c group r).0.connections
    unfolding add_to_group
    add_to_group-IsSame c group = by_name (is_empty (normalize_group group)) c refl
      where
        by_name :
            (b : Bool) (c : Option Conn)
            → is_empty (normalize_group group) ≡ b
            → IsSame r.connections (add_to_group lib c group r).0.connections
        by_name true c e = rw (e, add_to_group) (same r.connections)
        by_name false none e = rw (e, add_to_group) (same r.connections)
        by_name false (some d) e = elim (Option-cases (entry_of lib d r)) [
          | inl t ↦ rw (e, t, add_to_group) (same r.connections)
          | inr (x, t) ↦
              rw (e, t, add_to_group)
                (replaced r.connections (connection_key d) x
                  (record x { groups = add_key (normalize_group group) x.groups })
                  (entry_of-get lib d r x t).0 refl)
        ]

    pub remove_from_group-IsSame :
        (c : Option Conn) (group : Bytes)
        → IsSame r.connections (remove_from_group lib c group r).0.connections
    unfolding remove_from_group
    remove_from_group-IsSame c group = by_name (is_empty (normalize_group group)) c refl
      where
        by_name :
            (b : Bool) (c : Option Conn)
            → is_empty (normalize_group group) ≡ b
            → IsSame r.connections (remove_from_group lib c group r).0.connections
        by_name true c e = rw (e, remove_from_group) (same r.connections)
        by_name false none e = rw (e, remove_from_group) (same r.connections)
        by_name false (some d) e = elim (Option-cases (entry_of lib d r)) [
          | inl t ↦ rw (e, t, remove_from_group) (same r.connections)
          | inr (x, t) ↦
              rw (e, t, remove_from_group)
                (replaced r.connections (connection_key d) x
                  (record x { groups = delete_key (normalize_group group) x.groups })
                  (entry_of-get lib d r x t).0 refl)
        ]

    pub remove_from_all_groups-IsSame :
        (c : Conn) → IsSame r.connections (remove_from_all_groups lib c r).connections
    unfolding remove_from_all_groups
    remove_from_all_groups-IsSame c = elim (Option-cases (get r.connections (connection_key c))) [
      | inl e ↦ rw (e, remove_from_all_groups) (same r.connections)
      | inr (x, e) ↦
          rw (e, remove_from_all_groups)
            (replaced r.connections (connection_key c) x (record x { groups = [] }) e refl)
    ]
