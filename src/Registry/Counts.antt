-- ===== src/Registry/Counts.antt =====
-- What the counters of the registry count.
use signalg.Base.{
  ==_self, ◌+◌, ◌≡◌, refl, ◌∙◌, Bool, false, not, ◌&&◌, if◌then◌else◌, is_empty, List, [], ◌∷◌,
  Bytes, bytes_eq, length, none, some, arith, inl, inr, Option-cases,
}
use signalg.Base.Assoc.{
  bytes_eq_self, lookup, is_some, length-of_keys, keep, passing, lookup-keep, keep-DistinctKeys,
  erase, lookup-erase, erase-DistinctKeys, length-erase,
}
use signalg.Base.Int.{ℤ}
use signalg.Registry.ShardMap.{ShardMap, IsMap}
use signalg.Registry.Types.{connection_key, Conn, RegistryEntry, Registry}
use signalg.Registry.Index.{index_get}
use signalg.Registry.Members.{contains, add}
use signalg.Registry.Consistent.{IsConsistent}
use signalg.Registry.Conns.{conn_at}
use signalg.Registry.Snapshot.{user_online, group_online}

-- The entries of a user, and those in a group.
abbrev pub is_of_user : Bytes → RegistryEntry → Bool
is_of_user u e = not (is_empty e.conn.user_id) && bytes_eq e.conn.user_id u

abbrev pub is_in_group : Bytes → RegistryEntry → Bool
is_in_group g e = contains e.groups g

module _ (lib : ShardMap) (laws : IsMap lib) where
  open lib use {Map, new, get, set, delete, len, entries}
  open laws use {get-set, get-delete, lookup-entries, entries-DistinctKeys, len-entries}

  -- Deleting a key that is there takes one off the length.
  pub len-delete :
      {V : Type 0} (m : Map V) (k : Bytes) (v : V) → get m k ≡ some v → len m ≡ len (delete m k) + 1
  len-delete m k v h =
      let same =
        length-of_keys (entries (delete m k)) (erase k (entries m))
          (entries-DistinctKeys (delete m k))
          (erase-DistinctKeys k (entries m) (entries-DistinctKeys m))
          (λ j. ground (
            arith,
            lookup-entries (delete m k) j,
            lookup-erase k j (entries m) (entries-DistinctKeys m),
            get-delete m k j,
            lookup-entries m j,
          )) in
      ground (
        arith,
        same,
        len-entries m,
        len-entries (delete m k),
        length-erase k (entries m),
        lookup-entries m k,
      )

  -- Setting a key that is not there adds one to it.
  pub len-set :
      {V : Type 0} (m : Map V) (k : Bytes) (v : V) → get m k ≡ none → len (set m k v) ≡ len m + 1
  len-set m k v h =
      let same =
        length-of_keys (entries (set m k v)) ((k, v) ∷ entries m) (entries-DistinctKeys (set m k v))
          (lookup-entries m k ∙ h, entries-DistinctKeys m)
          (λ j. ground (
            arith,
            lookup-entries (set m k v) j,
            get-set m k j v,
            lookup-entries m j,
            lookup_head k v (entries m) j,
          )) in
      ground (arith, same, len-entries m, len-entries (set m k v))
    where
      lookup_head :
          {V : Type 0} (k : Bytes) (v : V) (es : List (Bytes × V)) (j : Bytes)
          → lookup j ((k, v) ∷ es) ≡ (if bytes_eq k j then some v else lookup j es)
      lookup_head k v es j = unfold lookup in refl

  -- A set whose keys are those of the entries that pass a test has as many.
  len-keep :
      (s : Map Conn) (m : Map RegistryEntry) (p : RegistryEntry → Bool)
      → ((k : Bytes) → is_some (get s k) ≡ is_some (passing p (get m k)))
      → len s ≡ length (keep p (entries m))
  len-keep s m p h =
      len-entries s
      ∙ length-of_keys (entries s) (keep p (entries m)) (entries-DistinctKeys s)
          (keep-DistinctKeys p (entries m) (entries-DistinctKeys m))
          (λ k. ground (
            arith,
            lookup-entries s k,
            lookup-keep p k (entries m) (entries-DistinctKeys m),
            lookup-entries m k,
            h k,
          ))

  none-keep :
      (m : Map RegistryEntry) (p : RegistryEntry → Bool)
      → ((k : Bytes) → is_some (passing p (get m k)) ≡ false)
      → 0 ≡ length (keep p (entries m))
  unfolding lookup
  none-keep m p h =
      length-of_keys {V = Conn} [] (keep p (entries m)) tt
        (keep-DistinctKeys p (entries m) (entries-DistinctKeys m))
        (λ k.
          ground
            (arith, lookup-keep p k (entries m) (entries-DistinctKeys m), lookup-entries m k, h k))

  module _ (r : Registry lib) (v : IsConsistent lib r) where
    -- Of a user.
    user_online-count :
        (u : Bytes) → user_online lib u r ≡ length (keep (is_of_user u) (entries r.connections))
    unfolding user_online index_get
    user_online-count u = elim (Option-cases (get r.user_conn_index u)) [
      | inl e ↦
          rw (e, user_online)
            (none-keep r.connections (is_of_user u) (λ k. ground (arith, v.users u k)))
      | inr (s, e) ↦
          rw (e, user_online)
            (len-keep s r.connections (is_of_user u) (λ k. ground (arith, v.users u k)))
    ]

    -- Of a group.
    group_online-count :
        (g : Bytes) → group_online lib g r ≡ length (keep (is_in_group g) (entries r.connections))
    unfolding group_online index_get
    group_online-count g = elim (Option-cases (get r.group_conn_index g)) [
      | inl e ↦
          rw (e, group_online)
            (none-keep r.connections (is_in_group g) (λ k. ground (arith, v.groups g k)))
      | inr (s, e) ↦
          rw (e, group_online)
            (len-keep s r.connections (is_in_group g) (λ k. ground (arith, v.groups g k)))
    ]

    -- In a registry whose indexes agree with its entries, whatever the user and the group:
    -- `userOnline` counts the entries of the user's connections, and `groupOnline` those that are
    -- in the group.
    pub online-count :
        (u g : Bytes)
        → (user_online lib u r ≡ length (keep (is_of_user u) (entries r.connections)))
          × (group_online lib g r ≡ length (keep (is_in_group g) (entries r.connections)))
    online-count u g = (user_online-count u, group_online-count g)

  pub len-added :
      (now : ℤ) (c : Conn) (r : Registry lib)
      → get r.connections (connection_key c) ≡ none
      → len (add lib now c r).connections ≡ len r.connections + 1
  unfolding add
  len-added now c r h =
      let key = connection_key c in
      let x : RegistryEntry = record {
        entry_id = r.next_entry;
        conn = c;
        last_seen = now;
        groups = [];
      } in
      let t : get (set r.connections key x) key ≡ some x =
        ground (arith, get-set r.connections key key x, bytes_eq_self key) in
      rw (t, ==_self r.next_entry) (len-set r.connections key x h)

  -- `add` registers the connection, even under a key that is taken.
  pub conn_at-add :
      (now : ℤ) (c : Conn) (r : Registry lib)
      → conn_at (get (add lib now c r).connections (connection_key c)) ≡ some c
  unfolding add
  conn_at-add now c r =
      let key = connection_key c in
      let x : RegistryEntry = record {
        entry_id = r.next_entry;
        conn = c;
        last_seen = now;
        groups = [];
      } in
      let t : get (set r.connections key x) key ≡ some x =
        ground (arith, get-set r.connections key key x, bytes_eq_self key) in
      rw (t, ==_self r.next_entry, t) refl
