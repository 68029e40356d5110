-- ===== src/Handler/Races.antt =====
-- `removeConnection` of server.go where another call comes between the two parts of `remove`.
use signalg.Base.{
  ◌≡◌, sym, ap, ◌∙◌, if◌then◌else◌, Bytes, none, bytes_eq_iff, arith, inl, inr, Option-cases,
}
use signalg.Base.Int.{pos, ◌-ℤ◌, sub_pos, sub_zero}
use signalg.Base.Assoc.{is_some, length-of_keys, bytes_eq_self}
use signalg.Registry.ShardMap.{ShardMap, IsMap}
use signalg.Registry.Types.{Conn, RegistryEntry, connection_key}
use signalg.Registry.Members.{drop_entry, remove_locked}
use signalg.Registry.Counts.{len-delete}
use signalg.Handler.Admission.{Handler, removed}
use signalg.Handler.Online.{IsCounted}

module _ (lib : ShardMap) where
  -- `removeConnection` from where `remove` has found the entry and gets its lock.
  unfoldable pub remove_connection_locked : Conn → RegistryEntry → Handler lib → Handler lib
  unfolding removed remove_locked
  remove_connection_locked conn entry h = removed lib h (remove_locked lib conn entry h.registry)

module _ (lib : ShardMap) (laws : IsMap lib) where
  open lib use {Map, get, delete, len, entries}
  open laws use {get-delete, lookup-entries, entries-DistinctKeys, len-entries}

  -- Deleting a key that is not there leaves the length.
  len-delete_none : {V : Type 0} (m : Map V) (k : Bytes) → get m k ≡ none → len (delete m k) ≡ len m
  len-delete_none m k h =
      len-entries (delete m k)
      ∙ length-of_keys (entries (delete m k)) (entries m) (entries-DistinctKeys (delete m k))
          (entries-DistinctKeys m)
          (λ j. ground (
            arith,
            lookup-entries (delete m k) j,
            lookup-entries m j,
            get-delete m k j,
            bytes_eq_iff k j,
          ))
      ∙ sym (len-entries m)

  -- Whatever has come before a call of `removeConnection` gets the lock of the entry that it has
  -- found, on a handler whose counter and registry agreed until then: afterwards no connection is
  -- registered under the connection's key, and `Online` is the number of the registered connections
  -- if there still was one under the key, and one less if there was none any more.
  pub remove_connection_locked-online :
      (c : Conn) (e : RegistryEntry) (h : Handler lib)
      → IsCounted lib laws h
      → let k = remove_connection_locked lib c e h in
        (k.online
          ≡ pos (len k.registry.connections)
            -ℤ (if is_some (get h.registry.connections (connection_key c)) then pos 0 else pos 1))
        × (get k.registry.connections (connection_key c) ≡ none)
  unfolding remove_connection_locked drop_entry
  remove_connection_locked-online c e h v =
      let conns = h.registry.connections in
      let key = connection_key c in
      let gone : get (delete conns key) key ≡ none =
        ground (arith, get-delete conns key key, bytes_eq_self key) in
      let less = ap (λ z. z -ℤ pos 1) v.online in
      elim (Option-cases (get conns key)) [
        | inl absent ↦ (
          rw absent (less ∙ ap (λ n. pos n -ℤ pos 1) (sym (len-delete_none conns key absent))),
          gone,
        )
        | inr (x, there) ↦
            (let left = len (delete conns key) in
              (
                rw there (
                    less
                    ∙ ap (λ n. pos n -ℤ pos 1) (len-delete lib laws conns key x there)
                    ∙ sub_pos left 1
                    ∙ sym (sub_zero left)),
                gone,
              ))
      ]
