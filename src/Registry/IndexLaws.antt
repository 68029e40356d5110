-- ===== src/Registry/IndexLaws.antt =====
-- What stands in an index of registry.go after each operation on it.
use signalg.Base.{
  ◌<◌, ◌≡◌, refl, sym, ◌&&◌, if◌then◌else◌, List, [], ◌∷◌, Bytes, bytes_eq, bytes_eq_iff, length,
  Option, none, some, arith, inl, inr, Option-cases,
}
use signalg.Base.Assoc.{lookup, bytes_eq_self}
use signalg.Registry.ShardMap.{ShardMap, IsMap}
use signalg.Registry.Types.{Conn}
use signalg.Registry.Index.{connection_set_for, index_set, remove_connection_from_index, index_get}
use signalg.Registry.Members.{contains, remove_from_groups}

module _ (lib : ShardMap) (laws : IsMap lib) where
  open lib use {Map, new, get, set, delete, len, entries}
  open laws use {get-new, get-set, get-delete, lookup-entries, len-entries}

  -- A map of length 0 has no key.
  get-len_zero : {V : Type 0} (m : Map V) (k : Bytes) → len m ≡ 0 → get m k ≡ none
  unfolding lookup
  get-len_zero m k h = no_entries (entries m) (ground (arith, len-entries m)) (lookup-entries m k)
    where
      no_entries :
          {V : Type 0} (es : List (Bytes × V)) {o : Option V}
          → length es ≡ 0
          → lookup k es ≡ o
          → o ≡ none
      no_entries [] e l = sym l
      no_entries (x ∷ es) e l = absurd (omega arith)

  pub index_get-index_set :
      (index : Map (Map Conn)) (u v k j : Bytes) (c : Conn)
      → index_get lib (index_set lib index u k c) v j
        ≡ (if bytes_eq u v && bytes_eq k j then some c else index_get lib index v j)
  unfolding index_get index_set
  index_get-index_set index u v k j c = elim (Option-cases (get index u)) [
    | inl e ↦
        rw (e, index_set, connection_set_for)
          (ground (
            arith,
            e,
            get-set (set index u new) u v (set new k c),
            get-set index u v new,
            get-set new k j c,
            get-new {V = Conn} j,
            bytes_eq_iff u v,
          ))
    | inr (s, e) ↦
        rw (e, index_set, connection_set_for)
          (ground (arith, e, get-set index u v (set s k c), get-set s k j c, bytes_eq_iff u v))
  ]

  pub index_get-remove :
      (index : Map (Map Conn)) (u v k j : Bytes)
      → index_get lib (remove_connection_from_index lib index u k) v j
        ≡ (if bytes_eq u v && bytes_eq k j then none else index_get lib index v j)
  unfolding index_get remove_connection_from_index
  index_get-remove index u v k j = elim (Option-cases (get index u)) [
    | inl e ↦ rw (e, remove_connection_from_index) (ground (arith, e, bytes_eq_iff u v))
    | inr (s, e) ↦
        rw (e, remove_connection_from_index)
          (ground (
            arith,
            e,
            get-set index u v (delete s k),
            get-delete (set index u (delete s k)) u v,
            get-delete s k j,
            get-len_zero (delete s k) j,
            bytes_eq_iff u v,
          ))
  ]

  pub index_get-remove_from_groups :
      (gs : List Bytes) (key : Bytes) (index : Map (Map Conn)) (g j : Bytes)
      → index_get lib (remove_from_groups lib gs key index) g j
        ≡ (if contains gs g && bytes_eq key j then none else index_get lib index g j)
  unfolding remove_from_groups contains
  index_get-remove_from_groups [] key index g j = refl
  index_get-remove_from_groups (h ∷ gs) key index g j = ground (
    arith,
    index_get-remove_from_groups gs key (remove_connection_from_index lib index h key) g j,
    index_get-remove index h g key j,
  )

  -- No set of the index is empty.
  abbrev pub NoEmptySet : Map (Map Conn) → Type 0
  NoEmptySet index = (u : Bytes) (s : Map Conn) → get index u ≡ some s → 0 < len s

  len_pos_of_get : {V : Type 0} (m : Map V) (k : Bytes) (v : V) → get m k ≡ some v → 0 < len m
  len_pos_of_get m k v h = ground (arith, get-len_zero m k)

  pub index_set-NoEmptySet :
      (index : Map (Map Conn)) (u k : Bytes) (c : Conn)
      → NoEmptySet index
      → NoEmptySet (index_set lib index u k c)
  unfolding index_set
  index_set-NoEmptySet index u k c h v t = elim (Option-cases (get index u)) [
    | inl e ↦
        rw (e, index_set, connection_set_for)
          (ground (
            arith,
            get-set (set index u new) u v (set new k c),
            get-set index u v new,
            h v t,
            len_pos_of_get (set new k c) k c,
            get-set new k k c,
            bytes_eq_self k,
          ))
    | inr (s, e) ↦
        rw (e, index_set, connection_set_for)
          (ground (
            arith,
            get-set index u v (set s k c),
            h v t,
            len_pos_of_get (set s k c) k c,
            get-set s k k c,
            bytes_eq_self k,
          ))
  ]

  pub remove-NoEmptySet :
      (index : Map (Map Conn)) (u k : Bytes)
      → NoEmptySet index
      → NoEmptySet (remove_connection_from_index lib index u k)
  unfolding remove_connection_from_index
  remove-NoEmptySet index u k h v t = elim (Option-cases (get index u)) [
    | inl e ↦ rw (e, remove_connection_from_index) (h v t)
    | inr (s, e) ↦
        rw (e, remove_connection_from_index)
          (ground (
            arith,
            get-set index u v (delete s k),
            get-delete (set index u (delete s k)) u v,
            h v t,
          ))
  ]

  pub remove_from_groups-NoEmptySet :
      (gs : List Bytes) (key : Bytes) (index : Map (Map Conn))
      → NoEmptySet index
      → NoEmptySet (remove_from_groups lib gs key index)
  unfolding remove_from_groups
  remove_from_groups-NoEmptySet [] key index h = h
  remove_from_groups-NoEmptySet (g ∷ gs) key index h =
      remove_from_groups-NoEmptySet gs key (remove_connection_from_index lib index g key)
        (remove-NoEmptySet index g key h)
