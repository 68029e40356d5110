-- ===== src/Registry/Chosen.antt =====
-- The loops of `userSnapshot` and `connectionSnapshot`: what they collect, and that they collect it
-- once.
use signalg.Base.{
  ◌≡◌, refl, Bool, not, ◌&&◌, if◌then◌else◌, is_empty, List, [], ◌∷◌, ◌++◌, map, Bytes, bytes_eq,
  bytes_eq_iff, Option, none, some, arith, inl, inr, Option-cases, Bool-cases,
}
use signalg.Base.Assoc.{lookup, is_some, DistinctKeys}
use signalg.Registry.ShardMap.{ShardMap, IsMap}
use signalg.Registry.Types.{Conn, RegistryEntry, Registry}
use signalg.Registry.Index.{index_get}
use signalg.Registry.Members.{contains}
use signalg.Registry.Consistent.{IsConsistent, user_at}
use signalg.Registry.Snapshot.{set_entries, visit_set, collect_users}

contains-lookup :
    (k : Bytes) (got : List (Bytes × Conn))
    → contains (map (λ e. e.0) got) k ≡ is_some (lookup k got)
unfolding contains lookup
contains-lookup k [] = refl
contains-lookup k ((j, c) ∷ got) = ground (arith, contains-lookup k got)

lookup-append_one :
    (k j : Bytes) (c : Conn) (got : List (Bytes × Conn))
    → lookup k (got ++ ((j, c) ∷ []))
      ≡ (if is_some (lookup k got) then lookup k got else if bytes_eq j k then some c else none)
unfolding lookup
lookup-append_one k j c [] = ground arith
lookup-append_one k j c ((i, d) ∷ got) = ground (arith, lookup-append_one k j c got)

append_one-DistinctKeys :
    (j : Bytes) (c : Conn) (got : List (Bytes × Conn))
    → lookup j got ≡ none
    → DistinctKeys got
    → DistinctKeys (got ++ ((j, c) ∷ []))
unfolding lookup
append_one-DistinctKeys j c [] n d = ground arith
append_one-DistinctKeys j c ((i, x) ∷ got) n d =
    let rest = append_one-DistinctKeys j c got in
    ground (arith, rest, lookup-append_one i j c got, bytes_eq_iff i j, bytes_eq_iff j i)

-- What is found first.
abbrev pub first_of : Option Conn → Option Conn → Option Conn
first_of (some c) other = some c
first_of none other = other

module _ (lib : ShardMap) where
  visit_set-DistinctKeys :
      (es got : List (Bytes × Conn)) → DistinctKeys got → DistinctKeys (visit_set lib es got)
  unfolding visit_set
  visit_set-DistinctKeys [] got d = d
  visit_set-DistinctKeys ((key, c) ∷ es) got d =
      elim (Bool-cases (contains (map (λ e. e.0) got) key)) [
        | inl old ↦ rw old (visit_set-DistinctKeys es got d)
        | inr new ↦ rw new (
            visit_set-DistinctKeys es (got ++ ((key, c) ∷ []))
              (append_one-DistinctKeys key c got (ground (arith, contains-lookup key got)) d))
      ]

  lookup-visit_set :
      (k : Bytes) (es got : List (Bytes × Conn))
      → lookup k (visit_set lib es got) ≡ first_of (lookup k got) (lookup k es)
  unfolding visit_set lookup
  lookup-visit_set k [] got = ground arith
  lookup-visit_set k ((key, c) ∷ es) got = elim (Bool-cases (contains (map (λ e. e.0) got) key)) [
    | inl old ↦
        rw old
          (ground (arith, lookup-visit_set k es got, contains-lookup key got, bytes_eq_iff key k))
    | inr new ↦ rw new (
        ground
          (arith, lookup-visit_set k es (got ++ ((key, c) ∷ [])), lookup-append_one k key c got))
  ]

-- The entries of some users, whose names are not empty, and those under some keys.
abbrev pub is_of_users : List Bytes → RegistryEntry → Bool
is_of_users ids e = not (is_empty e.conn.user_id) && contains ids e.conn.user_id

-- The connection of an entry that is wanted.
abbrev pub wanted : (RegistryEntry → Bool) → Option RegistryEntry → Option Conn
wanted p none = none
wanted p (some e) = if p e then some e.conn else none

pub wanted-users :
    (u : Bytes) (ids : List Bytes) (o : Option RegistryEntry)
    → wanted (is_of_users (u ∷ ids)) o ≡ (
        if is_empty u
        then wanted (is_of_users ids) o
        else first_of (user_at o u) (wanted (is_of_users ids) o))
unfolding contains
wanted-users u ids none = ground arith
wanted-users u ids (some e) =
    ground (arith, bytes_eq_iff u e.conn.user_id, bytes_eq_iff e.conn.user_id u)

pub wanted-none : (o : Option RegistryEntry) → wanted (is_of_users []) o ≡ none
unfolding contains
wanted-none none = refl
wanted-none (some e) = ground arith

module _ (lib : ShardMap) (laws : IsMap lib) (r : Registry lib) (v : IsConsistent lib r) where
  open lib use {Map, get, len, entries}
  open laws use {lookup-entries, entries-DistinctKeys, len-entries}

  pub lookup-set_entries :
      (u k : Bytes)
      → lookup k (set_entries lib (get r.user_conn_index u)) ≡ user_at (get r.connections k) u
  unfolding set_entries index_get lookup
  lookup-set_entries u k = elim (Option-cases (get r.user_conn_index u)) [
    | inl e ↦ rw (e, set_entries) (ground (arith, v.users u k))
    | inr (s, e) ↦ rw (e, set_entries) (ground (arith, v.users u k, lookup-entries s k))
  ]

  pub collect_users-DistinctKeys :
      (ids : List Bytes) (got : List (Bytes × Conn))
      → DistinctKeys got
      → DistinctKeys (collect_users lib ids got r)
  unfolding collect_users
  collect_users-DistinctKeys [] got d = d
  collect_users-DistinctKeys (u ∷ ids) got d = elim (Bool-cases (is_empty u)) [
    | inl skip ↦ rw skip (collect_users-DistinctKeys ids got d)
    | inr use_it ↦
        (let es = set_entries lib (get r.user_conn_index u) in
          rw use_it (
            collect_users-DistinctKeys ids (visit_set lib es got)
              (visit_set-DistinctKeys lib es got d)))
  ]

  pub lookup-collect_users :
      (k : Bytes) (ids : List Bytes) (got : List (Bytes × Conn))
      → lookup k (collect_users lib ids got r)
        ≡ first_of (lookup k got) (wanted (is_of_users ids) (get r.connections k))
  unfolding collect_users
  lookup-collect_users k [] got = ground (arith, wanted-none (get r.connections k))
  lookup-collect_users k (u ∷ ids) got =
      let es = set_entries lib (get r.user_conn_index u) in
      let more = wanted-users u ids (get r.connections k) in
      elim (Bool-cases (is_empty u)) [
        | inl skip ↦ rw (more, skip) (lookup-collect_users k ids got)
        | inr use_it ↦
            rw (more, use_it)
              (ground (
                arith,
                lookup-collect_users k ids (visit_set lib es got),
                lookup-visit_set lib k es got,
                lookup-set_entries u k,
              ))
      ]
