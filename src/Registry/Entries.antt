-- ===== src/Registry/Entries.antt =====
-- The keys of an entry's groups, and the entry of a connection.
use signalg.Base.{
  ◌≡◌, ◌&&◌, ◌||◌, not, if◌then◌else◌, List, [], ◌∷◌, Bytes, bytes_eq, bytes_eq_iff, none, some,
  arith, inl, inr, Option-cases, Bool-cases,
}
use signalg.Registry.ShardMap.{ShardMap}
use signalg.Registry.Types.{
  Conn, RegistryEntry, Registry, connection_key, same_conn, eq_of_same_conn,
}
use signalg.Registry.Members.{contains, add_key, delete_key, entry_of}

pub contains-add_key :
    (g h : Bytes) (gs : List Bytes) → contains (add_key g gs) h ≡ (bytes_eq g h || contains gs h)
unfolding add_key contains
contains-add_key g h gs = elim (Bool-cases (contains gs g)) [
  | inl e ↦ rw e (ground (arith, e, bytes_eq_iff g h))
  | inr e ↦ rw e
]

pub contains-delete_key :
    (g h : Bytes) (gs : List Bytes)
    → contains (delete_key g gs) h ≡ (not (bytes_eq g h) && contains gs h)
unfolding delete_key contains
contains-delete_key g h [] = ground arith
contains-delete_key g h (x ∷ gs) =
    ground (arith, contains-delete_key g h gs, bytes_eq_iff x g, bytes_eq_iff x h, bytes_eq_iff g h)

module _ (lib : ShardMap) where
  open lib use {Map, get}

  -- The entry found for a connection is the one registered under its key, and holds it.
  pub entry_of-get :
      (c : Conn) (r : Registry lib) (e : RegistryEntry)
      → entry_of lib c r ≡ some e
      → (get r.connections (connection_key c) ≡ some e) × (e.conn ≡ c)
  unfolding entry_of
  entry_of-get c r e h = elim (Option-cases (get r.connections (connection_key c))) [
    | inl t ↦ let bad : none ≡ some e = rw (t, entry_of) at h in cc bad
    | inr (x, t) ↦
        let h' : (if same_conn x.conn c then some x else none) ≡ some e = rw (t, entry_of) at h in
        ground (arith, eq_of_same_conn x.conn c)
  ]
