-- ===== src/Registry/Removed.antt =====
-- What is left of a connection that `remove` has taken out.
use signalg.Base.{
  ◌⊎◌, ◌+◌, ◌≡◌, true, false, if◌then◌else◌, Bytes, bytes_eq, none, some, arith, inl, inr,
  Option-cases, refl, sym, ap, subst, Bool,
}
use signalg.Base.Assoc.{bytes_eq_self}
use signalg.Registry.ShardMap.{ShardMap, IsMap}
use signalg.Registry.Types.{Conn, RegistryEntry, Registry, connection_key}
use signalg.Registry.Index.{index_get}
use signalg.Registry.Members.{drop_entry, entry_of, remove, remove_locked}
use signalg.Registry.Consistent.{IsConsistent, drop_entry-IsConsistent}
use signalg.Registry.Entries.{entry_of-get}
use signalg.Registry.Counts.{len-delete}

module _ (lib : ShardMap) (laws : IsMap lib) where
  open lib use {get, len}
  open laws use {get-delete}

  -- Nothing of a key is left, and every other key has the entry that it had.
  pub record IsGone (key : Bytes) (r r' : Registry lib) : Type 0 where
    pub entry :
        (k : Bytes) → get r'.connections k ≡ (if bytes_eq key k then none else get r.connections k)
    pub user : (u : Bytes) → index_get lib r'.user_conn_index u key ≡ none
    pub group : (g : Bytes) → index_get lib r'.group_conn_index g key ≡ none
    pub counted : len r.connections ≡ len r'.connections + 1

  dropped-IsGone :
      (key : Bytes) (e : RegistryEntry) (r : Registry lib)
      → IsConsistent lib r
      → get r.connections key ≡ some e
      → IsGone key r (drop_entry lib key e r)
  unfolding drop_entry
  dropped-IsGone key e r v t =
      let w = drop_entry-IsConsistent lib laws r v key e t in
      let gone : get (drop_entry lib key e r).connections key ≡ none =
        ground (arith, get-delete r.connections key key, bytes_eq_self key) in
      record {
        entry = λ k. get-delete r.connections key k;
        user = λ u. ground (arith, w.users u key);
        group = λ g. ground (arith, w.groups g key);
        counted = len-delete lib laws r.connections key e t;
      }

  removed :
      (c : Conn) (r r' : Registry lib)
      → remove lib c r ≡ (r', true)
      → (e : RegistryEntry) × (get r.connections (connection_key c) ≡ some e)
        × (r' ≡ drop_entry lib (connection_key c) e r)
  unfolding remove remove_locked
  removed c r r' h = elim (Option-cases (entry_of lib c r)) [
    | inl t ↦ let bad : (r, false) ≡ (r', true) = rw (t, remove) at h in cc bad
    | inr (e, t) ↦
        let made : (drop_entry lib (connection_key c) e r, true) ≡ (r', true) =
          rw (t, remove) at h in
        (e, (entry_of-get lib c r e t).0, sym (ap (λ (x : Registry lib × Bool). x.0) made))
  ]

  not_found :
      (c : Conn) (r : Registry lib)
      → get r.connections (connection_key c) ≡ none
      → entry_of lib c r ≡ none
  unfolding entry_of
  not_found c r h = rw (h, entry_of) refl

  not_removed :
      (c : Conn) (r : Registry lib)
      → get r.connections (connection_key c) ≡ none
      → remove lib c r ≡ (r, false)
  unfolding remove
  not_removed c r h = rw (not_found c r h, remove) refl

  -- Where `remove` returns true, of a registry whose indexes agree with its entries, the
  -- connection's key has left the entries, the sets of all users and the sets of all groups, and
  -- one entry is gone; the other keys keep their entries; and removing the connection again returns
  -- false and changes nothing.
  pub remove-IsGone :
      (c : Conn) (r r' : Registry lib)
      → IsConsistent lib r
      → remove lib c r ≡ (r', true)
      → IsGone (connection_key c) r r' × (remove lib c r' ≡ (r', false))
  remove-IsGone c r r' v h =
      let (e, t, same) = removed c r r' h in
      let gone : IsGone (connection_key c) r r' =
        subst (IsGone (connection_key c) r) (sym same)
          (dropped-IsGone (connection_key c) e r v t) in
      (
        gone,
        not_removed c r'
            (ground (arith, gone.entry (connection_key c), bytes_eq_self (connection_key c))),
      )

  -- Where `remove` returns false, it changes nothing.
  pub remove-cases :
      (c : Conn) (r : Registry lib)
      → (remove lib c r ≡ (r, false)) ⊎ ((r' : Registry lib) × (remove lib c r ≡ (r', true)))
  unfolding remove remove_locked
  remove-cases c r = elim (Option-cases (entry_of lib c r)) [
    | inl e ↦ inl (rw (e, remove) refl)
    | inr (x, e) ↦ inr (drop_entry lib (connection_key c) x r, rw (e, remove) refl)
  ]
